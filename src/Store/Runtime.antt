-- ===== src/Store/Runtime.antt =====
-- `SQLiteRuntimeStore` of src/devlegate/runtime_store.py.
-- SQLite is not part of the repository. What it is here is the contents of the database file and, for
-- one call, which of its statements raise; a statement outside a transaction is durable once it ran.
pub mod Laws
pub mod Schema
pub mod Supervision
use devlegate.Prelude.{
  ℕ, zero, suc, String, Bool, Option, none, some, List, str_eq, Result, ok, err, ◌>>=◌, ◌>>◌,
  require, expect, if◌then◌else◌,
}
use devlegate.Values.{Fields, obj, str, field, no_fields, as_dict}
use devlegate.Values.Int.{ℤ, pos, negsuc}
use devlegate.Ipc.Json.{Json}
use devlegate.Store.Database.{
  StoreError, Cell, AuthorityRow, Database, Calls, validate_schema, initialize_schema, File, opened,
  cannot_initialize, invalid_row, undecodable, not_object, cannot_read, cannot_write,
  not_serializable, cannot_establish, cannot_clear, invalid_authority, cannot_read_authority, text,
  integer, other,
}
use devlegate.Store.Transaction.{transact, and_transact}

unfoldable pub probe : Calls → File → Result StoreError (Unit {0}) × File
unfolding initialize_schema
probe calls file =
    if calls.connects
    then (
      (initialize_schema calls cannot_initialize (opened file)).0
          >> require calls.commits cannot_initialize,
      some (initialize_schema calls cannot_initialize (opened file)).1,
    )
    else (err cannot_initialize, file)

-- `isinstance(revision, int) and revision >= 1`, with the revision
abbrev pub as_revision : Cell → Option ℕ
as_revision (integer (pos zero)) = none
as_revision (integer (pos (suc n))) = some (suc n)
as_revision (integer (negsuc n)) = none
as_revision (text s) = none
as_revision other = none

abbrev as_payload : Cell → Option (List ℕ)
as_payload (text s) = some s
as_payload (integer n) = none
as_payload other = none

abbrev pub state_row : Database → Option (Cell × Cell)
state_row db = elim db.runtime_state [ none ↦ none | some row ↦ row ]

-- `1 if row is None else row[0] + 1`; adding to what is no number raises.
unfoldable pub next_revision : Option (Cell × Cell) → Option ℤ
next_revision none = some (pos 1)
next_revision (some (p, integer (pos n))) = some (pos (suc n))
next_revision (some (p, integer (negsuc zero))) = some (pos 0)
next_revision (some (p, integer (negsuc (suc n)))) = some (negsuc n)
next_revision (some (p, text s)) = none
next_revision (some (p, other)) = none

-- The id is the primary key, so a second row raises.
unfoldable pub insert_state : List ℕ → ℤ → Database → Option Database
insert_state payload revision db = elim (state_row db) [
  | none ↦ some (record db { runtime_state = some (some (text payload, integer revision)) })
  | some row ↦ none
]

unfoldable pub update_state : List ℕ → ℤ → Database → Option Database
update_state payload revision db = elim (state_row db) [
  | none ↦ some db
  | some row ↦ some (record db { runtime_state = some (some (text payload, integer revision)) })
]

-- The statements of `replace`: the revision of the row, and an `INSERT` or an `UPDATE`.
unfoldable pub write_state : List ℕ → Database → Option Database
unfolding next_revision insert_state update_state
write_state payload db = elim (next_revision (state_row db)) [
  | none ↦ none
  | some revision ↦ elim (state_row db) [
    | none ↦ insert_state payload revision db
    | some row ↦ update_state payload revision db
  ]
]

-- A call that writes: the connection, the schema, and the transaction.
unfoldable pub run_write :
    Calls → StoreError → (Database → Option Database) → File → Result StoreError (Unit {0}) × File
unfolding initialize_schema transact
run_write calls failure statement file =
    if calls.connects
    then (
      (and_transact calls failure statement (initialize_schema calls failure (opened file))).0,
      some (and_transact calls failure statement (initialize_schema calls failure (opened file))).1,
    )
    else (err failure, file)

module _ (json : Json) where
  -- The row of `_read`.
  unfoldable pub read_row : Option (Cell × Cell) → Result StoreError (Option (Fields × ℕ))
  unfolding as_dict
  read_row none = ok none
  read_row (some (payload_cell, revision_cell)) = do
    payload ← expect (as_payload payload_cell) invalid_row
    revision ← expect (as_revision revision_cell) invalid_row
    value ← expect (json.loads payload) undecodable
    state ← expect (as_dict value) not_object
    ok (some (state, revision))

  -- `_read`; `connects` says whether SQLite opens the file and reads it.
  unfoldable pub read_state : Bool → File → Result StoreError (Option (Fields × ℕ))
  unfolding validate_schema
  read_state connects none = ok none
  read_state connects (some db) =
      require connects cannot_read >> (validate_schema db >> read_row (state_row db))

  abbrev pub idle_state : Fields
  idle_state = field "phase" (str "idle") no_fields

  unfoldable pub load : Bool → File → Result StoreError Fields
  unfolding read_state
  load connects file =
      read_state connects file
      >>= (λ row. ok (elim row [ none ↦ idle_state | some (state, n) ↦ state ]))

  -- `observe`: "missing", or the revision.
  unfoldable pub observe : Bool → File → Result StoreError (Fields × Option ℕ)
  unfolding read_state
  observe connects file =
      read_state connects file
      >>= (λ row. ok (elim row [ none ↦ (idle_state, none) | some (state, n) ↦ (state, some n) ]))

  -- `replace` behind `json.dumps`.
  unfoldable pub replace_payload : Calls → List ℕ → File → Result StoreError (Unit {0}) × File
  unfolding run_write write_state
  replace_payload calls payload file = run_write calls cannot_write (write_state payload) file

  unfoldable pub replace : Calls → Fields → File → Result StoreError (Unit {0}) × File
  replace calls state file = elim (json.dumps (obj state)) [
    | none ↦ (err not_serializable, file)
    | some payload ↦ replace_payload calls payload file
  ]

-- What `establish_systemd_authority` is given.
pub record Authority : Type 0 where
  pub unit_name : String
  pub state_key : String
  pub env_file : String
  pub repository : String

abbrev pub authority_row : Database → Option AuthorityRow
authority_row db = elim db.supervision_authority [ none ↦ none | some row ↦ row ]

-- The row that the statement would insert, `excluded`.
abbrev pub excluded : Authority → AuthorityRow
excluded a = record {
  authority = some "systemd";
  unit_name = some a.unit_name;
  state_key = some a.state_key;
  env_file = some a.env_file;
  repository = some a.repository;
}

-- `INSERT … ON CONFLICT(id) DO UPDATE SET …`
unfoldable pub insert_authority : Authority → Database → Option Database
insert_authority a db = elim (authority_row db) [
  | none ↦ some (record db { supervision_authority = some (some (excluded a)) })
  | some row ↦ some (record db {
    supervision_authority = some (
        some (record row {
          authority = some "systemd";
          unit_name = (excluded a).unit_name;
          state_key = (excluded a).state_key;
          env_file = (excluded a).env_file;
          repository = (excluded a).repository;
        }));
  })
]

unfoldable pub establish_systemd_authority :
    Calls → Authority → File → Result StoreError (Unit {0}) × File
unfolding run_write insert_authority
establish_systemd_authority calls a file =
    run_write calls cannot_establish (insert_authority a) file

-- `DELETE FROM supervision_authority WHERE id = 1`
unfoldable pub delete_authority : Database → Option Database
delete_authority db = elim db.supervision_authority [
  | none ↦ none
  | some row ↦ some (record db { supervision_authority = some none })
]

unfoldable pub clear_systemd_authority : Calls → File → Result StoreError (Unit {0}) × File
unfolding run_write delete_authority
clear_systemd_authority calls file = run_write calls cannot_clear delete_authority file

-- `isinstance(value, str) and value`, with the text
abbrev pub filled_text : Option String → Option String
filled_text none = none
filled_text (some s) = if str_eq s "" then none else some s

-- `dict(zip(keys, row))` of a row whose values are all texts that are not empty.
unfoldable pub read_authority_row : AuthorityRow → Result StoreError Fields
read_authority_row row = do
  authority ← expect (filled_text row.authority) invalid_authority
  unit_name ← expect (filled_text row.unit_name) invalid_authority
  state_key ← expect (filled_text row.state_key) invalid_authority
  env_file ← expect (filled_text row.env_file) invalid_authority
  repository ← expect (filled_text row.repository) invalid_authority
  ok (
      field "authority" (str authority) (
        field "unit_name" (str unit_name) (
          field "state_key" (str state_key)
            (field "env_file" (str env_file) (field "repository" (str repository) no_fields)))))

-- The row of `_read_authority`.
abbrev read_authority_of : Option AuthorityRow → Result StoreError (Option Fields)
read_authority_of none = ok none
read_authority_of (some row) = read_authority_row row >>= (λ fs. ok (some fs))

-- `supervision_authority`
unfoldable pub read_authority : Bool → File → Result StoreError (Option Fields)
unfolding validate_schema read_authority_row
read_authority connects none = ok none
read_authority connects (some db) =
    require connects cannot_read_authority
    >> (validate_schema db >> read_authority_of (authority_row db))
