-- ===== src/Store/Database.antt =====
-- The database file of src/devlegate/runtime_store.py, and how `_initialize_schema` and
-- `_validate_schema` bring it to the current schema.
use devlegate.Prelude.{
  ℕ, leb, String, Bool, true, false, not, Option, none, some, List, Result, err, ◌>>◌, require,
  if◌then◌else◌, is_some,
}
use devlegate.Values.Int.{ℤ, pos, negsuc, int_eq}

-- What a call raises: a `RuntimeStoreError`, or, as `not_serializable`, the exception of `json.dumps`,
-- which no `except` clause of the store catches.
pub data StoreError : Type 0 where
  unsupported_version incomplete_schema incomplete_authority_schema cannot_initialize : StoreError
  invalid_row undecodable not_object cannot_read cannot_write not_serializable : StoreError
  cannot_establish cannot_clear invalid_authority cannot_read_authority : StoreError

-- What a column holds.
pub data Cell : Type 0 where
  text : List ℕ → Cell
  integer : ℤ → Cell
  other : Cell

-- The columns of `supervision_authority` besides the id: a text, or something else.
pub record AuthorityRow : Type 0 where
  pub authority : Option String
  pub unit_name : Option String
  pub state_key : Option String
  pub env_file : Option String
  pub repository : Option String

-- `PRAGMA user_version`, which is signed; a table is there or not, and has its one row or not.
pub record Database : Type 0 where
  pub version : ℤ
  pub runtime_state : Option (Option (Cell × Cell))
  pub supervision_authority : Option (Option AuthorityRow)

abbrev pub created : Database
created = record { version = pos 0; runtime_state = none; supervision_authority = none }

-- Which calls of SQLite return.
pub record Calls : Type 0 where
  pub connects : Bool
  pub creates_state : Bool
  pub creates_authority : Bool
  pub sets_version : Bool
  pub begins : Bool
  pub writes : Bool
  pub commits : Bool

abbrev pub schema_version : ℤ
schema_version = pos 2

abbrev pub int_leb : ℤ → ℤ → Bool
int_leb (pos a) (pos b) = leb a b
int_leb (pos a) (negsuc b) = false
int_leb (negsuc a) (pos b) = true
int_leb (negsuc a) (negsuc b) = leb b a

-- `_validate_schema`
unfoldable pub validate_schema : Database → Result StoreError (Unit {0})
validate_schema db = do
  require (int_eq db.version schema_version) unsupported_version
  require (is_some db.runtime_state) incomplete_schema
  require (is_some db.supervision_authority) incomplete_authority_schema

-- `CREATE TABLE IF NOT EXISTS`
abbrev pub created_table : {A : Type 0} → Option (Option A) → Option (Option A)
created_table none = some none
created_table (some rows) = some rows

-- Where a database changes and then an exception may follow.
abbrev pub Changed : Type 0 → Type 0
Changed A = Result StoreError A × Database

-- The last statements of `_initialize_schema`.
unfoldable pub finish_schema : Calls → StoreError → Database → Changed (Unit {0})
unfolding validate_schema
finish_schema calls failure db =
    if int_eq db.version schema_version
    then (validate_schema db, db)
    else if calls.sets_version
    then (
      validate_schema (record db { version = schema_version }),
      record db { version = schema_version },
    )
    else (err failure, db)

-- `_initialize_schema` from the second table on.
unfoldable pub initialize_authority : Calls → StoreError → Database → Changed (Unit {0})
unfolding finish_schema
initialize_authority calls failure db =
    if int_leb db.version (pos 1)
    then if calls.creates_authority
      then finish_schema calls failure
          (record db { supervision_authority = created_table db.supervision_authority })
      else (err failure, db)
    else finish_schema calls failure db

-- `_initialize_schema`; `failure` is what the caller makes of an exception of SQLite.
unfoldable pub initialize_schema : Calls → StoreError → Database → Changed (Unit {0})
unfolding initialize_authority
initialize_schema calls failure db =
    if not (int_leb db.version schema_version)
    then (err unsupported_version, db)
    else if int_eq db.version (pos 0)
    then if calls.creates_state
      then initialize_authority calls failure
          (record db { runtime_state = created_table db.runtime_state })
      else (err failure, db)
    else initialize_authority calls failure db

-- The file, where there is one.
abbrev pub File : Type 0
File = Option Database

-- A connection that may write makes the file.
abbrev pub opened : File → Database
opened none = created
opened (some db) = db
