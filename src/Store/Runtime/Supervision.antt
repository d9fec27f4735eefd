-- ===== src/Store/Runtime/Supervision.antt =====
-- The supervision authority is replaced whole or not at all, and read back column by column.
use devlegate.Prelude.{
  ◌≡◌, inl, inr, refl, true, false, Option, none, some, Result, ok, err, str_eq, some_injective,
}
use devlegate.Values.{Fields, str, field, no_fields}
use devlegate.Store.Database.{
  StoreError, cannot_establish, cannot_clear, Cell, AuthorityRow, Database, Calls, File,
  validate_schema,
}
use devlegate.Store.Runtime.{
  Authority, state_row, insert_authority, delete_authority, establish_systemd_authority,
  clear_systemd_authority, read_authority_row, read_authority,
}
use devlegate.Store.Runtime.Laws.{ready, run_write-cases}

-- Either the call raised and the file is as before, or it returned, and then the authority reads as the
-- given one and the row of the state is as before.
pub data Holds (row : Option (Cell × Cell)) (old : Option AuthorityRow) (now : Option Fields)
    : Result StoreError (Unit {0}) × File → Type 0 where
  kept : (e : StoreError) → Holds row old now (err e, some (ready row old))
  replaced :
      (db : Database)
      → read_authority true (some db) ≡ ok now
      → state_row db ≡ row
      → Holds row old now (ok tt, some db)

-- No text of an authority is empty.
pub record IsFilled (a : Authority) : Type 0 where
  pub unit_name : str_eq a.unit_name "" ≡ false
  pub state_key : str_eq a.state_key "" ≡ false
  pub env_file : str_eq a.env_file "" ≡ false
  pub repository : str_eq a.repository "" ≡ false

-- The document that says of an authority of systemd.
abbrev pub document : Authority → Fields
document a = field "authority" (str "systemd") (
    field "unit_name" (str a.unit_name) (
      field "state_key" (str a.state_key)
        (field "env_file" (str a.env_file) (field "repository" (str a.repository) no_fields))))

inserted :
    (a : Authority) (row : Option (Cell × Cell)) (old : Option AuthorityRow) (db : Database)
    → IsFilled a
    → insert_authority a (ready row old) ≡ some db
    → (read_authority true (some db) ≡ ok (some (document a))) × (state_row db ≡ row)
unfolding insert_authority read_authority read_authority_row validate_schema
inserted a row none db f h =
    rw (← some_injective h) (rw (f.unit_name, f.state_key, f.env_file, f.repository) refl, refl)
inserted a row (some old) db f h =
    rw (← some_injective h) (rw (f.unit_name, f.state_key, f.env_file, f.repository) refl, refl)

-- Against a database with the whole schema, `establish_systemd_authority` with an authority whose texts
-- are not empty either raises and leaves the file as it was, or the authority of systemd with exactly
-- these texts is read back, whichever was there before, and the row of the state is as it was.
-- Whichever calls of SQLite raise.
pub establish-Holds :
    (calls : Calls) (a : Authority) (row : Option (Cell × Cell)) (old : Option AuthorityRow)
    → IsFilled a
    → Holds row old (some (document a)) (establish_systemd_authority calls a (some (ready row old)))
unfolding establish_systemd_authority
establish-Holds calls a row old filled =
    elim (run_write-cases calls cannot_establish (insert_authority a) row old) [
      | inl failed ↦ rw (establish_systemd_authority, failed) (kept cannot_establish)
      | inr (db, wrote, done) ↦
          let (read, same) = inserted a row old db filled wrote in
          rw (establish_systemd_authority, done) (replaced db read same)
    ]

deleted :
    (row : Option (Cell × Cell)) (old : Option AuthorityRow) (db : Database)
    → delete_authority (ready row old) ≡ some db
    → (read_authority true (some db) ≡ ok none) × (state_row db ≡ row)
unfolding delete_authority read_authority validate_schema
deleted row old db h = rw (← some_injective h) (refl, refl)

-- Against a database with the whole schema, `clear_systemd_authority` either raises and leaves the file
-- as it was, or no authority is read from it any more and the row of the state is as it was.
-- Whichever calls of SQLite raise.
pub clear-Holds :
    (calls : Calls) (row : Option (Cell × Cell)) (old : Option AuthorityRow)
    → Holds row old none (clear_systemd_authority calls (some (ready row old)))
unfolding clear_systemd_authority
clear-Holds calls row old = elim (run_write-cases calls cannot_clear delete_authority row old) [
  | inl failed ↦ rw (clear_systemd_authority, failed) (kept cannot_clear)
  | inr (db, wrote, done) ↦
      let (read, same) = deleted row old db wrote in
      rw (clear_systemd_authority, done) (replaced db read same)
]
