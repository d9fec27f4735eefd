-- ===== src/Store/Runtime/Schema.antt =====
-- What the initialization of the schema keeps and makes.
use devlegate.Prelude.{
  err-ne-ok, not, ◌>>◌, ◌≡◌, inl, inr, refl, sym, ap, ◌∙◌, Bool, true, false, Bool-cases, Option,
  none, some, Result, ok, err, require, if◌then◌else◌, require-eq-ok, is_some, seq_inversion,
}
use devlegate.Values.Int.{pos, int_eq, int_eq_iff}
use devlegate.Store.Runtime.{probe, state_row, authority_row}
use devlegate.Store.Runtime.Laws.{ready}
use devlegate.Store.Database.{
  StoreError, unsupported_version, incomplete_schema, incomplete_authority_schema,
  cannot_initialize, Cell, AuthorityRow, Database, Calls, schema_version, validate_schema, Changed,
  finish_schema, initialize_authority, initialize_schema, File, opened, created_table, int_leb,
}

validate_schema-ready :
    (db : Database)
    → validate_schema db ≡ ok tt
    → (row : Option (Cell × Cell)) × (a : Option AuthorityRow) × (db ≡ ready row a)
unfolding validate_schema
validate_schema-ready db h =
    let (v, h₁) = require-eq-ok (int_eq db.version schema_version) unsupported_version _ h in
    let (s, h₂) = require-eq-ok (is_some db.runtime_state) incomplete_schema _ h₁ in
    tables db.runtime_state db.supervision_authority refl refl v s
      (last (is_some db.supervision_authority) h₂)
  where
    last : (b : Bool) → require b incomplete_authority_schema ≡ ok tt → b ≡ true
    last true k = refl
    last false k = cc

    tables :
        (x : Option (Option (Cell × Cell))) (y : Option (Option AuthorityRow))
        → x ≡ db.runtime_state
        → y ≡ db.supervision_authority
        → (int_eq db.version schema_version) ≡ true
        → is_some db.runtime_state ≡ true
        → is_some db.supervision_authority ≡ true
        → (row : Option (Cell × Cell)) × (a : Option AuthorityRow) × (db ≡ ready row a)
    tables none y e f v s t = cc
    tables (some row) none e f v s t = cc
    tables (some row) (some a) e f v s t = (
      row,
      a,
      λ i. record {
        version = versions v i;
        runtime_state = sym e i;
        supervision_authority = sym f i;
      },
    )
      where
        versions : (int_eq db.version schema_version) ≡ true → db.version ≡ pos 2
        versions v = (int_eq_iff db.version schema_version).0 v

-- The outcome of a step of the schema: the tables of before are kept, and where it returns the
-- database has the whole schema.
record Prepared (db : Database) (p : Changed (Unit {0})) : Type 0 where
  rows : state_row p.1 ≡ state_row db
  authorities : authority_row p.1 ≡ authority_row db
  whole : p.0 ≡ ok tt → validate_schema p.1 ≡ ok tt

either_way :
    {A : Type 0} (Q : A → Type 0) (test : Bool) (here there : A)
    → Q here
    → Q there
    → Q (if test then here else there)
either_way Q true here there h t = h
either_way Q false here there h t = t

refused : {A : Type 0} {e : StoreError} → ◌≡◌ {A = Result StoreError (Unit {0})} (err e) (ok tt) → A
refused h = absurd (err-ne-ok h)

failed_step : (db : Database) (e : StoreError) → Prepared db (err e, db)
failed_step db e = record { rows = refl; authorities = refl; whole = λ h. refused h }

row_created :
    (t : Option (Option (Cell × Cell))) (db : Database)
    → state_row (record db { runtime_state = created_table t })
      ≡ state_row (record db { runtime_state = t })
row_created none db = refl
row_created (some row) db = refl

authority_created :
    (t : Option (Option AuthorityRow)) (db : Database)
    → authority_row (record db { supervision_authority = created_table t })
      ≡ authority_row (record db { supervision_authority = t })
authority_created none db = refl
authority_created (some a) db = refl

module _ (calls : Calls) (failure : StoreError) where
  abbrev versioned : Database → Database
  versioned db = record db { version = schema_version }

  abbrev with_authority : Database → Database
  with_authority db = record db { supervision_authority = created_table db.supervision_authority }

  abbrev with_state : Database → Database
  with_state db = record db { runtime_state = created_table db.runtime_state }

  finish_schema-Prepared : (db : Database) → Prepared db (finish_schema calls failure db)
  unfolding finish_schema
  finish_schema-Prepared db =
      either_way (Prepared db) (int_eq db.version schema_version) (validate_schema db, db)
        (if calls.sets_version
          then (validate_schema (versioned db), versioned db)
          else (err failure, db))
        (record { rows = refl; authorities = refl; whole = λ h. h })
        (either_way (Prepared db) calls.sets_version (validate_schema (versioned db), versioned db)
          (err failure, db) (record { rows = refl; authorities = refl; whole = λ h. h })
          (failed_step db failure))

  initialize_authority-Prepared :
      (db : Database) → Prepared db (initialize_authority calls failure db)
  unfolding initialize_authority
  initialize_authority-Prepared db =
      let p = finish_schema-Prepared (with_authority db) in
      either_way (Prepared db) (int_leb db.version (pos 1))
        (if calls.creates_authority
          then finish_schema calls failure (with_authority db)
          else (err failure, db))
        (finish_schema calls failure db)
        (either_way (Prepared db) calls.creates_authority
          (finish_schema calls failure (with_authority db)) (err failure, db)
          (record {
            rows = p.rows;
            authorities = p.authorities ∙ authority_created db.supervision_authority db;
            whole = p.whole;
          })
          (failed_step db failure))
        (finish_schema-Prepared db)

  initialize_schema-Prepared : (db : Database) → Prepared db (initialize_schema calls failure db)
  unfolding initialize_schema
  initialize_schema-Prepared db =
      let p = initialize_authority-Prepared (with_state db) in
      let rest =
        if int_eq db.version (pos 0)
        then (if calls.creates_state
            then initialize_authority calls failure (with_state db)
            else (err failure, db))
        else initialize_authority calls failure db in
      either_way (Prepared db) (not (int_leb db.version schema_version))
        (err unsupported_version, db) rest (failed_step db unsupported_version)
        (either_way (Prepared db) (int_eq db.version (pos 0))
          (if calls.creates_state
            then initialize_authority calls failure (with_state db)
            else (err failure, db))
          (initialize_authority calls failure db)
          (either_way (Prepared db) calls.creates_state
            (initialize_authority calls failure (with_state db)) (err failure, db)
            (record {
              rows = p.rows ∙ row_created db.runtime_state db;
              authorities = p.authorities;
              whole = p.whole;
            })
            (failed_step db failure))
          (initialize_authority-Prepared db))

-- Where `probe` returns, the file is a database with the whole schema, which holds the state and the
-- authority that the file held before, whatever its version was.
pub probe-ready :
    (calls : Calls) (file after : File)
    → probe calls file ≡ (ok tt, after)
    → after ≡ some (ready (state_row (opened file)) (authority_row (opened file)))
unfolding probe
probe-ready calls file after h = elim (Bool-cases calls.connects) [
  | inr c ↦ refused (ap (λ q. q.0) (rw (c, probe) at h))
  | inl c ↦ initialized (rw (c, probe) at h)
]
  where
    initialized :
        ◌≡◌ {A = Result StoreError (Unit {0}) × File}
          (
            (initialize_schema calls cannot_initialize (opened file)).0
                >> require calls.commits cannot_initialize,
            some (initialize_schema calls cannot_initialize (opened file)).1,
          )
          (ok tt, after)
        → after ≡ some (ready (state_row (opened file)) (authority_row (opened file)))
    initialized k =
        let p = initialize_schema-Prepared calls cannot_initialize (opened file) in
        let (row, a, e) = validate_schema-ready _ (
          p.whole
            (seq_inversion (initialize_schema calls cannot_initialize (opened file)).0 _
              (ap (λ q. q.0) k)).0) in
        sym (ap (λ q. q.1) k) ∙ ap some (e ∙ ready_of _ row a e p.rows p.authorities)
      where
        ready_of :
            (db : Database) (row : Option (Cell × Cell)) (a : Option AuthorityRow)
            → db ≡ ready row a
            → state_row db ≡ state_row (opened file)
            → authority_row db ≡ authority_row (opened file)
            → ready row a ≡ ready (state_row (opened file)) (authority_row (opened file))
        ready_of db row a e s t =
            λ i. ready ((sym (ap state_row e) ∙ s) i) ((sym (ap authority_row e) ∙ t) i)
