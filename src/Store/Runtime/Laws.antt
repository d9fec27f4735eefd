-- ===== src/Store/Runtime/Laws.antt =====
-- A replaced state is committed whole or not at all, and read back.
use mathlib.Core.Path.{subst}
use devlegate.Prelude.{
  ℕ, suc, ◌≡◌, ◌⊎◌, inl, inr, refl, ap, ◌∙◌, sym, some_injective, true, Bool-cases, Option,
  Option-cases, none, some, List, ok, err,
}
use devlegate.Values.{Fields, obj, as_dict}
use devlegate.Values.Int.{pos}
use devlegate.Ipc.Json.{Json, IsJson, sorted_fields, sorted_value}
use devlegate.Store.Runtime.{
  authority_row, read_row, read_state, load, observe, next_revision, insert_state, update_state,
  write_state, run_write, replace_payload, replace,
}
use devlegate.Store.Transaction.{transact-cases}
use devlegate.Store.Database.{
  StoreError, cannot_write, not_serializable, Cell, text, integer, AuthorityRow, Database, Calls,
  validate_schema,
}

-- A database with the whole schema, by the rows of its tables.
abbrev pub ready : Option (Cell × Cell) → Option AuthorityRow → Database
ready row authority = record {
  version = pos 2;
  runtime_state = some row;
  supervision_authority = some authority;
}

-- The row has the revision `n`, or there is no row yet and `n` is 0.
abbrev pub Counts : Option (Cell × Cell) → ℕ → Type 0
Counts row n = ((row ≡ none) × (n ≡ 0)) ⊎ ((p : Cell) × (row ≡ some (p, integer (pos n))))

-- Against a whole schema, a write is in the file, or the file is as it was.
pub run_write-cases :
    (calls : Calls) (failure : StoreError) (statement : Database → Option Database)
    (row : Option (Cell × Cell)) (a : Option AuthorityRow)
    → (run_write calls failure statement (some (ready row a)) ≡ (err failure, some (ready row a)))
      ⊎ ((new : Database) × (statement (ready row a) ≡ some new)
          × (run_write calls failure statement (some (ready row a)) ≡ (ok tt, some new)))
unfolding run_write
run_write-cases calls failure statement row a = elim (Bool-cases calls.connects) [
  | inr c ↦ inl (rw (run_write, c) refl)
  | inl c ↦ elim (transact-cases calls failure statement (ready row a)) [
    | inl failed ↦ inl (rw (run_write, c) (ap (λ q. (q.0, some q.1)) failed))
    | inr (new, wrote, done) ↦ inr (new, wrote, rw (run_write, c) (ap (λ q. (q.0, some q.1)) done))
  ]
]

-- The statements of `replace` against a row that counts.
write_state-Counts :
    (payload : List ℕ) (row : Option (Cell × Cell)) (a : Option AuthorityRow) (n : ℕ)
    → Counts row n
    → write_state payload (ready row a)
      ≡ some (ready (some (text payload, integer (pos (suc n)))) a)
unfolding write_state next_revision insert_state update_state
write_state-Counts payload row a n (inl (e, z)) = rw z (
    subst
      (λ r. write_state payload (ready r a) ≡ some (ready (some (text payload, integer (pos 1))) a))
      (sym e) refl)
write_state-Counts payload row a n (inr (p, e)) =
    subst
      (λ r.
        write_state payload (ready r a)
        ≡ some (ready (some (text payload, integer (pos (suc n)))) a))
      (sym e) refl

module _ (json : Json) ⦃law : IsJson json⦄ where
  -- What a committed state reads as.
  abbrev pub Committed : Fields → ℕ → Option AuthorityRow → Database → Type 0
  Committed state n a db =
      (load json true (some db) ≡ ok (sorted_fields state))
      × (observe json true (some db) ≡ ok (sorted_fields state, some n))
      × (authority_row db ≡ a)

  pub read-Committed :
      (state : Fields) (payload : List ℕ) (n : ℕ) (a : Option AuthorityRow)
      → json.dumps (obj state) ≡ some payload
      → Committed state (suc n) a (ready (some (text payload, integer (pos (suc n)))) a)
  unfolding load observe read_state read_row validate_schema as_dict sorted_value
  read-Committed state payload n a h =
      let loaded : json.loads payload ≡ some (obj (sorted_fields state)) =
        law.loads_dumps (obj state) payload h in
      (rw (loaded, read_row) refl, rw (loaded, read_row) refl, refl)

  -- The row that a `replace` that returns has written.
  pub replace-cases :
      (calls : Calls) (state : Fields) (row : Option (Cell × Cell)) (a : Option AuthorityRow)
      (n : ℕ)
      → Counts row n
      → ((e : StoreError) × (replace json calls state (some (ready row a))
            ≡ (err e, some (ready row a))))
        ⊎ ((payload : List ℕ) × (json.dumps (obj state) ≡ some payload)
            × (replace json calls state (some (ready row a))
                ≡ (ok tt, some (ready (some (text payload, integer (pos (suc n)))) a))))
  unfolding replace replace_payload
  replace-cases calls state row a n counts = elim (Option-cases (json.dumps (obj state))) [
    | inl e ↦ inl (not_serializable, rw (e, replace) refl)
    | inr (payload, e) ↦ elim (run_write-cases calls cannot_write (write_state payload) row a) [
      | inl failed ↦ inl (cannot_write, rw (e, replace, replace_payload) failed)
      | inr (new, wrote, done) ↦
          let same = some_injective (sym wrote ∙ write_state-Counts payload row a n counts) in
          inr
            (payload, e, rw (e, replace, replace_payload) (done ∙ ap (λ db. (ok tt, some db)) same))
    ]
  ]

  -- Against a database with the whole schema, whose row counts `n` revisions, `replace` either raises
  -- and leaves the file as it was, or returns, and then `load` returns the new state in the order of
  -- its keys, `observe` the revision after `n`, and the authority is as it was. Whichever calls of
  -- SQLite raise.
  pub replace-Committed :
      (calls : Calls) (state : Fields) (row : Option (Cell × Cell)) (a : Option AuthorityRow)
      (n : ℕ)
      → Counts row n
      → ((e : StoreError) × (replace json calls state (some (ready row a))
            ≡ (err e, some (ready row a))))
        ⊎ ((db : Database) × (replace json calls state (some (ready row a)) ≡ (ok tt, some db))
            × Committed state (suc n) a db)
  replace-Committed calls state row a n counts = elim (replace-cases calls state row a n counts) [
    | inl failed ↦ inl failed
    | inr (payload, e, done) ↦ inr (
      ready (some (text payload, integer (pos (suc n)))) a,
      done,
      read-Committed state payload n a e,
    )
  ]
