-- ===== src/Engine/Save/Refines.antt =====
-- The engine and its store implement a register of valid states with a revision.
use devlegate.Prelude.{
  ℕ, suc, ◌≡◌, ◌⊎◌, inl, inr, refl, sym, ap, ◌∙◌, String, true, Option, some, List, [], ◌∷◌,
  Result-cases, ok, err,
}
use devlegate.Values.{Fields}
use devlegate.Values.Int.{pos}
use devlegate.Ipc.Json.{Json, IsJson, sorted_fields}
use devlegate.Store.Runtime.{load, replace}
use devlegate.Store.Runtime.Laws.{ready, Counts, replace-cases, read-Committed}
use devlegate.Engine.Validate.{validate_state}
use devlegate.Engine.Save.{
  stored, Save, next_state, Kept, SaveError, invalid, unstored, store_state, save_state, run_saves,
}
use devlegate.Store.Database.{StoreError, Cell, text, integer, AuthorityRow, Calls, File}

-- What the engine promises to keep: a state, and how often it was replaced.
pub record Register : Type 0 where
  pub state : Fields
  pub revision : ℕ

abbrev pub write : Fields → Register → Register
write state r = record { state = state; revision = suc r.revision }

module _ (signal_name : ℕ → Option String) (sha256 : String → String) (json : Json)
    ⦃law : IsJson json⦄ (a : Option AuthorityRow) where
  -- The memory has the state of the register; the file has its revision, and once there is one, it loads
  -- as that state.
  pub record Represents (k : Kept) (r : Register) : Type 0 where
    pub in_memory : k.state ≡ r.state
    pub row : Option (Cell × Cell)
    pub in_file : k.file ≡ some (ready row a)
    pub counts : Counts row r.revision
    pub loads : (n : ℕ) → r.revision ≡ suc n → load json true k.file ≡ ok (sorted_fields r.state)

  -- The registers that writes of valid states lead to.
  pub data Writes (r : Register) : Register → Type 0 where
    unchanged : Writes r r
    written :
        {s : Register} (q : Save)
        → Writes r s
        → validate_state signal_name sha256 (next_state q s.state) ≡ ok tt
        → Writes r (write (next_state q s.state) s)

  store_state-Represents :
      (calls : Calls) (state : Fields) (k : Kept) (r : Register)
      → Represents k r
      → ((e : StoreError) × (store_state json calls state k ≡ (err (unstored e), k)))
        ⊎ ((k' : Kept) × (store_state json calls state k ≡ (ok tt, k'))
            × Represents k' (write state r))
  unfolding store_state
  store_state-Represents calls state k r h =
      elim (replace-cases json calls state h.row a r.revision h.counts) [
        | inl (e, failed) ↦ inl (
          e,
          ap (stored state k) (ap (replace json calls state) h.in_file ∙ failed)
              ∙ ap (λ (f : File). (err (unstored e), record k { file = f })) (sym h.in_file),
        )
        | inr (payload, dumped, done) ↦ inr (
          record {
            state = state;
            file = some (ready (some (text payload, integer (pos (suc r.revision)))) a);
          },
          ap (stored state k) (ap (replace json calls state) h.in_file ∙ done),
          record {
            in_memory = refl;
            row = some (text payload, integer (pos (suc r.revision)));
            in_file = refl;
            counts = inr (text payload, refl);
            loads = λ n same. (read-Committed json state payload r.revision a dumped).0;
          },
        )
      ]

  -- A save is a write of the register, or it raises and the register is as it was: `save_state` puts a state
  -- into memory and into the file exactly where it is valid and the file is committed.
  save_state-Refines :
      (calls : Calls) (q : Save) (k : Kept) (r : Register)
      → Represents k r
      → ((e : SaveError) × (save_state signal_name sha256 json calls q k ≡ (err e, k)))
        ⊎ ((k' : Kept) × (save_state signal_name sha256 json calls q k ≡ (ok tt, k'))
            × (validate_state signal_name sha256 (next_state q r.state) ≡ ok tt)
            × Represents k' (write (next_state q r.state) r))
  unfolding save_state
  save_state-Refines calls q k r h =
      let same = ap (next_state q) h.in_memory in
      elim (Result-cases (validate_state signal_name sha256 (next_state q k.state))) [
        | inl (e, bad) ↦ inl (invalid e, rw (save_state, bad) refl)
        | inr (u, good) ↦ elim (store_state-Represents calls (next_state q k.state) k r h) [
          | inl (e, failed) ↦ inl (unstored e, rw (save_state, good) failed)
          | inr (k', done, rep) ↦
              inr (k', rw (save_state, good) done, rw same at good, rw same at rep)
        ]
      ]

  run_from :
      (saves : List (Calls × Save)) (k : Kept) (r s : Register)
      → Writes r s
      → Represents k s
      → (s' : Register) × Writes r s' × Represents (run_saves signal_name sha256 json saves k) s'
  unfolding run_saves
  run_from [] k r s w h = (s, w, h)
  run_from ((calls, q) ∷ rest) k r s w h = elim (save_state-Refines calls q k s h) [
    | inl (e, failed) ↦ rw failed (run_from rest k r s w h)
    | inr (k', done, good, rep) ↦
        rw done (run_from rest k' r (write (next_state q s.state) s) (written q w good) rep)
  ]

  -- Whatever saves run, one after another, and whichever calls of SQLite raise: memory and file stay those
  -- of one register, to which writes of valid states have led. So, once anything was saved, the file loads
  -- as the state in memory, with its keys in order.
  pub run_saves-Refines :
      (saves : List (Calls × Save)) (k : Kept) (r : Register)
      → Represents k r
      → (s : Register) × Writes r s × Represents (run_saves signal_name sha256 json saves k) s
  run_saves-Refines saves k r h = run_from saves k r r unchanged h
