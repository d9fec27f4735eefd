-- ===== src/Tickets/Load/Entries.antt =====
-- The entries of one directory that `load_ticket_store` of src/devlegate/tickets.py reads.
use mathlib.Core.Path.{subst}
use devlegate.Prelude.{
  ℕ, ◌≡◌, refl, sym, ap, ◌∙◌, none, true, not, ◌&&◌, Option, inl, inr, List, [], ◌∷◌, In, String,
  Option-cases, some, ok, bind_inversion, require-eq-ok, ok-injective,
}
use devlegate.Values.{Fields}
use devlegate.Tickets.Defs.{State, Ticket}
use devlegate.Tickets.Errors.{invalid_entry}
use devlegate.Tickets.Text.{canonical_stem}
use devlegate.Tickets.Parse.{parse_ticket}
use devlegate.Tickets.Load.{Entry, load_entries}

module _ (yaml : List ℕ → Option Fields) where
  abbrev Sound : State → List Entry → List Ticket → Type 0
  Sound state es ts =
      (t : Ticket)
      → In t ts
      → (e : Entry) × In e es
        × ((not e.is_symlink && e.is_file) ≡ true)
        × (parse_ticket yaml e.name e.content state ≡ ok t)

  -- Every entry with the name of a ticket is read.
  abbrev pub Complete : State → List Entry → List Ticket → Type 0
  Complete state es ts =
      (e : Entry)
      → In e es
      → (stem : String) → canonical_stem e.name ≡ some stem
      → (t : Ticket) × In t ts × (parse_ticket yaml e.name e.content state ≡ ok t)

  -- A first entry that is a ticket, and the rest.
  record Loaded (state : State) (e : Entry) (es : List Entry) (ts : List Ticket) : Type 0 where
    first : Ticket
    others : List Ticket
    regular : (not e.is_symlink && e.is_file) ≡ true
    parsed : parse_ticket yaml e.name e.content state ≡ ok first
    rest : load_entries yaml state es ≡ ok others
    all : first ∷ others ≡ ts

  load_entries-Loaded :
      (state : State) (e : Entry) (es : List Entry) (ts : List Ticket) (stem : String)
      → canonical_stem e.name ≡ some stem
      → load_entries yaml state (e ∷ es) ≡ ok ts
      → Loaded state e es ts
  unfolding load_entries
  load_entries-Loaded state e es ts stem named h =
      let (regular, h₁) =
        require-eq-ok (not e.is_symlink && e.is_file) invalid_entry _
          (rw (named, load_entries) at h) in
      let (u, parsed, h₂) = bind_inversion (parse_ticket yaml e.name e.content state) _ h₁ in
      let (us, rest, h₃) = bind_inversion (load_entries yaml state es) (λ l. ok (u ∷ l)) h₂ in
      record {
        first = u;
        others = us;
        regular = regular;
        parsed = parsed;
        rest = rest;
        all = ok-injective h₃;
      }

  load_entries-other :
      (state : State) (e : Entry) (es : List Entry)
      → canonical_stem e.name ≡ none
      → load_entries yaml state (e ∷ es) ≡ load_entries yaml state es
  unfolding load_entries
  load_entries-other state e es other = rw (other, load_entries) refl

  pub load_entries-Sound :
      (state : State) (es : List Entry) (ts : List Ticket)
      → load_entries yaml state es ≡ ok ts
      → Sound state es ts
  unfolding load_entries
  load_entries-Sound state [] ts h t m = absurd (subst (In t) (sym (ok-injective h)) m)
  load_entries-Sound state (e ∷ es) ts h t m = elim (Option-cases (canonical_stem e.name)) [
    | inl other ↦
        let (f, there, regular, parsed) =
          load_entries-Sound state es ts (sym (load_entries-other state e es other) ∙ h) t m in
        (f, inr there, regular, parsed)
    | inr (stem, named) ↦
        let l = load_entries-Loaded state e es ts stem named h in
        elim (subst (In t) (sym l.all) m) [
          | inl same ↦ (e, inl refl, l.regular, rw same l.parsed)
          | inr m' ↦
              let (f, there, regular, parsed) = load_entries-Sound state es l.others l.rest t m' in
              (f, inr there, regular, parsed)
        ]
  ]

  pub load_entries-Complete :
      (state : State) (es : List Entry) (ts : List Ticket)
      → load_entries yaml state es ≡ ok ts
      → Complete state es ts
  load_entries-Complete state [] ts h e m stem named = absurd m
  load_entries-Complete state (f ∷ es) ts h e (inl same) stem named =
      let l =
        load_entries-Loaded state f es ts stem (sym (ap (λ q. canonical_stem q.name) same) ∙ named)
          h in
      (
        l.first,
        subst (In l.first) l.all (inl refl),
        ap (λ q. parse_ticket yaml q.name q.content state) same ∙ l.parsed,
      )
  load_entries-Complete state (f ∷ es) ts h e (inr m) stem named =
      elim (Option-cases (canonical_stem f.name)) [
        | inl other ↦
            load_entries-Complete state es ts (sym (load_entries-other state f es other) ∙ h) e m
              stem named
        | inr (k, k_named) ↦
            let l = load_entries-Loaded state f es ts k k_named h in
            let (t, there, parsed) =
              load_entries-Complete state es l.others l.rest e m stem named in
            (t, subst (In t) l.all (inr there), parsed)
      ]
