-- ===== src/Tickets/Load/Files.antt =====
-- The loaded tickets are those that the files of the workflow directories hold.
use mathlib.Core.Path.{subst}
use devlegate.Prelude.{
  ℕ, ◌≡◌, ◌⊎◌, refl, sym, ap, ◌∙◌, true, not, ◌&&◌, Option, inl, inr, List, [], ◌∷◌, ◌++◌, sort, In,
  In-sort, sort-In, String, some, ok, bind_inversion, ok-injective,
}
use devlegate.Values.{Fields}
use devlegate.Tickets.Defs.{State, Ticket, TicketStore, workflow_states, id_leb}
use devlegate.Tickets.Text.{canonical_stem}
use devlegate.Tickets.Parse.{parse_ticket}
use devlegate.Tickets.Parse.Laws.{IsValid, parse_ticket-IsValid}
use devlegate.Tickets.Load.{
  Entry, Directory, name_leb, build_store, load_entries, load_directory, load_states,
  load_ticket_store,
}
use devlegate.Tickets.Load.Laws.{IsStoreOf, Explains, build_store-Explains}
use devlegate.Tickets.Load.Entries.{Complete, load_entries-Sound, load_entries-Complete}

-- The ticket is what the text of a regular file in the directory of its state reads as.
pub record IsFrom (yaml : List ℕ → Option Fields) (at : State → Directory) (state : State)
    (t : Ticket) : Type 0 where
  pub entries : List Entry
  pub listed : at state ≡ Directory.listing entries
  pub entry : Entry
  pub there : In entry entries
  pub regular : (not entry.is_symlink && entry.is_file) ≡ true
  pub parsed : parse_ticket yaml entry.name entry.content state ≡ ok t
  pub valid : IsValid entry.name state t

In-append : {A : Type 0} (a : A) (xs ys : List A) → In a (xs ++ ys) → In a xs ⊎ In a ys
In-append a [] ys m = inr m
In-append a (x ∷ xs) ys (inl e) = inl (inl e)
In-append a (x ∷ xs) ys (inr m) = elim (In-append a xs ys m) [ inl b ↦ inl (inr b) | inr b ↦ inr b ]

In-left : {A : Type 0} (a : A) (xs ys : List A) → In a xs → In a (xs ++ ys)
In-left a [] ys m = absurd m
In-left a (x ∷ xs) ys (inl e) = inl e
In-left a (x ∷ xs) ys (inr m) = inr (In-left a xs ys m)

In-right : {A : Type 0} (a : A) (xs ys : List A) → In a ys → In a (xs ++ ys)
In-right a [] ys m = m
In-right a (x ∷ xs) ys m = inr (In-right a xs ys m)

module _ (yaml : List ℕ → Option Fields) where
  load_directory-IsFrom :
      (at : State → Directory) (state : State) (d : Directory) (ts : List Ticket)
      → at state ≡ d
      → load_directory yaml state d ≡ ok ts
      → (t : Ticket) → In t ts
      → IsFrom yaml at state t
  unfolding load_directory
  load_directory-IsFrom at state Directory.absent ts e h t m =
      absurd (subst (In t) (sym (ok-injective h)) m)
  load_directory-IsFrom at state Directory.other ts e h t m = cc
  load_directory-IsFrom at state (Directory.listing es) ts e h t m =
      let (f, there, regular, parsed) = load_entries-Sound yaml state (sort name_leb es) ts h t m in
      record {
        entries = es;
        listed = e;
        entry = f;
        there = In-sort name_leb f es there;
        regular = regular;
        parsed = parsed;
        valid = parse_ticket-IsValid yaml f.name f.content state t parsed;
      }

  load_states-IsFrom :
      (at : State → Directory) (ss : List State) (ts : List Ticket)
      → load_states yaml at ss ≡ ok ts
      → (t : Ticket) → In t ts
      → (state : State) × IsFrom yaml at state t
  unfolding load_states
  load_states-IsFrom at [] ts h t m = absurd (subst (In t) (sym (ok-injective h)) m)
  load_states-IsFrom at (s ∷ ss) ts h t m =
      let (us, first, h₁) = bind_inversion (load_directory yaml s (at s)) _ h in
      let (vs, rest, h₂) = bind_inversion (load_states yaml at ss) (λ l. ok (us ++ l)) h₁ in
      elim (In-append t us vs (subst (In t) (sym (ok-injective h₂)) m)) [
        | inl a ↦ (s, load_directory-IsFrom at s (at s) us refl first t a)
        | inr b ↦ load_states-IsFrom at ss vs rest t b
      ]

  load_states-Complete :
      (at : State → Directory) (ss : List State) (ts : List Ticket)
      → load_states yaml at ss ≡ ok ts
      → (state : State) (es : List Entry) → In state ss
      → at state ≡ Directory.listing es
      → Complete yaml state es ts
  unfolding load_states load_directory
  load_states-Complete at [] ts h state es m listed e there stem named = absurd m
  load_states-Complete at (s ∷ ss) ts h state es m listed e there stem named =
      let (us, first, h₁) = bind_inversion (load_directory yaml s (at s)) _ h in
      let (vs, rest, h₂) = bind_inversion (load_states yaml at ss) (λ l. ok (us ++ l)) h₁ in
      let all : us ++ vs ≡ ts = ok-injective h₂ in
      elim m [
        | inl same ↦
            let read : load_entries yaml state (sort name_leb es) ≡ ok us =
              ap (load_directory yaml state) (sym listed)
              ∙ ap (λ q. load_directory yaml q (at q)) same
              ∙ first in
            let (t, in_us, parsed) =
              load_entries-Complete yaml state (sort name_leb es) us read e
                (sort-In name_leb e es there) stem named in
            (t, subst (In t) all (In-left t us vs in_us), parsed)
        | inr m' ↦
            let (t, in_vs, parsed) =
              load_states-Complete at ss vs rest state es m' listed e there stem named in
            (t, subst (In t) all (In-right t us vs in_vs), parsed)
      ]

  -- Each ticket is what a file of the directory of its state reads as, and each file with the name of
  -- a ticket is read as one of the tickets.
  pub record IsLoaded (at : State → Directory) (store : TicketStore) : Type 0 where
    pub from : (t : Ticket) → In t store.tickets → IsFrom yaml at t.state t
    pub complete :
        (state : State) (es : List Entry)
        → In state workflow_states
        → at state ≡ Directory.listing es
        → (e : Entry) → In e es
        → (stem : String) → canonical_stem e.name ≡ some stem
        → (t : Ticket) × In t store.tickets × (parse_ticket yaml e.name e.content state ≡ ok t)

-- A loaded store holds exactly the tickets in the files: each ticket is what the text of a regular file
-- in the directory of its state reads as, and is valid there, and each file with the name of a ticket in
-- a directory of the workflow reads as a ticket of the store; their IDs, dependencies, order and
-- selection are those of `IsStoreOf`.
pub load_ticket_store-IsLoaded :
    (yaml : List ℕ → Option Fields) (at : State → Directory) (store : TicketStore)
    → load_ticket_store yaml at ≡ ok store
    → IsLoaded yaml at store
      × ((ts : List Ticket) × (load_states yaml at workflow_states ≡ ok ts) × IsStoreOf ts store)
unfolding load_ticket_store
load_ticket_store-IsLoaded yaml at store h =
    let (ts, read, made) = bind_inversion (load_states yaml at workflow_states) build_store h in
    let is_store : IsStoreOf ts store = subst (Explains ts) made (build_store-Explains ts) in
    (
      record {
        from = λ t m.
            let (s, from) =
              load_states-IsFrom yaml at workflow_states ts read t
                (In-sort id_leb t ts (subst (In t) is_store.tickets m)) in
            subst (λ q. IsFrom yaml at q t) (sym from.valid.placed) from;
        complete = λ state es m listed e there stem named.
            let (t, in_ts, parsed) =
              load_states-Complete yaml at workflow_states ts read state es m listed e there stem
                named in
            (t, subst (In t) (sym is_store.tickets) (sort-In id_leb t ts in_ts), parsed);
      },
      (ts, read, is_store),
    )
