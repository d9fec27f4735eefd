-- ===== src/Tickets/Parse/Laws.antt =====
-- What a ticket that `_parse_ticket` accepts looks like.
use devlegate.Prelude.{
  ℕ, ◌≤◌, ◌≡◌, refl, ◌∙◌, String, true, false, not, ◌&&◌, Option, none, some, inl, inr, List, [],
  ◌∷◌, arith, codes, str_eq, eq_iff, leb, length, contains, contains-cons_cases, nodup, ok,
  bind_inversion, expect-eq-ok, require-eq-ok, ok-injective,
}
use devlegate.Values.{Value, Fields, get, as_text, as_texts}
use devlegate.Tickets.Defs.{State, Ticket}
use devlegate.Tickets.Errors.{
  bad_title, unreadable_title, empty_dependencies, non_text_dependency, duplicate_dependencies,
  bad_filename, invalid_metadata, missing_key, bad_type,
}
use devlegate.Tickets.Text.{canonical_stem, is_id, is_blank, strip, lstrip, rstrip, has_control}
use devlegate.Tickets.Parse.{
  split_ticket, check_keys, check_title, check_ids, check_dependencies, parse_ticket,
}
use devlegate.Tickets.Parse.Cut.{split_ticket-IsCut}

module _ where
  length-lstrip : (cs : List ℕ) → length (lstrip cs) ≤ length cs
  unfolding lstrip
  length-lstrip [] = omega arith
  length-lstrip (c ∷ cs) = ground (arith, length-lstrip cs)

  length-rstrip : (cs : List ℕ) → length (rstrip cs) ≤ length cs
  unfolding rstrip
  length-rstrip [] = omega arith
  length-rstrip (c ∷ cs) = ground (arith, length-rstrip cs)

  is_blank-lstrip : (cs : List ℕ) → is_blank (lstrip cs) ≡ is_blank cs
  unfolding lstrip is_blank
  is_blank-lstrip [] = refl
  is_blank-lstrip (c ∷ cs) = ground (arith, is_blank-lstrip cs)

  is_blank-rstrip : (cs : List ℕ) → is_blank (rstrip cs) ≡ is_blank cs
  unfolding rstrip is_blank
  is_blank-rstrip [] = refl
  is_blank-rstrip (c ∷ cs) = ground (arith, is_blank-rstrip cs)

  has_control-lstrip : (cs : List ℕ) → has_control cs ≡ false → has_control (lstrip cs) ≡ false
  unfolding lstrip has_control
  has_control-lstrip [] h = refl
  has_control-lstrip (c ∷ cs) h = ground (arith, has_control-lstrip cs)

  has_control-rstrip : (cs : List ℕ) → has_control cs ≡ false → has_control (rstrip cs) ≡ false
  unfolding rstrip has_control
  has_control-rstrip [] h = refl
  has_control-rstrip (c ∷ cs) h = ground (arith, has_control-rstrip cs)

-- One readable line: some character that is no space, no control character, 160 at most.
pub record IsTitle (cs : List ℕ) : Type 0 where
  pub short : length cs ≤ 160
  pub filled : is_blank cs ≡ false
  pub readable : has_control cs ≡ false

strip-IsTitle : (cs : List ℕ) → IsTitle cs → IsTitle (strip cs)
unfolding strip
strip-IsTitle cs t = record {
  short = omega (arith, length-rstrip (lstrip cs), length-lstrip cs, t.short);
  filled = is_blank-rstrip (lstrip cs) ∙ is_blank-lstrip cs ∙ t.filled;
  readable = has_control-rstrip (lstrip cs) (has_control-lstrip cs t.readable);
}

check_title-IsTitle : (v : Value) (title : List ℕ) → check_title v ≡ ok title → IsTitle title
unfolding check_title
check_title-IsTitle v title h =
    let (text, _, h₁) = expect-eq-ok (as_text v) bad_title _ h in
    let (filled, h₂) = require-eq-ok (not (is_blank (codes text))) bad_title _ h₁ in
    let (fits, h₃) =
      require-eq-ok (leb (length (codes text)) 160 && not (has_control (codes text)))
        unreadable_title (ok (strip (codes text))) h₂ in
    rw (← ok-injective h₃) (
      strip-IsTitle (codes text)
        (record { short = ground arith; filled = ground arith; readable = ground arith }))

-- The dependencies of a ticket are IDs, none twice, and never the ticket itself.
pub record AreDependencies (ticket_id : String) (ds : List String) : Type 0 where
  pub distinct : nodup ds ≡ true
  pub are_ids : (d : String) → contains d ds ≡ true → is_id d ≡ true
  pub no_self : contains ticket_id ds ≡ false

not-contains_cons :
    (k d : String) (ds : List String)
    → not (str_eq d k) ≡ true
    → contains k ds ≡ false
    → contains k (d ∷ ds) ≡ false
unfolding contains
not-contains_cons k d ds h absent = ground (arith, eq_iff k d, eq_iff d k)

check_ids-are_ids :
    (ticket_id : String) (ds : List String)
    → check_ids ticket_id ds ≡ ok tt
    → ((d : String) → contains d ds ≡ true → is_id d ≡ true) × (contains ticket_id ds ≡ false)
unfolding check_ids
check_ids-are_ids ticket_id [] h = (λ d m. unfold contains in cc, unfold contains in refl)
check_ids-are_ids ticket_id (d ∷ ds) h =
    let (good, h₁) = require-eq-ok (is_id d) _ _ h in
    let (other, h₂) = require-eq-ok (not (str_eq d ticket_id)) _ (check_ids ticket_id ds) h₁ in
    let (all, absent) = check_ids-are_ids ticket_id ds h₂ in
    (
      λ k m. elim (contains-cons_cases k d ds m) [ inl e ↦ rw e good | inr m' ↦ all k m' ],
      not-contains_cons ticket_id d ds other absent,
    )

check_dependencies-AreDependencies :
    (ticket_id : String) (v : Option Value) (ds : List String)
    → check_dependencies ticket_id v ≡ ok ds
    → AreDependencies ticket_id ds
unfolding check_dependencies
check_dependencies-AreDependencies ticket_id none ds h =
    rw (← ok-injective h)
      (record { distinct = refl; are_ids = λ d m. unfold contains in cc; no_self = refl })
check_dependencies-AreDependencies ticket_id (some v) ds h =
    let (_, h₁) = require-eq-ok _ empty_dependencies _ h in
    let (read, _, h₂) = expect-eq-ok (as_texts v) non_text_dependency _ h₁ in
    let (distinct, h₃) = require-eq-ok (nodup read) duplicate_dependencies _ h₂ in
    let (u, checked, h₄) = bind_inversion (check_ids ticket_id read) (λ _. ok read) h₃ in
    let (all, absent) = check_ids-are_ids ticket_id read checked in
    rw (← ok-injective h₄) (record { distinct = distinct; are_ids = all; no_self = absent })

-- What a parsed ticket is made of.
pub record IsValid (name : String) (state : State) (t : Ticket) : Type 0 where
  pub named : canonical_stem name ≡ some t.id
  pub placed : t.state ≡ state
  pub from_file : t.path ≡ name
  pub titled : IsTitle t.title
  pub filled : is_blank t.body ≡ false
  pub dependencies : AreDependencies t.id t.depends_on

-- Whatever NanoYAML returns, a ticket that is accepted has the ID of its file name, the state of its
-- directory, a readable title, a body, and dependencies that are distinct IDs other than its own.
pub parse_ticket-IsValid :
    (yaml : List ℕ → Option Fields) (name : String) (text : List ℕ) (state : State) (t : Ticket)
    → parse_ticket yaml name text state ≡ ok t
    → IsValid name state t
unfolding parse_ticket
parse_ticket-IsValid yaml name text state t h =
    let (stem, named, h₁) = expect-eq-ok (canonical_stem name) bad_filename _ h in
    let ((metadata_text, body), split, h₂) = bind_inversion (split_ticket text) _ h₁ in
    let (fields, _, h₃) = expect-eq-ok (yaml metadata_text) invalid_metadata _ h₂ in
    let (_, _, h₄) = bind_inversion (check_keys fields) _ h₃ in
    let (type_value, _, h₅) = expect-eq-ok (get "type" fields) (missing_key "type") _ h₄ in
    let (title_value, _, h₆) = expect-eq-ok (get "title" fields) (missing_key "title") _ h₅ in
    let (type_text, _, h₇) = expect-eq-ok (as_text type_value) bad_type _ h₆ in
    let (_, h₈) = require-eq-ok (str_eq type_text "devlegate.ticket") bad_type _ h₇ in
    let (title, titled, h₉) = bind_inversion (check_title title_value) _ h₈ in
    let (ds, dependencies, last) =
      bind_inversion (check_dependencies stem (get "depends_on" fields)) _ h₉ in
    rw (← ok-injective last) (record {
      named = named;
      placed = refl;
      from_file = refl;
      titled = check_title-IsTitle title_value title titled;
      filled = (split_ticket-IsCut text metadata_text body split).filled;
      dependencies =
          check_dependencies-AreDependencies stem (get "depends_on" fields) ds dependencies;
    })
