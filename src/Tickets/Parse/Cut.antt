-- ===== src/Tickets/Parse/Cut.antt =====
-- How `_split_ticket` of src/devlegate/tickets.py cuts the text of a ticket.
use mathlib.Core.List.{append_assoc}
use devlegate.Prelude.{
  ℕ, ◌≡◌, ap, true, false, not, Option-cases, some, inl, inr, List, [], ◌∷◌, ◌++◌, arith,
  Bool-cases, if◌then◌else◌, ok, err, expect-eq-ok, require-eq-ok, ok-injective,
}
use devlegate.Tickets.Errors.{empty_body, missing_closing, missing_opening}
use devlegate.Tickets.Text.{splitlines, join, join-splitlines, is_delimiter, is_blank}
use devlegate.Tickets.Parse.{split_at_delimiter, split_metadata, split_ticket}

-- Splitting at the first delimiter takes the lines apart and changes none.
split_at_delimiter-join :
    (ls before after : List (List ℕ)) (d : List ℕ)
    → split_at_delimiter ls ≡ some (before, d, after)
    → (join ls ≡ join before ++ (d ++ join after)) × (is_delimiter d ≡ true)
split_at_delimiter-join [] before after d h = unfold split_at_delimiter in cc
split_at_delimiter-join (l ∷ ls) before after d h = elim (Bool-cases (is_delimiter l)) [
  | inl e ↦ unfold split_at_delimiter join in ground (arith, e)
  | inr e ↦ elim (Option-cases (split_at_delimiter ls)) [
    | inl absent ↦ unfold split_at_delimiter in ground (arith, e, absent)
    | inr ((b, k, a), there) ↦
        split_later l ls b a k before after d e there h (split_at_delimiter-join ls b a k there)
  ]
]
  where
    split_later :
        (l : List ℕ) (ls b a : List (List ℕ)) (k : List ℕ) (before after : List (List ℕ))
        (d : List ℕ)
        → is_delimiter l ≡ false
        → split_at_delimiter ls ≡ some (b, k, a)
        → split_at_delimiter (l ∷ ls) ≡ some (before, d, after)
        → (join ls ≡ join b ++ (k ++ join a)) × (is_delimiter k ≡ true)
        → (join (l ∷ ls) ≡ join before ++ (d ++ join after)) × (is_delimiter d ≡ true)
    split_later l ls b a k before after d e there h ih =
        unfold split_at_delimiter join in
        ground (arith, e, there, h, ih, append_assoc l (join b) (k ++ join a))

-- How `_split_ticket` cuts a text: a delimiter, the metadata, a delimiter and a body that is not blank.
pub record IsCut (text metadata body : List ℕ) : Type 0 where
  pub opening : List ℕ
  pub closing : List ℕ
  pub whole : text ≡ opening ++ (metadata ++ (closing ++ body))
  pub opens : is_delimiter opening ≡ true
  pub closes : is_delimiter closing ≡ true
  pub filled : is_blank body ≡ false

split_metadata-IsCut :
    (l : List ℕ) (ls : List (List ℕ)) (metadata body : List ℕ)
    → is_delimiter l ≡ true
    → split_metadata ls ≡ ok (metadata, body)
    → IsCut (join (l ∷ ls)) metadata body
unfolding split_metadata
split_metadata-IsCut l ls metadata body opens h =
    let ((before, d, after), found, h₁) =
      expect-eq-ok (split_at_delimiter ls) missing_closing _ h in
    let (filled, h₂) = require-eq-ok (not (is_blank (join after))) empty_body _ h₁ in
    let (whole, closes) = split_at_delimiter-join ls before after d found in
    let parts = ok-injective h₂ in
    let first : join before ≡ metadata = ap (λ p. p.0) parts in
    let second : join after ≡ body = ap (λ p. p.1) parts in
    record {
      opening = l;
      closing = d;
      whole = rw (← first, ← second) (ap (λ r. l ++ r) whole);
      opens = opens;
      closes = closes;
      filled = rw (← second) (ground (arith, filled));
    }

-- An accepted text is its two delimiter lines, the metadata and the body, in that order and with
-- nothing lost, and the body is not blank.
pub split_ticket-IsCut :
    (text metadata body : List ℕ)
    → split_ticket text ≡ ok (metadata, body)
    → IsCut text metadata body
split_ticket-IsCut text metadata body h =
    rw (← join-splitlines text) (cut (splitlines text) (unfold split_ticket in h))
  where
    cut :
        (ls : List (List ℕ))
        → (elim ls [
          | [] ↦ err missing_opening
          | l ∷ r ↦ if is_delimiter l then split_metadata r else err missing_opening
        ])
          ≡ ok (metadata, body)
        → IsCut (join ls) metadata body
    cut [] e = cc
    cut (l ∷ ls) e = elim (Bool-cases (is_delimiter l)) [
      | inl opens ↦ split_metadata-IsCut l ls metadata body opens (rw opens at e)
      | inr no_delimiter ↦ absurd (ground (arith, no_delimiter))
    ]
