-- ===== src/Tickets/Text.antt =====
-- The text functions of src/devlegate/tickets.py: names, and the split of a file into lines.
use devlegate.Prelude.{
  ℕ, ◌≡◌, refl, String, Bool, true, false, not, ◌&&◌, ◌||◌, Option, none, some, List, [], ◌∷◌, ◌++◌,
  arith, codes, str_eq, leb, ◌==◌, if◌then◌else◌,
}

is_letter : ℕ → Bool
is_letter c = (leb b'A' c && leb c b'Z') || (leb b'a' c && leb c b'z')

is_digit : ℕ → Bool
is_digit c = leb b'0' c && leb c b'9'

is_id_tail : List ℕ → Bool
unfolding is_letter is_digit
is_id_tail [] = true
is_id_tail (c ∷ cs) = (is_letter c || is_digit c || c == b'_' || c == b'-') && is_id_tail cs

-- `_ID`: `[A-Za-z0-9][A-Za-z0-9_-]*\Z`, as `fullmatch` reads it.
unfoldable pub is_id_codes : List ℕ → Bool
unfolding is_id_tail
is_id_codes [] = false
is_id_codes (c ∷ cs) = (is_letter c || is_digit c) && is_id_tail cs

unfoldable pub is_id : String → Bool
unfolding is_id_codes
is_id s = is_id_codes (codes s)

-- `name[:-3]` where `name.endswith(".md")`, and `none` elsewhere.
unfoldable pub without_md : String → Option String
without_md String.[] = none
without_md (String.◌∷◌ c s) =
    let rest = without_md s in
    if str_eq (String.◌∷◌ c s) ".md"
    then some ""
    else elim rest [ none ↦ none | some r ↦ some (String.◌∷◌ c r) ]

-- `is_canonical_ticket_name`, with the stem of the name: an ID has no dot, so `path.stem` of such a
-- name is `name[:-3]`.
unfoldable pub canonical_stem : String → Option String
unfolding without_md is_id
canonical_stem name = elim (without_md name) [
  | none ↦ none
  | some stem ↦ if is_id stem then some stem else none
]

-- Where `str.splitlines` ends a line, but for the first half of "\r\n".
is_line_break : ℕ → Bool
is_line_break c =
    (leb 10 c && leb c 13) || (leb 28 c && leb c 30) || c == 133 || c == 8232 || c == 8233

starts_with_lf : List ℕ → Bool
starts_with_lf [] = false
starts_with_lf (c ∷ cs) = c == 10

-- Puts a character in front of the first line.
unfoldable pub onto_first : ℕ → List (List ℕ) → List (List ℕ)
onto_first c [] = (c ∷ []) ∷ []
onto_first c (l ∷ ls) = (c ∷ l) ∷ ls

-- `text.splitlines(keepends=True)`
unfoldable pub splitlines : List ℕ → List (List ℕ)
unfolding is_line_break starts_with_lf onto_first
splitlines [] = []
splitlines (c ∷ cs) =
    let ls = splitlines cs in
    if is_line_break c && not (c == 13 && starts_with_lf cs) then (c ∷ []) ∷ ls else onto_first c ls

-- `"".join(lines)`
unfoldable pub join : List (List ℕ) → List ℕ
join [] = []
join (l ∷ ls) = l ++ join ls

only_ends : List ℕ → Bool
only_ends [] = true
only_ends (x ∷ xs) = (x == 13 || x == 10) && only_ends xs

-- `line.rstrip("\r\n") == "---"`: three dashes, and then nothing but what `rstrip` takes off.
unfoldable pub is_delimiter : List ℕ → Bool
unfolding only_ends
is_delimiter [] = false
is_delimiter (a ∷ b ∷ c ∷ rest) = a == b'-' && b == b'-' && c == b'-' && only_ends rest
is_delimiter _ = false

-- The characters that `str.strip` takes off.
is_space : ℕ → Bool
is_space c =
    (leb 9 c && leb c 13)
    || (leb 28 c && leb c 32)
    || c == 133
    || c == 160
    || c == 5760
    || (leb 8192 c && leb c 8202)
    || c == 8232
    || c == 8233
    || c == 8239
    || c == 8287
    || c == 12288

-- `not text.strip()`
unfoldable pub is_blank : List ℕ → Bool
unfolding is_space
is_blank [] = true
is_blank (c ∷ cs) = is_space c && is_blank cs

unfoldable pub lstrip : List ℕ → List ℕ
unfolding is_space
lstrip [] = []
lstrip (c ∷ cs) = if is_space c then lstrip cs else c ∷ cs

unfoldable pub rstrip : List ℕ → List ℕ
unfolding is_blank
rstrip [] = []
rstrip (c ∷ cs) = if is_blank (c ∷ cs) then [] else c ∷ rstrip cs

unfoldable pub strip : List ℕ → List ℕ
unfolding lstrip rstrip
strip cs = rstrip (lstrip cs)

-- A control character: below the space, or from DEL to the end of the second control block.
is_control : ℕ → Bool
is_control c = leb c 31 || (leb 127 c && leb c 159)

unfoldable pub has_control : List ℕ → Bool
unfolding is_control
has_control [] = false
has_control (c ∷ cs) = is_control c || has_control cs

join-onto_first : (c : ℕ) (ls : List (List ℕ)) → join (onto_first c ls) ≡ c ∷ join ls
unfolding join onto_first
join-onto_first c [] = refl
join-onto_first c (l ∷ ls) = refl

join-cons : (c : ℕ) (ls : List (List ℕ)) → join ((c ∷ []) ∷ ls) ≡ c ∷ join ls
unfolding join
join-cons c ls = refl

-- Splitting into lines loses nothing.
pub join-splitlines : (cs : List ℕ) → join (splitlines cs) ≡ cs
unfolding splitlines
join-splitlines [] = unfold join in refl
join-splitlines (c ∷ cs) =
    ground
      (arith, join-cons c (splitlines cs), join-splitlines cs, join-onto_first c (splitlines cs))
