-- ===== src/Tickets/Parse.antt =====
-- `_split_ticket` and `_parse_ticket` of src/devlegate/tickets.py.
-- NanoYAML is not part of the repository's own code: its `loads` is the parameter `yaml`, which
-- returns the fields of the metadata, or nothing where it raises.
pub mod Laws
pub mod Cut
use devlegate.Prelude.{
  ℕ, ◌≡◌, String, Bool, true, false, not, ◌&&◌, ◌||◌, Option, none, some, List, [], ◌∷◌, ◌++◌, map,
  codes, str_eq, str_leb, leb, length, contains, subset, nodup, sort, if◌then◌else◌, Result, ok,
  err, ◌>>=◌, ◌>>◌, require, expect,
}
use devlegate.Values.{Value, Fields, str, arr, no_items, item, get, keys, as_text, as_texts}
use devlegate.Tickets.Defs.{State, Ticket}
use devlegate.Tickets.Errors.{
  TicketError, missing_opening, missing_closing, empty_body, bad_filename, invalid_metadata,
  unknown_key, missing_key, bad_type, bad_title, unreadable_title, empty_dependencies,
  non_text_dependency, duplicate_dependencies, invalid_dependency, self_dependency,
}
use devlegate.Tickets.Text.{
  canonical_stem, is_id, splitlines, join, is_delimiter, is_blank, strip, has_control,
}

-- The lines in front of the first delimiter, the delimiter and the lines behind it.
unfoldable pub split_at_delimiter : List (List ℕ) → Option (List (List ℕ) × List ℕ × List (List ℕ))
unfolding is_delimiter
split_at_delimiter [] = none
split_at_delimiter (l ∷ ls) =
    let rest = split_at_delimiter ls in
    if is_delimiter l
    then some ([], l, ls)
    else elim rest [ none ↦ none | some (before, d, after) ↦ some (l ∷ before, d, after) ]

-- The part of `_split_ticket` behind the opening delimiter.
unfoldable pub split_metadata : List (List ℕ) → Result TicketError (List ℕ × List ℕ)
unfolding split_at_delimiter join is_blank
split_metadata lines = do
  (before, _, after) ← expect (split_at_delimiter lines) missing_closing
  require (not (is_blank (join after))) empty_body
  ok (join before, join after)

-- `_split_ticket`: the metadata and the body of a text.
unfoldable pub split_ticket : List ℕ → Result TicketError (List ℕ × List ℕ)
unfolding splitlines split_metadata
split_ticket text = elim (splitlines text) [
  | [] ↦ err missing_opening
  | l ∷ ls ↦ if is_delimiter l then split_metadata ls else err missing_opening
]

abbrev pub metadata_keys : List String
metadata_keys = "type" ∷ "title" ∷ "depends_on" ∷ []

-- `sorted(set(metadata) - _METADATA_KEYS)`
unfoldable pub unknown_keys : List String → List String
unfolding contains
unknown_keys [] = []
unknown_keys (k ∷ ks) = if contains k metadata_keys then unknown_keys ks else k ∷ unknown_keys ks

unfoldable pub check_keys : Fields → Result TicketError (Unit {0})
unfolding unknown_keys keys sort
check_keys fields = elim (sort str_leb (unknown_keys (keys fields))) [
  | [] ↦ ok tt
  | k ∷ ks ↦ err (unknown_key k)
]

-- The checks of `title`, which no_fields in `title.strip()`.
unfoldable pub check_title : Value → Result TicketError (List ℕ)
unfolding as_text is_blank has_control strip
check_title value = do
  title ← expect (as_text value) bad_title
  require (not (is_blank (codes title))) bad_title
  require (leb (length (codes title)) 160 && not (has_control (codes title))) unreadable_title
  ok (strip (codes title))

-- The loop over the dependency IDs.
unfoldable pub check_ids : String → List String → Result TicketError (Unit {0})
unfolding is_id
check_ids ticket_id [] = ok tt
check_ids ticket_id (d ∷ ds) = do
  require (is_id d) (invalid_dependency d)
  require (not (str_eq d ticket_id)) self_dependency
  check_ids ticket_id ds

-- `isinstance(dependencies, list) and dependencies`
abbrev is_nonempty_list : Value → Bool
is_nonempty_list (arr no_items) = false
is_nonempty_list (arr (item v vs)) = true
is_nonempty_list _ = false

unfoldable pub check_dependencies : String → Option Value → Result TicketError (List String)
unfolding as_texts nodup check_ids
check_dependencies ticket_id none = ok []
check_dependencies ticket_id (some value) = do
  require (is_nonempty_list value) empty_dependencies
  ds ← expect (as_texts value) non_text_dependency
  require (nodup ds) duplicate_dependencies
  check_ids ticket_id ds
  ok ds

module _ (yaml : List ℕ → Option Fields) where
  -- `_parse_ticket`, of a file's name and text.
  unfoldable pub parse_ticket : String → List ℕ → State → Result TicketError Ticket
  unfolding canonical_stem split_ticket check_keys check_title check_dependencies get
  parse_ticket name text state = do
    ticket_id ← expect (canonical_stem name) bad_filename
    (metadata_text, body) ← split_ticket text
    metadata ← expect (yaml metadata_text) invalid_metadata
    check_keys metadata
    type_value ← expect (get "type" metadata) (missing_key "type")
    title_value ← expect (get "title" metadata) (missing_key "title")
    type_text ← expect (as_text type_value) bad_type
    require (str_eq type_text "devlegate.ticket") bad_type
    title ← check_title title_value
    dependencies ← check_dependencies ticket_id (get "depends_on" metadata)
    ok (record {
      id = ticket_id;
      state = state;
      title = title;
      depends_on = dependencies;
      body = body;
      path = name;
    })
