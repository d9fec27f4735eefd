-- ===== src/Tickets/Load.antt =====
-- `load_ticket_store` of src/devlegate/tickets.py. The file system is a parameter: what stands at
-- each configured workflow directory. NanoYAML's `loads` is the parameter `yaml`.
pub mod Index
pub mod Laws
pub mod Entries
pub mod Files
use devlegate.Prelude.{
  ℕ, String, Bool, true, false, not, ◌&&◌, ◌||◌, Option, none, some, List, [], ◌∷◌, ◌++◌, map,
  str_leb, contains, sort, if◌then◌else◌, Result, ok, err, ◌>>=◌, ◌>>◌, require, expect,
}
use devlegate.Values.{Fields}
use devlegate.Tickets.Defs.{State, Ticket, TicketStore, workflow_states, ids, id_leb, make_store}
use devlegate.Tickets.Errors.{
  TicketError, not_a_directory, invalid_entry, duplicate_ticket, missing_dependency,
  dependency_cycle, key_error, too_deep,
}
use devlegate.Tickets.Text.{canonical_stem}
use devlegate.Tickets.Parse.{parse_ticket}
use devlegate.Tickets.Graph
use devlegate.Tickets.Graph.{Outcome, validate_cycles}

-- A directory entry; `content` is what `read_text` returns.
pub record Entry : Type 0 where
  pub name : String
  pub is_symlink : Bool
  pub is_file : Bool
  pub content : List ℕ

pub data Directory : Type 0 where
  absent other : Directory
  listing : List Entry → Directory

abbrev pub name_leb : Entry → Entry → Bool
name_leb a b = str_leb a.name b.name

module _ (yaml : List ℕ → Option Fields) where
  -- The loop over one directory: names that are not canonical are passed over.
  unfoldable pub load_entries : State → List Entry → Result TicketError (List Ticket)
  load_entries state [] = ok []
  load_entries state (e ∷ es) =
      let rest = load_entries state es in
      elim (canonical_stem e.name) [
        | none ↦ rest
        | some _ ↦ do
          require (not e.is_symlink && e.is_file) invalid_entry
          t ← parse_ticket yaml e.name e.content state
          ts ← rest
          ok (t ∷ ts)
      ]

  unfoldable pub load_directory : State → Directory → Result TicketError (List Ticket)
  unfolding load_entries sort
  load_directory state Directory.absent = ok []
  load_directory state Directory.other = err not_a_directory
  load_directory state (Directory.listing es) = load_entries state (sort name_leb es)

  -- The loop over the workflow states.
  unfoldable pub load_states : (State → Directory) → List State → Result TicketError (List Ticket)
  unfolding load_directory
  load_states at [] = ok []
  load_states at (s ∷ ss) = do ts ← load_directory s (at s); us ← load_states at ss; ok (ts ++ us)

-- `for ticket_id, paths in sorted(locations.items())`: the IDs in order, with repetitions side by
-- side, and the error at the first one that is repeated.
unfoldable pub check_distinct : List String → Result TicketError (Unit {0})
unfolding contains
check_distinct [] = ok tt
check_distinct (k ∷ ks) = do require (not (contains k ks)) (duplicate_ticket k); check_distinct ks

-- The loop over the dependencies of one ticket.
unfoldable pub check_known : List String → String → List String → Result TicketError (Unit {0})
unfolding contains
check_known known ticket_id [] = ok tt
check_known known ticket_id (d ∷ ds) = do
  require (contains d known) (missing_dependency ticket_id d)
  check_known known ticket_id ds

unfoldable pub check_all_known : List String → List Ticket → Result TicketError (Unit {0})
unfolding check_known
check_all_known known [] = ok tt
check_all_known known (t ∷ ts) = do check_known known t.id t.depends_on; check_all_known known ts

-- The exception of `_validate_cycles`, if it raises one.
unfoldable pub raise_cycle : {A : Type 0} → Outcome A → Result TicketError (Unit {0})
raise_cycle (Outcome.ok a) = ok tt
raise_cycle (Outcome.cycle c) = err (dependency_cycle c)
raise_cycle Outcome.key_error = err key_error
raise_cycle Outcome.exhausted = err too_deep

-- The checks of the whole graph, and the store.
unfoldable pub build_store : List Ticket → Result TicketError TicketStore
unfolding check_distinct check_all_known raise_cycle validate_cycles make_store sort
build_store ts = do
  check_distinct (sort str_leb (ids ts))
  check_all_known (ids ts) (sort id_leb ts)
  raise_cycle (validate_cycles ts)
  expect (make_store (sort id_leb ts)) key_error

unfoldable pub load_ticket_store :
    (List ℕ → Option Fields) → (State → Directory) → Result TicketError TicketStore
unfolding load_states build_store
load_ticket_store yaml at = do ts ← load_states yaml at workflow_states; build_store ts
