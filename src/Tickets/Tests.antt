-- ===== src/Tickets/Tests.antt =====
-- Runs of the ticket functions on small inputs, and the theorems at such inputs.
use devlegate.Prelude.{
  ℕ, ◌≡◌, ◌↔◌, ◌⊎◌, inl, inr, refl, String, true, false, Option, some, List, [], ◌∷◌, codes, subset,
  In, ok, str_leb,
}
use devlegate.Values.{Fields, field, no_fields, str}
use devlegate.Tickets.Defs.{State, Ticket, TicketStore, workflow_states, make_store, selected}
use devlegate.Tickets.Store.{AllKnown, IsReady, SelectsLeast, make_store-SelectsLeast}
use devlegate.Tickets.Graph
use devlegate.Tickets.Graph.{Dfs, validate_cycles}
use devlegate.Tickets.Graph.Relation.{IsAcyclic, IsCycle}
use devlegate.Tickets.Graph.Decides.{validate_cycles-decides}
use devlegate.Tickets.Text.{canonical_stem}
use devlegate.Tickets.Parse.{split_ticket, parse_ticket}
use devlegate.Tickets.Parse.Laws.{IsValid, parse_ticket-IsValid}
use devlegate.Tickets.Load.{Directory, load_states, load_ticket_store, build_store}
use devlegate.Tickets.Load.Index.{AllKnown-IsClosed}
use devlegate.Tickets.Load.Laws.{IsStoreOf, Explains, build_store-Explains}
use devlegate.Tickets.Load.Files.{IsLoaded, load_ticket_store-IsLoaded}
use devlegate.Tickets.Parse.Cut.{IsCut, split_ticket-IsCut}

abbrev body : List ℕ
body = codes "Do it."

abbrev ticket : String → State → List String → Ticket
ticket id state ds = record {
  id = id;
  state = state;
  title = codes "T";
  depends_on = ds;
  body = body;
  path = id;
}

-- "b" depends on "a", and "a" is done.
abbrev chain : List Ticket
chain = ticket "b" State.todo ("a" ∷ []) ∷ ticket "a" State.done [] ∷ []

-- "a" and "b" depend on one another.
abbrev loop : List Ticket
loop = ticket "a" State.todo ("b" ∷ []) ∷ ticket "b" State.todo ("a" ∷ []) ∷ []

chain-AllKnown : AllKnown chain chain
unfolding subset
chain-AllKnown t (inl e) = rw e refl
chain-AllKnown t (inr (inl e)) = rw e refl
chain-AllKnown t (inr (inr m)) = absurd m

loop_found : validate_cycles loop ≡ Graph.cycle ("a" ∷ "b" ∷ "a" ∷ [])
unfolding validate_cycles str_leb
loop_found = refl

abbrev text : List ℕ
text = codes "---\ntype: devlegate.ticket\ntitle: T\n---\nDo it.\n"

-- A stand-in for NanoYAML that knows one document.
abbrev yaml : List ℕ → Option Fields
yaml cs = some (field "type" (str "devlegate.ticket") (field "title" (str " T ") no_fields))

abbrev parsed : Ticket
parsed = record {
  id = "a";
  state = State.todo;
  title = codes "T";
  depends_on = [];
  body = codes "Do it.\n";
  path = "a.md";
}

parse_run : parse_ticket yaml "a.md" text State.todo ≡ ok parsed
unfolding parse_ticket
parse_run = refl

split_run : split_ticket text ≡ ok (codes "type: devlegate.ticket\ntitle: T\n", codes "Do it.\n")
unfolding split_ticket
split_run = refl

abbrev files : State → Directory
files State.todo = Directory.listing (
    record { name = "notes.txt"; is_symlink = true; is_file = false; content = [] }
    ∷ record { name = "a.md"; is_symlink = false; is_file = true; content = text }
    ∷ [])
files _ = Directory.absent

abbrev loaded : TicketStore
loaded = record { tickets = parsed ∷ []; runnable = parsed ∷ [] }

load_run : load_ticket_store yaml files ≡ ok loaded
unfolding load_ticket_store canonical_stem parse_ticket str_leb
load_run = refl

validate_cycles-decides_example :
    ((s : Dfs) × (validate_cycles chain ≡ Graph.ok s) × IsAcyclic chain)
    ⊎ ((c : List String) × (validate_cycles chain ≡ Graph.cycle c) × IsCycle chain c)
validate_cycles-decides_example =
    validate_cycles-decides chain (AllKnown-IsClosed chain chain-AllKnown)

make_store-SelectsLeast_example :
    (store : TicketStore) × (make_store chain ≡ some store)
    × (store.tickets ≡ chain)
    × ((t : Ticket) → In t store.runnable ↔ (In t chain × IsReady chain t))
    × SelectsLeast chain (selected store)
make_store-SelectsLeast_example = make_store-SelectsLeast chain chain-AllKnown

split_ticket-IsCut_example :
    IsCut text (codes "type: devlegate.ticket\ntitle: T\n") (codes "Do it.\n")
split_ticket-IsCut_example =
    split_ticket-IsCut text (codes "type: devlegate.ticket\ntitle: T\n") (codes "Do it.\n")
      split_run

parse_ticket-IsValid_example : IsValid "a.md" State.todo parsed
parse_ticket-IsValid_example = parse_ticket-IsValid yaml "a.md" text State.todo parsed parse_run

build_store-Explains_example : Explains loop (build_store loop)
build_store-Explains_example = build_store-Explains loop

load_ticket_store-IsLoaded_example :
    IsLoaded yaml files loaded
    × ((ts : List Ticket) × (load_states yaml files workflow_states ≡ ok ts) × IsStoreOf ts loaded)
load_ticket_store-IsLoaded_example = load_ticket_store-IsLoaded yaml files loaded load_run
