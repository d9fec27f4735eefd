-- ===== src/Lib.antt =====
-- A model of Devlegate, a service that runs workers on the tickets of a project: the operator stores
-- tickets as files, the service selects one, starts a worker for it, reads what the worker reports, and
-- takes commands from a command line over a local socket.
--
-- The parts, and the files that model them:
--   Values: the documents that `json.loads` returns and the tests by `isinstance` that the code makes of
--     them. `Values.Reads` says what these tests say.
--   Tickets: src/devlegate/tickets.py. `Defs` has the tickets and the store, `Text` the names and the
--     lines, `Parse` `_split_ticket` and `_parse_ticket`, `Graph` the depth-first search of
--     `_validate_cycles` with its two sets and its stack as state, `Load` `load_ticket_store`, and
--     `Store` what the store selects.
--   Ipc: src/devlegate/ipc_protocol.py (`Frame` the frames over streams that cut their bytes anywhere,
--     `Message` the requests and responses) and, of src/devlegate/ipc_server.py, the dispatch
--     (`Dispatch`: `check_mutation` is what each branch checks in front of its call, `perform` the call;
--     `Calls` the engine and the process as an interface) and the loop that serves a connection
--     (`Server`: `serve_round` is one round of `_serve_connection`).
--   Reports: src/devlegate/worker_egress.py (`Claims`, `Egress`) and src/devlegate/execution_result.py
--     (`Result` the canonical conclusion, `Document` the document of a report, `Report` how it is read).
--   Service: the slot for operator commands of src/devlegate/runtime.py (`Slot`, one function for each
--     region under `_operator_command_lock`; `Slot.Steps` their interleavings; `Receipts` the receipts
--     of admitted requests and `Slot.Replay` how they answer again).
--   Engine: the persisted state of the engine of src/devlegate/runtime.py: `Validate` (with `Recovery` and
--     `Identity`) is `_validate_state_invariant`, and `Save` `_save_state` over the store of `Store`.
--   Lifecycle: `request_lifecycle` and `_lifecycle_exit_ready` of src/devlegate/runtime.py with the
--     admission of src/devlegate/worker_supervisor.py; `Steps` their interleavings.
--   WorkerText: `_render_worker_text` of src/devlegate/worker_supervisor.py.
--   Status: the admission barriers of src/devlegate/runtime.py and `_dependency_blocked_tickets`, on the
--     store of `Tickets`; `Plan` `_make_execution_plan`, and `Snapshot` the tickets of
--     `_make_status_snapshot` with the loop that says why each is blocked.
--   Views: the records of src/devlegate/runtime.py that a service publishes, with their `as_dict`.
--   Client: src/devlegate/ipc_client.py (`Request` the request and its replay over connections that may
--     break, `Decode` the decoders of a status, `Acks` the checks of the other answers, with two of src/devlegate/cli.py).
--   Store: `SQLiteRuntimeStore` of src/devlegate/runtime_store.py, over the contents of the
--     database (`Database` its schema, `Transaction` what a transaction leaves of it).
--   Prelude: the shared names and lemmas.
-- The command line encodes a request, the server decodes it and lets the dispatch check it and call the
-- engine, which puts a command into the slot; the owner takes it, admits it and writes a receipt into
-- the runtime state, which the store keeps. A run of a worker ends with a claim or an error, from which
-- the report is built.
--
-- Code that is not part of the repository is an argument: NanoYAML's `loads`, `json` with its documented
-- round trip (`Ipc.Json.IsJson`), the listings of directories, SQLite's contents and failures,
-- `str.isprintable`, `hashlib.sha256`, and the names of signals. The engine behind the dispatch, and the
-- validation and the further effects of an admission, are arguments too.
--
-- Numbers: a Python integer is a natural number where the code keeps it at least 0, and a `ℤ` elsewhere.
-- Texts are the native strings; titles and bodies are lists of code points. A float keeps its text.
-- Fuel: the cycle search has one level for each ticket and one more, which `Tickets.Graph.Fuel` shows to
-- be enough (Python's own recursion limit is not modelled); `read_exact` has one round for each byte,
-- since a round that goes on reads at least one, and so has `serve_connection`
-- (`Ipc.Server.Ends`); the digits of a number have the number itself.
--
-- Not modelled: the listening socket, its threads and the check of the peer; the processes, namespaces and
-- worktrees of an execution, Git, systemd and signals, the log files and the command line, which are calls
-- of the system for the most part; and, of src/devlegate/runtime.py, the scheduler, the reconciliations
-- and the failed executions of a status.
pub mod Client
pub mod Engine
pub mod Ipc
pub mod Lifecycle
pub mod Prelude
pub mod Reports
pub mod Service
pub mod Status
pub mod Store
pub mod Tickets
pub mod Values
pub mod Views
pub mod WorkerText
