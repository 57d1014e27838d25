-- ===== src/Lib.antt =====
-- Coordinate: the kernel that gives jobs to agents and keeps their attempts apart.
--
-- The program is a control plane over one SQLite database. A job is created pending, an attempt of it
-- runs under a lease on an agent and a worktree, and the lease is renewed, released, or reaped after
-- its expiry, which times the job out. Jobs can be run by a local subprocess, cancelled and retried.
-- Every step is told in an event log whose idempotency keys are unique. Messages to chat platforms go
-- through an outbox, and a chat channel is bound to one workspace. The dependencies of a task stand
-- in a checklist file.
--
-- Files, and the code that they model:
--   Schema         the tables, src/coordinate/schema.py, and the database as one record of tables
--   Resources      the identity of a worktree, src/coordinate/execution_resources.py
--   Leases         src/coordinate/execution_leases.py: Checks (arguments and errors), Store (queries
--                  and writes, with the constraints of the table), Reserve (reserve_attempt_lease),
--                  Lifecycle (renew_, release_, expire_attempt_lease, expire_due_attempt_leases);
--                  Moves, Steps, Outcomes, Due, Calls, Release, Requested, Reservation and Constraints
--                  prove
--   Events         append_event of src/coordinate/db.py (Log), with its laws (Idempotency)
--   Reap           the reaper of src/coordinate/runtime_lease.py: Expire (one lease), Sweep (the loop,
--                  with transactions of its own or inside the caller's), Exact (reap_exact_lease, with its
--                  theorem); Pairing, Effects, Answers and Report prove
--   Jobs           src/coordinate/job_repository.py (Repository) and src/coordinate/jobs.py (Control:
--                  cancel_job and retry_job; Run: run_job and pump_jobs); Completion, Freeing,
--                  Cancellation, Retrial, Run/Verdict and Run/Counts prove
--   Channels       channel bindings of src/coordinate/db.py: Names (canonical names, lookup), Binding
--                  (bind_channel_workspace and release_channel_workspace); Replay, Releasing and Historic
--                  prove
--   Deliveries     the outbox: Ledger (the delivery table of src/coordinate/db.py), Bus (send_delivery and
--                  pump_deliveries of src/coordinate/bus.py), Worker (src/coordinate/worker.py), Channel
--                  (one-shot messages: reserve_channel_delivery and finish_channel_delivery of
--                  src/coordinate/db.py), Steps (the transactions as a step relation); Moves, Writes,
--                  Recovery, Requests, Receipts, Once, Sends, Pumps, Failing, Figures, Pumped and
--                  Working prove
--   Sender         ChannelSender of src/coordinate/channel_delivery.py: Input (the request, its authority
--                  and its key), Receipt (the answers), Send (the whole send); Claiming and Posting
--                  prove
--   Dependencies   src/coordinate/task_dependencies.py: Checklist (the file, with mutate_checklist of
--                  src/coordinate/checklist_io.py), Update (the mutation of one item), Combined
--                  (apply_dependency_mutation and update_task_dependencies); Member, Idle, Desired,
--                  Converge, Applied, Outcome, Recovery and Refusal prove
--   Envelope       src/coordinate/lease_envelope.py: Fields (the validators of single values), Parse
--                  (parse_execution_lease and validate_execution_lease); Interval proves
--   Base, Table, Text, Json
--                  tests and errors as values, a table as a list of rows, texts, decoded JSON
--   Examples       a small workspace, runs of the models on it, and the theorems at these inputs
--
-- State and calls. A function takes the database and returns its answer with the new database. A
-- function that raises is a `Result`. The lease functions and the functions in one transaction
-- return no database with an error, as their callers roll back; the reaper, `run_job` and the
-- sends and pumps of the outbox return the database beside the error, since what they committed
-- before it stays. A dependency update returns the checklist that the file has afterwards. A
-- query by a column is a lookup in a list, the first row in the order of insertion; an UPDATE
-- rewrites every row that meets its WHERE. The unique indexes and CHECK clauses of the lease
-- table stand in `insert_lease` and `update_lease`; that no two rows share an id is proved for
-- the leases and the deliveries, and a condition of the theorems on jobs. Other connections come
-- in as functions on databases, or as any sequence of the steps of Deliveries.Steps. A send of
-- the channel sender returns the trace of its calls of the bus, each with the database at its time.
--
-- Clocks and ids. The timestamps of `utc_now` have one format to the second, so that they are
-- seconds here, ordered as numbers. Each reading of the clock and each new uuid is an argument.
-- An expiry is a sum of natural numbers, without the upper end of `datetime`.
--
-- Parameters. `Platform` stands for `normpath`, NFC and case folding of Unicode, and SHA-256
-- over `json.dumps`; `SnapshotCheck` for `validate_execution_context_snapshot` of
-- src/coordinate/execution_context.py, which is not modelled; `PathResolver`, `Files` and
-- `str_of` for pathlib, the disk and `str`; `dumps` for the `json.dumps` by which stored
-- payloads are compared; a `Transport` for the answer of a message bus, and `Buses` for those
-- that the environment allows. `fingerprint` stands for the digest of an item, `Pathlib` for its
-- tests of paths, and a `Disk` for the checklist file with the validation of a candidate and the
-- end of the write; `Services` for the identities, the channel histories and the bus that the
-- channel sender is given. What the subprocess of a run does is an input: how it ended, what it
-- left in the result file (which may be one that cannot be read), and what other connections made of the database meanwhile, as any
-- function on databases.
--
-- Fuel and bounds. Only the loop of the delivery worker takes fuel, since it has no bound of its
-- own; with `max_iterations` that much fuel is enough. All other loops go through a list of rows.
-- The lease bounds (30 to 600 seconds of life, 100 leases of a sweep, 256 characters of a reason)
-- and the three attempts of a delivery are those of the code.
--
-- Not modelled: claims and terminal reports of the runtime, routing, plans, checklists, pull
-- requests, the rendering of messages and the requests to the platforms, the command lines and
-- servers. In the modelled files: the texts of the exceptions (an error is a constructor for its
-- condition), the root allowlists of worktrees, the rendered command and environment of a run,
-- and its log file, which only reach the process and the disk (an exception of its write is one
-- of the process).
pub mod Base
pub mod Table
pub mod Text
pub mod Json
pub mod Schema
pub mod Resources
pub mod Leases
pub mod Events
pub mod Reap
pub mod Sender
pub mod Envelope
pub mod Channels
pub mod Deliveries
pub mod Dependencies
pub mod Jobs
pub mod Examples
