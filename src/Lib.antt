-- ===== src/Lib.antt =====
-- A verification library for MAGSAG, the agent framework under src/magsag.
--
-- Parts of the program and where they are modelled:
--
-- * The approval gate, src/magsag/governance/approval_gate.py, in Approval. The state of a gate
--   (Approval.Gate) is `_tickets`, `_initialized_runs`, the default timeout and the state of the
--   backend; each method is a function from the time of the call and a state to a state
--   (Approval.Create, Approval.Resolve, Approval.Sweep, Approval.Execution). A wait is a list of
--   rounds: what other callers do to the same gate while the waiter sleeps, and the time of the
--   next poll. A list of rounds that ends before a decision leaves the wait unfinished, and the
--   theorems on waits say when it is finished. Methods do not interleave inside one call. The
--   backend, SHA-256 and `isoformat` are parameters. Polls of other waiters are not among what
--   other callers do, and the message of an event is left out.
-- * Tool permissions, masking and hashing of arguments, src/magsag/core/permissions.py, in
--   Permissions; the ticket and its record are in Approval.Ticket.
-- * The permission evaluator, src/magsag/governance/permission_evaluator.py, in Evaluator: the
--   policy as parsed from YAML, the matching of conditions, and `evaluate` layer by layer.
--   `fnmatch` is in Text.Fnmatch. The gate calls the evaluator through a function argument.
-- * The cost optimizer, src/magsag/optimization/optimizer.py, in Optimizer. Money and quality are
--   whole numbers of the smallest unit that the tables of the class use, so that a budget is not
--   negative.
-- * Durable runs, src/magsag/runners/durable.py, in Durable: the snapshots of the steps of a run
--   (Durable.Snapshot), the store with what it keeps in memory (Durable.Store) and the runner on
--   top of it (Durable.Runner). The storage backend and the files are the parameter `World` with a
--   state of its own, which may fail at every call.
-- * The middleware of the HTTP API, src/magsag/api/rate_limit.py and
--   src/magsag/api/middleware/idempotency.py, in Api: the token bucket in memory, with times in
--   microseconds and tokens in millionths, and the cache of responses under idempotency keys,
--   where a request is answered before the next one starts. The clock does not go backwards. The
--   application behind the middleware is a parameter.
-- * Routing, src/magsag/routing, in Routing: the policies and their routes (Routing.Policy), and
--   the plan of a call with its overrides from arguments, environment and defaults (Routing.Plan).
-- * The semantic cache, src/magsag/optimization/cache.py, in Cache: its maps from keys and from
--   identifiers, its training buffer and its index. Vectors and the FAISS index are the parameter
--   `Vectors`, and `IsIndex` (Cache.Consistent) says which identifiers an index holds.
-- * The keys of cached answers, src/magsag/cache/key.py, in Cache.Key; json.dumps and SHA-256 are
--   parameters, and the values are those of Value.
-- * Agent memory, src/magsag/core/memory.py and the SQLite store of
--   src/magsag/storage/memory_store.py, in Memory: entries and their validation (Memory.Entry),
--   the rows they are written as (Memory.Row) and the store, which is a table that is open or
--   closed (Memory.Sqlite). Times are in microseconds; `json.dumps`, `isoformat` and their
--   inverses are the parameter `Codec`, and the ranking of the full text search is an argument.
--   Memory.Spec is the abstract store that has no rows.
-- * The handoff tool, src/magsag/routing/handoff_tool.py, in Handoff: the requests
--   (Handoff.Request), the adapters of the platforms (Handoff.Adapters), the state of the tool and
--   its lookups (Handoff.Tool), and `handoff` (Handoff.Calls), which calls the approval gate of
--   Approval. The evaluator, which may answer with a permission, a text or anything else, the
--   agent runner and the storage of events are parameters, and one handoff ends before the next
--   one starts.
-- * The SQLite storage backend, src/magsag/storage/backends/sqlite.py, in Storage: the tables
--   (Storage.Tables), runs and events (Storage.Runs, Storage.Listing), tickets and snapshots
--   (Storage.Records) and the clean-up with its cascade (Storage.Vacuum), whose fuel is one pass
--   for each run. Storage.GateBackend gives the methods to the approval gate. JSON and the texts
--   of times are parameters.
-- * The client of batches, src/magsag/optimization/batch.py, in Batch: the files of requests and
--   of results and the jobs, and in Batch.Loop the wait, whose fuel is the number of looks at the
--   job. The service, files, JSON and the clock are the parameter `Outside`.
-- * Git worktrees, src/magsag/worktree, in Worktree: the names of naming.py (Worktree.Names), the
--   parser of git.py (Worktree.Porcelain), how the manager finds the worktree of a run
--   (Worktree.Resolve) and the operations of manager.py (Worktree.Manager, Worktree.Operations).
--   Git, the file system, the environment, the clock and the event bus are the parameter `World`
--   with a state of its own. `str.lower` changes ASCII letters only.
-- * `json_safe`, src/magsag/storage/serialization.py, in Serialization; the gate sends its event
--   payloads through it.
--
-- Prelude, Dict, Result, Text and Value are shared: the libraries' names passed on, Python's
-- dict with text keys, results that may be exceptions, texts as the codes of their characters,
-- and the values that come from JSON. Examples has tests and instances of the theorems.
--
-- Not modelled: the agent runner, its hooks and seeds, which are mostly calls of the providers
-- of language models; MCP, A2A and GitHub, which are protocols over libraries; evaluation,
-- moderation, the governance gate, costs and observability; the Postgres backends, which are SQL
-- over a driver; the HTTP routes, the command line, the reading of files, logging and metrics.
pub mod Prelude
pub mod Dict
pub mod Result
pub mod Text
pub mod Value
pub mod Approval
pub mod Permissions
pub mod Evaluator
pub mod Durable
pub mod Storage
pub mod Api
pub mod Routing
pub mod Handoff
pub mod Cache
pub mod Memory
pub mod Worktree
pub mod Optimizer
pub mod Batch
pub mod Serialization
pub mod Examples
