-- ===== src/Lib.antt =====
-- Cloud job orchestrator: a model of its core, and the theorems that hold of it.
--
-- The program admits graphs of jobs, hands ready jobs to workers under leases that run out, retries
-- what fails with a bounded backoff, and buries what has used up its attempts. `src/domain.rs` checks
-- submissions; `src/scheduler.rs` is the reference scheduler in memory; `src/worker.rs` executes a
-- job; `src/store.rs` holds the same state in PostgreSQL behind the interface of `src/http.rs`, the
-- worker and the command line of `src/bin`. The scheduler validates with the domain, and keeps its
-- value objects. The worker validates the payload once more.
--
-- Which file models what:
--   Domain: the value objects, the limits and `ValidationError` of `src/domain.rs`. Domain/Validate:
--     `validate_payload`, `validate_identifier` and `DagSpec::validate`, with one function for each of
--     its loops. Domain/Validate/Policy: what a submission that passes the loops satisfies.
--   Topology: the walk of `DagSpec::validate` over the graph. Counts and Relax are about its loops,
--     Walk holds its invariant, Order starts it, Accepts and Sound and Exact say what is accepted.
--   Scheduler/State: the records and the heap of `src/scheduler.rs`, `job_mut` and `push_ready`.
--     Scheduler/Retry: `deterministic_jitter`, the backoff, `retry_or_dead_letter`, `assert_lease` and
--     `fail`. Scheduler/Submit: `submit`. Scheduler/Claim: `reap` and `claim`. Scheduler/Lease:
--     `heartbeat`, `complete`, `cancel` and `snapshot`. Scheduler/Run: histories of calls.
--   Scheduler/Cas: the compare-and-set of leases. Scheduler/Reap and Scheduler/Release: the two loops
--     over jobs. Scheduler/Machine: the life of one job. Scheduler/Acts: the calls as its steps.
--     Scheduler/Admission: what `submit` adds. Scheduler/Edges: the counts of dependencies.
--     Scheduler/Heap: the heap. Scheduler/Late, Exclusive, Backoff, Views, Accept: single theorems;
--     Scheduler/Roots: the jobs that wait for none.
--   Worker: `execute` of `src/worker.rs`.
--   Store: the checks and the names of `src/store.rs`. Store/Tables: the tables of `migrations` and the
--     forms of SQL statement. Store/Submit: `submit`. Store/Claim: `claim`. Store/Lease: `heartbeat`,
--     `complete`, `fail`, `reap` and `cancel`. Store/Read: `snapshot` and `list_dags`.
--     Store/Pool: `connect`, `migrate` and `ready`. Store/Run:
--     histories of transactions. Store/Race: two calls of `complete` at the same time.
--   Store/Rows: looking rows up after statements. Store/Moves: the writes to a row as steps.
--     Store/Acts, Transactions, Picks, Due, Grants and Inserts: the methods as such steps. Store/Evolution: a
--     row as a job of the reference scheduler. Store/Waits: the rows that wait for a parent.
--     Store/History, Final, Cas, Pages, Accepts: theorems about the methods.
--   Http: the defaults, names and error responses of `src/http.rs`. Http/Handlers: its requests,
--     routes and handlers.
--   Bin/Config and Bin/Worker: `src/bin/orchestrator_worker.rs`. Bin/Ctl: `src/bin/orchestratorctl.rs`.
--   Base: shared names, lists, maps, orders, integers, results and strings. Tests: the unit tests of
--     the source by evaluation, and instances of the theorems.
--
-- How the state corresponds. A method is a function from the scheduler and its arguments to its result
-- and the scheduler that it leaves; the scheduler is a record with the source's four fields. A HashMap
-- is an association list with distinct keys. Its iteration order, which the source does not fix, shows
-- in `reap` only, as the order of the retries: each is of another job.
-- The heap of reversed keys is the sorted list of the keys: equal keys cannot be told apart. A string
-- is the list of its bytes. An i64 or i16 is an integer with its saturation written out, a u64, u16 or
-- usize a natural number with its saturation or wrap-around where the source has it; arguments are not
-- restricted to the machine's range unless a theorem says so.
--
-- The store's state is the four tables, each a list of rows; a transaction is a function from the tables
-- to its result and the tables that are committed, and leaves them as they were if it returns early. A
-- statement is a function on the rows that it sees. Transactions run one after the other, but for
-- Store/Race. A timestamp is in microseconds.
--
-- Fuel. The walk of `DagSpec::validate` takes one job from its queue each round, and has one more round
-- of fuel than the submission has jobs, since a job enters the queue at most once. The loop
-- of `claim` recurs on the heap, since a round that goes on has taken an entry from it. The decimal
-- printer has one digit more of fuel than the number. No other definition has fuel.
--
-- Parameters. The digest and the upper-case conversion of the worker, the library errors of the store,
-- and the SQLSTATE of a database error are arguments of the definitions that use them. So are
-- PostgreSQL's violations and its order of text, the rows that other transactions have locked, the time
-- of a transaction, a new UUID and its text, whether the database answers, the variables of the
-- environment, and for the command line the size of a file and the submission that is read from it.
--
-- Not modelled. Errors of the connection, waiting for locks, and texts with a zero byte, which PostgreSQL
-- refuses; what the library does to open the pool and to run the migrations; the messages of
-- `src/http.rs`, its static files and layers; `src/bin/orchestratord.rs`, which starts the server; the
-- encoding and decoding of JSON, logging, the sleeps of the worker, and the allocation of memory. The
-- web console, the infrastructure and the scripts are in other languages.
pub mod Base
pub mod Bin
pub mod Domain
pub mod Scheduler
pub mod Topology
pub mod Worker
pub mod Store
pub mod Http
pub mod Tests
