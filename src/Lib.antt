-- ===== src/Lib.antt =====
-- KSEC, the security operations platform under src/ksec: its job scheduler and the services that
-- decide who may do what to which target, and that keep evidence and cases.
--
-- The parts and how they interact. A workflow or a command asks `policies/engine.py` for a
-- decision, which reads roles (`rbac/roles.py`), the session (`sessions/manager.py`) and the scope
-- of an engagement (`authorization/service.py`). What is allowed is submitted to
-- `scheduler/service.py`, which writes jobs (`jobs/models.py`), is fed by recurring schedules
-- (`scheduler/schedules.py`), runs one thread for each job and notes what happens in the audit log
-- (`audit/service.py`). A job becomes a command by the adapter of its capability
-- (`adapters/registry.py`, the other files of `adapters/`, and `execution/command_builder.py`),
-- which may come from a plugin (`plugins/manager.py`), whose gate the job then passes.
-- A workflow (`workflows/engine.py`) is a sequence of jobs, each with its decision. Findings,
-- evidence, cases and alerts (`findings/service.py`, `evidence/service.py`, `cases/service.py`,
-- `soc/alerts.py`) are tables with their histories, and `change/service.py` compares the state of
-- the tables with a baseline.
--
-- The files, by the source under src/ksec that they model:
--   Jobs                 jobs/models.py: JobRepository over a list of rows; Laws, Recovery
--   Schedules            scheduler/schedules.py: Cron (cron_matches), Store (ScheduleStore)
--   Scheduler            scheduler/service.py: the object; its methods in Submit (submit, retry and
--                        the rate limits), Control (pause, resume, cancel, wait_for), Stop (the
--                        emergency stop, recover, health), Run (_execute) and Worker (_loop, _reap,
--                        _run_due_schedules), each with children named for what they prove
--   Audit                audit/service.py: AuditService
--   Rbac                 rbac/roles.py: RbacService
--   Sessions             sessions/manager.py: SessionManager
--   Authorization        authorization/service.py: target_matches, AuthorizationService
--   Policies             policies/engine.py: _is_lab_target, PolicyEngine.evaluate
--   Evidence             evidence/service.py: EvidenceService
--   Cases                cases/service.py: CaseService
--   Findings             findings/service.py: FindingService, with Remediations; Statuses and
--                        Verification are for proofs
--   Alerts               soc/alerts.py: AlertService; Times
--   Change               change/service.py: ChangeService; Snapshot (_snapshot and its helpers), Diff
--                        (_diff); Quiet, Clean and Scans are for proofs
--   Adapters             adapters/base.py and execution/command_builder.py: targets, arguments and
--                        options; the commands of the tools in Network, Web and Hosts
--                        (build_command of each class), the classes in Builtin, adapters/registry.py
--                        in Registry, and what targets the commands are for in Targets
--   Capabilities         capabilities/catalog.py: capability_permission
--   Plugins              plugins/manager.py: PluginManager, with Lifecycle (states, uninstall, the gate)
--                        and Catalog (directories); Owners, Gate and Refresh are for proofs
--   Workflows            workflows/definitions.py and _topological_order of workflows/engine.py, with
--                        Rounds and Order for its proofs; Engine (run, plan, _submit_with_retry,
--                        _finish), and Runs and Failures for proofs about it
--   Prelude              what all of them share: Boolean tests, lists, texts and their decimal
--                        numerals, dictionaries, JSON, orders of rows, Exec, the methods that
--                        change an object and may raise, and Keeps, what such methods keep
--   Examples             runs on small data
--
-- How the code is read. A service is a record of its tables, a table is the list of its rows in
-- the order of insertion, and a query is a function on it. A method is a function from the state to
-- an outcome and a state: it returns, it raises and leaves what was written, or it blocks. The lock
-- of the scheduler is the Boolean `lock_held`; a caller that waits for a lock that it holds itself
-- blocks for ever. Threads and processes are objects that several dictionaries refer to, so they
-- stand in heaps and the dictionaries hold their places. `_execute` is cut where other threads run:
-- up to the start of the process, one round of polling, and the end. Everything read from outside
-- is an argument: the clocks, new ids, the answers of `Popen` and `communicate`. A row that the tables
-- refuse raises a DatabaseError where the code calls `Database.execute`, and sqlite3's own error
-- inside `Database.transaction`; the foreign keys are tests of the ids that the model knows. Instants are
-- natural numbers of milliseconds, states that the program names are constructors, and JSON is kept
-- as its value.
--
-- Loops over rows are structural recursion, so no fuel is needed; the polling loop recurs on the
-- rounds that it gets, and the deadline passes behind the last one. The loop over the ready steps of
-- a workflow has as many rounds as there are steps, for each step is taken at most once. The retries
-- of a step count down.
--
-- Parameters stand for what is not code of this repository or is a component of its own: for the
-- scheduler its adapters, which may raise when they build a command or parse the output, and the
-- plugin gate, for a workflow the scheduler and the correlation (the
-- record `Workflows.Engine.Services`), the import of a plugin's classes (`Plugins.Imports`), the table
-- of users, the clock, SHA-256, and Python's `urllib.parse`, `ipaddress`, `datetime` and conversions
-- and equality (the field `Change.Env.equal` and the records `Authorization.Targets.Library` and `Adapters.Python`).
--
-- Not modelled: SQLite itself and the texts of its rows, case conversion and digits outside ASCII,
-- ids and times of audit events, the start and stop of the worker thread, IOC extraction from job
-- output, the data that `seed` writes, the parsers of tool output, the installation of a plugin and
-- the validation of its manifest, the store of workflows and their triggers, and the other packages
-- under src/ksec.
pub mod Prelude
pub mod Findings
pub mod Jobs
pub mod Schedules
pub mod Alerts
pub mod Audit
pub mod Scheduler
pub mod Rbac
pub mod Sessions
pub mod Authorization
pub mod Plugins
pub mod Policies
pub mod Change
pub mod Evidence
pub mod Capabilities
pub mod Cases
pub mod Adapters
pub mod Workflows
pub mod Examples
