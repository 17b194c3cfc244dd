-- ===== src/Lib.antt =====
-- researchd: a service that runs research tasks through agents, gates their evidence, and asks a principal
-- investigator (PI) for decisions. This library models the rules of its domain objects, the gates of the application
-- layer, the application of results, the repositories and the rows that they store, the outbox and its sender, and
-- the scheduler's leases, locks, dispatch and passes.
--
-- How the parts interact. A planner proposes tasks with contracts. The scheduler decides which READY task may run,
-- takes a lease, and starts it. The worker's run ends in REVIEW, and its result becomes artifacts, candidates of
-- evidence, claims and issues; an auditor's run then calls the audit gate, which verifies evidence against stored
-- runs and artifacts and completes, returns or fails the task. Questions pass the decision gate, which opens a
-- decision for the PI or answers by a rule; an answer releases the tasks in its scope. Messages leave through the
-- outbox, whose rows are claimed by generation.
--
-- Which file models which part (the paths are the repository's):
--   Domain/Enums, Domain/Machines/Tables   src/researchd/domain/enums.py, domain/state_machine.py
--   Domain/StateMachine                    `StateMachine.can` and `transition` of domain/state_machine.py
--   Domain/Task                            domain/task.py: the methods of `Task`, under their own names
--   Domain/Evidence, Claim, Issue          domain/evidence.py
--   Domain/Decision, Domain/Run            domain/decision.py, domain/run.py
--   Domain/Project, Domain/Event           domain/project.py, domain/events.py
--   Persistence/Table                      what SELECT and UPDATE do to the rows of a table
--   Persistence/Repository                 `BaseRepo` of persistence/repositories.py
--   Persistence/Rows                       the conversions between rows and objects of persistence/repositories.py, for
--                                          tasks, artifacts, issues, claims, evidence and decisions
--   Persistence/Outbox                     persistence/outbox.py
--   Application/DecisionGate               application/decision_gate.py
--   Application/EvidenceValidation         `verify_evidence` of application/evidence_validation.py
--   Application/Paths                      application/paths.py
--   Application/Registration               `register_artifact` of application/evidence_validation.py
--   Application/ApplyResult                `apply_work_result` of application/apply_result.py
--   Application/Audit                      application/audit_gate.py
--   Application/Commands                   application/commands.py
--   Scheduler/Leases, Scheduler/Locks      scheduler/leases.py
--   Scheduler/Readiness                    `task_dispatch_decision` of scheduler/dispatch.py
--   Scheduler/Dispatch, Scheduler/Collect  `dispatch_task`, `collect_failure`, `collect_interrupt` of the same file
--   Scheduler/Success                      `collect_success` of the same file
--   Scheduler/Auditing                     `dispatch_audit_run` and `collect_audit` of the same file
--   Scheduler/Loop                         `_dispatch_ready`, `_unblock_resolved` and `_requeue_worker_blocked` of
--                                          scheduler/loop.py
--   Scheduler/Delivery                     the document blocks of `OutboxSender._deliver`, scheduler/outbox_sender.py
--   Scheduler/Sender                       `OutboxSender.send_pending` of the same file
--   Samples                                concrete inputs
--
-- How the code is read. A method that mutates its object returns the object beside its result, also when it raises,
-- so that a field written before the exception stays written. An exception is a constructor that carries what the
-- code puts into it. An instant is a number of microseconds, and a method that reads the clock is given what it
-- reads; identifiers and tokens that a call draws are arguments too. A table is the list of its rows in insertion
-- order; an UPDATE changes the rows that meet its WHERE and reports how many there were, and concurrent writers are
-- an explicit order of their statements. A session is not flushed by its queries: where a call reads a table to which
-- it has added rows, the rows that were flushed are an argument of their own, and a row that is added a second time
-- is refused, at once and not at the next flush; either way nothing is committed. Numbers are unbounded, as Python's
-- are. Every loop of the modelled code runs over a list. Only the printing of a decimal takes fuel, the number
-- itself, which is enough since each step divides it by ten.
--
-- Parameters, for code that is not the repository's: the LIKE of the database (`matches`), `str.lower` (`lower`), the
-- SHA-256 fingerprint of a question, the hash of a section, the file system with its paths, types and hashes
-- (`FileSystem`), pydantic's model_dump and model_validate (`Dumping`), and the answers of the platforms with the
-- calls that other senders make in between (`Surroundings`).
--
-- Not modelled: the coercions of pydantic, the conversions between rows and objects of runs, events, invocations,
-- projects, reports and context packages, free-form JSON but for the entries that the code decides by, the HTTP
-- interface, the agent protocol, the executors' processes, the rendering of reports and documents, configuration, the
-- choice of profiles, and the asynchronous drive of runs.
mod Prelude
pub mod Domain
pub mod Persistence
pub mod Application
pub mod Scheduler
pub mod Samples
