-- ===== src/Lib.antt =====
-- MediaSync: the task engine, its worker, the record of appliance updates and the updater that carries
-- them out or takes them back, after the Python code under `backend/app/`.
--
-- The program keeps a queue of tasks in SQLite. Workers claim tasks under a lease, run a handler and
-- record the outcome; the lease makes sure that only one worker at a time writes the result of a task,
-- and an expired lease is recovered by whichever worker comes next. While an update replaces the
-- appliance's container, a gate keeps the workers from claiming. The update itself is the work of a
-- short-lived container, the updater: it goes through checkpoints that it writes to a journal, so that
-- it, or the next coordinator, resumes where it stopped, and a second machine goes back to the old
-- container when the way forward fails before the commit.
--
-- Files and the code they model:
--   Prelude (Tests, Lists, Values, Sorting): shared helpers; no code of the program. `ORDER BY` is the
--     insertion sort of Prelude/Sorting.
--   Tasks/Status, Tasks/Model: the rows of `models/task.py`, every column, and the CHECK constraints.
--   Tasks/Json: the JSON values of payloads and metrics.
--   Tasks/Transitions: `task_engine/transitions.py` and the errors of the repository.
--   Tasks/Session: a transaction as a function from the tables to a result with the tables after it,
--     and the SELECT and UPDATE statements that the repository issues.
--   Tasks/Repository (Values, Create, Claim, Finish, Recover, Legacy): `TaskRepository` of
--     `repositories/tasks.py`, one function for each method, with its guards in the code's order.
--   Tasks/Invariant and below, Tasks/Rows, Keys, Checks, Ending, Frame: what each operation does to
--     the rows, and that it keeps the tables in order. Tasks/System: all operations as steps.
--   Tasks/TaskStep, Lifecycle, Fencing, Owner, Recovery, Queue, History, Cutover: single guarantees.
--   Tasks/Life: the engine seen from one task, in words of its own: who holds it, when it is ready, what
--     each operation leaves. Life/Rows: that the rows of the repository are such. Life/Steps, Promises:
--     the machine that all transactions refine, and the operations that workers call.
--   Worker/Backoff, Outcome, Registry: `ExponentialBackoff` of `task_engine/worker.py`, and
--     `task_engine/handlers.py`. Worker/Runtime, Finishing: the transactions of `WorkerRuntime`.
--     Worker/Verdict, Cancellation, Cycle: what they decide, and that a closed gate keeps them from claims.
--   Cutover/Service: `services/legacy_task_reconciliation.py`. Cutover/Orphans, Keeps: that it
--     brings the tables of the time before leases in order.
--   Enqueue/Service, Single: the manual scan of `services/task_enqueue_service.py`.
--   Updates/Model, Repository: `models/update_operation.py` and `repositories/update_operations.py`.
--     Updates/System, Orderly, History: sequences of its calls. Updates/Gate: `evaluate` of
--     `services/update_execution_gate.py`. Updates/Recovery: `decide_recovery` of
--     `services/updater_recovery_decision_service.py`.
--   Updater/Text: the regular expressions of the updater and the str methods that it calls.
--     Updater/Errors: its exceptions, as values of a result.
--   Updater/Handoff, Handoff/Paths: the hand-off document of `services/update_snapshot_service.py`
--     with `validate_handoff_document`. Updater/Checkpoint, Journal/Model: the statuses, checkpoints
--     and results of that file with `validate_invariants`. Updater/Journal: `UpdaterResultJournal`.
--     Journal/Inversion, Advance, Potential, System, Effects, Sound, Later: sequences of its calls.
--   Updater/Docker, Identity, Identity/Observe: containers as Docker reports them, and
--     `UpdaterDockerIdentityService` of `services/updater_recovery_decision_service.py`.
--   Updater/Candidate: `services/updater_candidate_service.py`.
--   Updater/Machine: what both machines share: the collaborators that their constructors take, the
--     world that a run changes, and the exceptions. Machine/Keeps, Tracks, Ensures: relations that a
--     run keeps, the journal's entry along a run, and what holds of a run that returns.
--   Updater/Forward, Forward/Effects: `UpdaterForwardV2` of `services/updater_forward_v2.py`.
--     Forward/Framed, Steps, Total, Runs, Outcome, Promises: what its rounds write, and its guarantees.
--   Updater/Rollback, Rollback/Rules, Effects: `UpdaterRollbackV2` of `services/updater_rollback_v2.py`.
--     Rollback/Framed, Total, Outcome, Runs, Reason, Failure, Promises, Settled: likewise.
--   Tests, Examples and Worker/Stopping: concrete rows, and the theorems applied to
--     them. Updater/Examples runs both machines on a small Docker of its own.
--
-- How the code is rendered:
--   A transaction is atomic and SQLite runs one writer at a time, so an interleaving of workers is a
--   sequence of transactions. An error carries no tables, since the rollback restores those of before.
--   Objects of a session are read at the moment of the call; a session that holds a stale object is
--   not modelled. Moments and durations are numbers of microseconds. The clock and the tokens that
--   `secrets` and `uuid` draw are arguments; where a guarantee needs a token to be new, it says so.
--   `_duration_ms` converts by a float: that conversion is the parameter `to_ms`, on which nothing
--   depends. Statuses are closed types because CHECK constraints or Literal types close them.
--   The updater's machines are state passing with exceptions: an exception keeps what was written
--   before it. The world of a run is the journal's directory, the candidate's marker and what lies
--   outside. Docker's engine, the verifiers, the commit waiter, the snapshot service, the fault hook,
--   SHA-256, the clock, the drawn token and the hand-off's file are the fields of `Collaborators`: a
--   call of them may answer anything and may raise, and one that acts may change what lies outside in
--   any way. During a run nobody else writes the journal (the process lock) or the marker. The
--   journal is a
--   function from operation ids to results, as a result is written and read whole; the codecs of
--   JSON and the size limit of a result are left out. Of a container the fields are kept that the code
--   reads, a field of another type than the code asks for being a missing one. Relevant containers are
--   inspected in the order of Docker's list, where the source sorts their ids. Unicode's tables
--   (`isalnum`, `upper`, `lower`, `strip`, decimal digits) are a parameter.
--   The candidate's marker is written in one step that succeeds where there is none.
--   Loops are structural recursion over a list or a count, except for the two `while` loops of the
--   machines. These run on a number of rounds, twelve forward and eleven back. That is enough: each
--   round that does not raise moves the result on, by a checkpoint or by a status, and a potential of
--   the two rises with every such move and is bounded.
--
-- Not modelled: the asyncio loop and the heartbeat thread of the worker, which only repeat the
-- transactions; the handlers' own work (`task_engine/scan_handler.py`, `transfer_handler.py`); the
-- reading of the marker file of the gate, whose three results are a parameter; the copying and the
-- manifests of `UpdateSnapshotService`; the first protocol of the updater
-- (`services/updater_state_machine.py`), its coordinator and process lock; extraction and writing of
-- the hand-off and the installation; errors of the operating system while the journal or the marker is written;
-- HTTP clients, API, migrations and the frontend.
pub mod Prelude
pub mod Tasks
pub mod Worker
pub mod Cutover
pub mod Enqueue
pub mod Updates
pub mod Updater
