-- ===== src/Tasks/Life/Steps.antt =====
-- The refinement: every transaction of the repository is, for each task, one step of a machine that is
-- described without the repository's rows and tests.
use media_sync.Prelude.{
  ℕ, ◌+◌, ◌<◌, ◌≤◌, String, ◌≡◌, ◌≢◌, refl, true, false, Option, none, some, ◌⊎◌, arith, coalesce,
}
use media_sync.Tasks.Status.{TaskStatus, pending, running, cancel_requested, status_eq→≡}
use media_sync.Tasks.Model.{Task, Store}
use media_sync.Tasks.Transitions.{can_transition}
use media_sync.Tasks.Session.{find_task}
use media_sync.Tasks.Repository.Values.{TransitionArgs, transition_row, needs_ownership}
use media_sync.Tasks.Repository.Finish.{FinishArgs}
use media_sync.Tasks.Invariant.{Inv}
use media_sync.Tasks.System.{Step}
use media_sync.Tasks.TaskStep.{
  TaskStep, stays, appears, moves, claimed, extended, ended, expired, ClaimsOnly, Step-TaskStep,
}
use media_sync.Tasks.Life.{
  SameWork, IsUnowned, IsHeldBy, IsReady, IsClaimed, IsExtended, IsEnded, IsRecovered,
}
use media_sync.Tasks.Life.Rows.{
  clear-IsUnowned, still_claimable-IsReady, claim_row-IsClaimed, held-IsHeldBy,
  extend_row-IsExtended, finish_row-IsEnded, recover_row-IsRecovered, lease-IsOverdue,
}

-- A change of status without a worker: it is allowed, and a task that a worker may hold is only asked
-- to stop. Who holds the task, and its count of retries, stay.
pub record IsMoved (from to : TaskStatus) (t t' : Task) : Type 0 where
  pub same : SameWork t t'
  pub old : t.status ≡ from
  pub new : t'.status ≡ to
  pub unclaimed : to ≢ running
  pub left : ((from ≢ running) × (from ≢ cancel_requested)) ⊎ (to ≡ cancel_requested)
  pub worker : t'.locked_by ≡ t.locked_by
  pub token : t'.lock_token ≡ t.lock_token
  pub lease : t'.lease_until ≡ t.lease_until
  pub retries : t'.retry_count ≡ t.retry_count

-- One step in the life of a task; a lock token that a claim writes satisfies `Token`.
pub data LifeStep (Token : String → Type 0) : Option Task → Option Task → Type 0 where
  rests : {o : Option Task} → LifeStep Token o o
  born : (t : Task) → IsUnowned t → t.status ≡ pending → LifeStep Token none (some t)
  moved :
      (t t' : Task) (from to : TaskStatus)
      → can_transition from to ≡ true
      → IsMoved from to t t'
      → LifeStep Token (some t) (some t')
  taken :
      (t t' : Task) (worker_id lock_token : String) (now until : ℕ)
      → Token lock_token
      → IsReady now t
      → IsClaimed worker_id lock_token now until t t'
      → LifeStep Token (some t) (some t')
  kept :
      (t t' : Task) (worker_id lock_token : String) (until now later : ℕ)
      → IsHeldBy worker_id lock_token until t
      → now < until
      → IsExtended later t t'
      → LifeStep Token (some t) (some t')
  finished :
      (t t' : Task) (a : FinishArgs) (until now : ℕ)
      → IsHeldBy a.worker_id a.lock_token until t
      → now < until
      → t.status ≡ a.expected_task_status
      → IsEnded a (coalesce a.finished_at now) t t'
      → LifeStep Token (some t) (some t')
  recovered :
      (t t' : Task) (worker_id lock_token : String) (until now : ℕ) (next : Option ℕ)
      → IsHeldBy worker_id lock_token until t
      → until ≤ now
      → IsRecovered next now t t'
      → LifeStep Token (some t) (some t')

transition_row-IsMoved :
    (a : TransitionArgs) (now : ℕ) (t : Task)
    → t.status ≡ a.expected_status
    → needs_ownership a.expected_status a.target_status ≡ false
    → IsMoved a.expected_status a.target_status t (transition_row a now t)
unfolding transition_row
transition_row-IsMoved a now t old unowned = record {
  same = record {
    id = refl;
    type = refl;
    trigger = refl;
    account = refl;
    subscription = refl;
    file = refl;
    version = refl;
    payload = refl;
    key = refl;
    priority = refl;
    budget = refl;
    since = refl;
  };
  old = old;
  new = refl;
  unclaimed = ground arith;
  left = ground arith;
  worker = refl;
  token = refl;
  lease = refl;
  retries = refl;
}

TaskStep-LifeStep :
    {Token : String → Type 0} {o o' : Option Task} → TaskStep Token o o' → LifeStep Token o o'
TaskStep-LifeStep {o = o} (stays e) = rw e rests
TaskStep-LifeStep (appears t c p e e') = rw (e, e') (born t (clear-IsUnowned t c) p)
TaskStep-LifeStep (moves t a now same allowed unowned e e') =
    rw (e, e')
      (moved t _ a.expected_status a.target_status allowed
        (transition_row-IsMoved a now t same unowned))
TaskStep-LifeStep (claimed t w k now until token allowed e e') =
    rw (e, e')
      (taken t _ w k now until token (still_claimable-IsReady now t allowed)
        (claim_row-IsClaimed w k now until t))
TaskStep-LifeStep (extended t w k duration now leased held e e') =
    let (until, holder, alive) = held-IsHeldBy w k now t held in
    rw (e, e')
      (kept t _ w k until now (now + duration) holder alive (extend_row-IsExtended duration now t))
TaskStep-LifeStep (ended t a clock fits allowed left e e') =
    let (until, holder, alive) =
      held-IsHeldBy a.worker_id a.lock_token clock t (ground (arith, fits)) in
    rw (e, e')
      (finished t _ a until clock holder alive
        (status_eq→≡ t.status a.expected_task_status (ground (arith, fits)))
        (finish_row-IsEnded a clock t left))
TaskStep-LifeStep (expired t lease next now due leased e e') =
    let over = lease-IsOverdue lease now t due in
    rw (e, e')
      (recovered t _ lease.worker_id lease.lock_token over.until now next
        (record { worker = over.worker; token = over.token; lease = over.lease_until }) over.past
        (recover_row-IsRecovered next now t leased))

-- On tables in order (`Inv`), and with the lock tokens of claims satisfying `Token`, every transaction
-- of the repository that succeeds is, at every task, one step of the machine `LifeStep`: a birth, an
-- allowed change of status that takes no worker's task away, a claim of a ready task, or a heartbeat,
-- an end or a recovery, of which the first two need the worker's token and a lease that has not run
-- out, and the third one that has.
pub Step-LifeStep :
    (Token : String → Type 0) (to_ms : ℕ → ℕ) (s s' : Store)
    → Inv s
    → (step : Step to_ms s s') → ClaimsOnly Token step
    → (j : ℕ) → LifeStep Token (find_task j s.tasks) (find_task j s'.tasks)
Step-LifeStep Token to_ms s s' v step c j =
    TaskStep-LifeStep (Step-TaskStep Token to_ms s s' v step c j)
