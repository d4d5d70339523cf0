-- ===== src/Tasks/System.antt =====
-- The task engine as a system: every transaction that the repository offers is a step, in any order
-- and by any worker. `claim_next` gets its lock token from outside.
use media_sync.Prelude.{ℕ, String, ◌≡◌, refl, true, Option, none, List, [], inl, inr, arith}
use media_sync.Tasks.Status.{TaskStatus, running, status_eq}
use media_sync.Tasks.Model.{Task, TaskRun, Store, ownership_is_complete}
use media_sync.Tasks.Session.{ok, find_task, find_run}
use media_sync.Tasks.Repository.Values.{TransitionArgs, transition}
use media_sync.Tasks.Repository.Create.{create_task}
use media_sync.Tasks.Repository.Claim.{TaskClaim, claim_next, heartbeat}
use media_sync.Tasks.Repository.Finish.{FinishArgs, finish_run}
use media_sync.Tasks.Repository.Recover.{
  ExpiredTaskLease, RecoveredTaskLease, recover_expired_lease,
}
use media_sync.Tasks.Repository.Legacy.{ReconciledLegacyTask, reconcile_legacy_orphan}
use media_sync.Tasks.Rows.{active_runs}
use media_sync.Tasks.Ending.{IsSound-IsLinked}
use media_sync.Tasks.Invariant.{IsLinked, Inv}
use media_sync.Tasks.Invariant.Transition.{IsDraft, create_task-Inv, transition-Inv}
use media_sync.Tasks.Invariant.Claim.{claim_next-Inv}
use media_sync.Tasks.Invariant.Heartbeat.{heartbeat-Inv}
use media_sync.Tasks.Invariant.Finish.{finish_run-Inv}
use media_sync.Tasks.Invariant.Recover.{recover-Inv}
use media_sync.Tasks.Invariant.Legacy.{reconcile-effect}

-- `to_ms` is the conversion of `_duration_ms`.
pub data Step (to_ms : ℕ → ℕ) (s s' : Store) : Type 0 where
  creates :
      (given : Option TaskStatus) (draft x : Task)
      → IsDraft draft
      → create_task given draft s ≡ ok (x, s')
      → Step to_ms s s'
  transitions :
      (clock i : ℕ) (a : TransitionArgs) (x : Task)
      → transition clock i a s ≡ ok (x, s')
      → Step to_ms s s'
  claims :
      (w k : String) (duration now : ℕ) (x : Option TaskClaim)
      → claim_next w k duration now s ≡ ok (x, s')
      → Step to_ms s s'
  beats :
      (i : ℕ) (w k : String) (duration now : ℕ) (x : Task × TaskRun)
      → heartbeat i w k duration now s ≡ ok (x, s')
      → Step to_ms s s'
  finishes :
      (clock i k : ℕ) (a : FinishArgs) (x : Task × TaskRun)
      → finish_run clock i k a s ≡ ok (x, s')
      → Step to_ms s s'
  recovers :
      (lease : ExpiredTaskLease) (next : Option ℕ) (now : ℕ) (x : Option RecoveredTaskLease)
      → recover_expired_lease lease next now s ≡ ok (x, s')
      → Step to_ms s s'
  reconciles :
      (i next now : ℕ) (x : Option ReconciledLegacyTask)
      → reconcile_legacy_orphan to_ms i next now s ≡ ok (x, s')
      → Step to_ms s s'

pub data Reach (to_ms : ℕ → ℕ) (s : Store) : Store → Type 0 where
  here : Reach to_ms s s
  after : {t u : Store} → Reach to_ms s t → Step to_ms t u → Reach to_ms s u

abbrev pub empty_store : Store
empty_store = record { tasks = []; runs = []; next_task_id = 1; next_run_id = 1 }

-- Where the invariant holds there is no orphan.
pub no-orphan :
    (t : Task) (rs : List TaskRun)
    → IsLinked t rs
    → status_eq t.status running ≡ true
    → ownership_is_complete t ≡ true
no-orphan t rs v h = ground (arith, v.whole, v.free)

-- On tables in order the legacy reconciliation, where it does not fail, reconciles nothing and changes
-- nothing.
pub reconcile-noop :
    (to_ms : ℕ → ℕ) (i next now : ℕ) (s s' : Store) (x : Option ReconciledLegacyTask)
    → Inv s
    → reconcile_legacy_orphan to_ms i next now s ≡ ok (x, s')
    → (x ≡ none) × (s' ≡ s)
reconcile-noop to_ms i next now s s' x v h = elim (reconcile-effect to_ms i next now s s' x h) [
  | inl idle ↦ idle
  | inr e ↦
      let owned = no-orphan e.old _ (IsSound-IsLinked i s e.old (v.sound i) e.found) e.runs_on in
      absurd (ground (arith, owned, e.incomplete))
]

pub Step-Inv : (to_ms : ℕ → ℕ) (s s' : Store) → Step to_ms s s' → Inv s → Inv s'
Step-Inv to_ms s s' (creates given draft x d h) v = create_task-Inv given draft s s' x d v h
Step-Inv to_ms s s' (transitions clock i a x h) v = transition-Inv clock i a s s' x v h
Step-Inv to_ms s s' (claims w k duration now x h) v = claim_next-Inv w k duration now s s' x v h
Step-Inv to_ms s s' (beats i w k duration now x h) v = heartbeat-Inv i w k duration now s s' x v h
Step-Inv to_ms s s' (finishes clock i k a x h) v = finish_run-Inv clock i k a s s' x v h
Step-Inv to_ms s s' (recovers lease next now x h) v = recover-Inv lease next now s s' x v h
Step-Inv to_ms s s' (reconciles i next now x h) v =
    rw (reconcile-noop to_ms i next now s s' x v h).1 v

pub empty_store-Inv : Inv empty_store
unfolding find_task find_run active_runs
empty_store-Inv = record {
  sound = λ i. refl;
  fresh_task = λ i h. refl;
  fresh_run = λ i h. refl;
  keys = tt;
  task_keys = tt;
}

pub Reach-keeps : (to_ms : ℕ → ℕ) {s s' : Store} → Inv s → Reach to_ms s s' → Inv s'
Reach-keeps to_ms v here = v
Reach-keeps to_ms v (after {t} {u} r step) = Step-Inv to_ms t u step (Reach-keeps to_ms v r)

-- In every store that any sequence of transactions leads to, each task has at most one running run,
-- the run of the worker that holds its lease; a task that nobody holds has none and does not run;
-- ownership is all or nothing; completed_at and blocked_at are set exactly in the terminal statuses
-- and in waiting_credential.
pub Reach-Inv : (to_ms : ℕ → ℕ) {s' : Store} → Reach to_ms empty_store s' → Inv s'
Reach-Inv to_ms r = Reach-keeps to_ms empty_store-Inv r
