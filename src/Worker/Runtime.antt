-- ===== src/Worker/Runtime.antt =====
-- `WorkerRuntime` of `task_engine/worker.py`. Each transaction is a step on the tables; what the
-- handler does in between, and which token is drawn, come from outside.
use media_sync.Prelude.{
  ℕ, ◌+◌, String, Bool, true, false, ◌&&◌, not, Option, none, some, List, [], ◌∷◌, if◌then◌else◌,
  ltb, leb, is_empty, is_some, is_after, holds,
}
use media_sync.Tasks.Status.{cancel_requested, status_eq}
use media_sync.Tasks.Model.{Task, TaskRun}
use media_sync.Tasks.Transitions.{ownership_lost}
use media_sync.Tasks.Session.{M, ◌>>=◌, ◌>>◌, guard, pure, raise, get, find_task}
use media_sync.Tasks.Repository.Claim.{claim_next, heartbeat}
use media_sync.Tasks.Repository.Recover.{
  ExpiredTaskLease, list_expired_leases, recover_expired_lease,
}
use media_sync.Worker.Backoff.{ExponentialBackoff, delay_for}
use media_sync.Worker.Outcome.{TaskInvocation, from_task}

-- The settings of a worker; durations in microseconds.
pub record Config : Type 0 where
  pub worker_id : String
  pub lease_duration : ℕ
  pub heartbeat_interval : ℕ
  pub recovery_limit : ℕ
  pub backoff : ExponentialBackoff

-- The checks of `__init__`.
abbrev pub is_valid_config : Config → Bool
is_valid_config c =
    not (is_empty c.worker_id)
    && ltb 0 c.lease_duration
    && ltb 0 c.heartbeat_interval
    && ltb c.heartbeat_interval c.lease_duration
    && leb 1 c.recovery_limit
    && leb c.recovery_limit 1000

pub record ClaimedExecution : Type 0 where
  pub invocation : TaskInvocation
  pub lock_token : String

-- The loop of `_recover_and_claim` over the expired leases: how many were recovered.
unfoldable pub recover_all : Config → ℕ → List ExpiredTaskLease → M ℕ
recover_all c now [] = pure 0
recover_all c now (lease ∷ leases) = do
  recovered ← recover_expired_lease lease (some (now + delay_for c.backoff lease.retry_count)) now
  rest ← recover_all c now leases
  pure (if is_some recovered then rest + 1 else rest)

-- `_recover_and_claim`; `blocked` is the verdict of the update gate on the same session, and
-- `lock_token` the token that a claim draws.
unfoldable pub recover_and_claim :
    Config → ℕ → String → Bool → M (Option ClaimedExecution × ℕ × Bool)
recover_and_claim c now lock_token blocked = do
  leases ← list_expired_leases c.recovery_limit now
  recovered_count ← recover_all c now leases
  if blocked then pure (none, recovered_count, true) else (do
    claim ← claim_next c.worker_id lock_token c.lease_duration now
    elim claim [
      | none ↦ pure (none, recovered_count, false)
      | some k ↦ pure (
        some (record { invocation = from_task k.task k.task_run.id; lock_token = k.lock_token }),
        recovered_count,
        false,
      )
    ])

-- `_heartbeat`
unfoldable pub beat : Config → ClaimedExecution → ℕ → M (Task × TaskRun)
beat c claimed now =
    heartbeat claimed.invocation.task_id c.worker_id claimed.lock_token c.lease_duration now

-- `_read_cancellation`
unfoldable pub read_cancellation : Config → ClaimedExecution → ℕ → M Bool
read_cancellation c claimed now = do
  s ← get
  elim (find_task claimed.invocation.task_id s.tasks) [
    | none ↦ raise (ownership_lost claimed.invocation.task_id c.worker_id)
    | some t ↦ (do
      guard
          (holds t.locked_by c.worker_id
            && holds t.lock_token claimed.lock_token
            && is_after t.lease_until now)
          (ownership_lost claimed.invocation.task_id c.worker_id)
      pure (status_eq t.status cancel_requested))
  ]
