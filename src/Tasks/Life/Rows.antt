-- ===== src/Tasks/Life/Rows.antt =====
-- The rows that `repositories/tasks.py` writes are those that the engine promises.
use media_sync.Prelude.{
  ℕ, ◌+◌, ◌<◌, String, ◌≡◌, refl, Bool, true, false, Option, none, some, inl, inr, arith, coalesce,
  Option-cases, text_eq_refl, holds, is_due, ◌&&◌, ◌≤◌, holds→some,
}
use media_sync.Tasks.Status.{is_leased, status_eq, status_eq→≡}
use media_sync.Tasks.Model.{Task, TaskRun, ownership_is_clear}
use media_sync.Tasks.Repository.Claim.{
  is_claimable, is_still_claimable, is_held, claim_row, extend_row,
}
use media_sync.Tasks.Repository.Finish.{FinishArgs, finish_row, finish_run_row}
use media_sync.Tasks.Repository.Recover.{
  ExpiredTaskLease, is_lease, recovery_status, recover_row, lost_row,
}
use media_sync.Tasks.Life.{
  IsUnowned, IsHeldBy, IsReady, IsClaimed, IsExtended, IsEnded, IsEndedRun, IsRecovered, IsLost,
  IsOverdue,
}

pub clear-IsUnowned : (t : Task) → ownership_is_clear t ≡ true → IsUnowned t
clear-IsUnowned t h = record {
  worker = ground arith;
  token = ground arith;
  moment = ground arith;
  lease = ground arith;
}

pub IsUnowned-clear : (t : Task) → IsUnowned t → ownership_is_clear t ≡ true
IsUnowned-clear t h = ground (arith, h.worker, h.token, h.moment, h.lease)

pub still_claimable-IsReady : (now : ℕ) (t : Task) → is_still_claimable now t ≡ true → IsReady now t
still_claimable-IsReady now t h = record {
  free = clear-IsUnowned t (ground arith);
  waits = ground arith;
}

pub claimable-IsReady : (now : ℕ) (t : Task) → is_claimable now t ≡ true → IsReady now t
claimable-IsReady now t h = record { free = clear-IsUnowned t (ground arith); waits = ground arith }

pub IsReady-claimable : (now : ℕ) (t : Task) → IsReady now t → is_claimable now t ≡ true
IsReady-claimable now t h = ground (arith, IsUnowned-clear t h.free, h.waits)

pub claim_row-IsClaimed :
    (w k : String) (now until : ℕ) (t : Task)
    → IsClaimed w k now until t (claim_row w k now until t)
unfolding claim_row
claim_row-IsClaimed w k now until t = record {
  same = record {
    id = refl;
    type = refl;
    trigger = refl;
    account = refl;
    subscription = refl;
    file = refl;
    version = refl;
    payload = refl;
    key = refl;
    priority = refl;
    budget = refl;
    since = refl;
  };
  held = record { worker = refl; token = refl; lease = refl };
  moment = refl;
  retries = refl;
  unscheduled = refl;
  status = ground arith;
}

pub held-IsHeldBy :
    (w k : String) (now : ℕ) (t : Task)
    → is_held w k now t ≡ true
    → (until : ℕ) × IsHeldBy w k until t × (now < until)
held-IsHeldBy w k now t h =
    let worker = holds→some t.locked_by w (ground arith) in
    let token = holds→some t.lock_token k (ground arith) in
    elim (Option-cases t.lease_until) [
      | inl unset ↦ absurd (ground arith)
      | inr (u, set) ↦ (u, record { worker = worker; token = token; lease = set }, ground arith)
    ]

pub extend_row-IsExtended :
    (duration now : ℕ) (t : Task) → IsExtended (now + duration) t (extend_row duration now t)
extend_row-IsExtended duration now t = record {
  same = record {
    id = refl;
    type = refl;
    trigger = refl;
    account = refl;
    subscription = refl;
    file = refl;
    version = refl;
    payload = refl;
    key = refl;
    priority = refl;
    budget = refl;
    since = refl;
  };
  worker = refl;
  token = refl;
  lease = refl;
  status = refl;
  retries = refl;
}

pub finish_row-IsEnded :
    (a : FinishArgs) (clock : ℕ) (t : Task)
    → is_leased a.task_status ≡ false
    → IsEnded a (coalesce a.finished_at clock) t (finish_row a clock t)
unfolding finish_row
finish_row-IsEnded a clock t h = record {
  same = record {
    id = refl;
    type = refl;
    trigger = refl;
    account = refl;
    subscription = refl;
    file = refl;
    version = refl;
    payload = refl;
    key = refl;
    priority = refl;
    budget = refl;
    since = refl;
  };
  free = record { worker = refl; token = refl; moment = refl; lease = refl };
  status = refl;
  error_code = refl;
  error_message = refl;
  completed = ground arith;
  scheduled = ground arith;
  blocked = ground arith;
  retries = ground arith;
}

pub finish_run_row-IsEndedRun :
    (a : FinishArgs) (clock : ℕ) (r : TaskRun)
    → IsEndedRun a (coalesce a.finished_at clock) r (finish_run_row a clock r)
unfolding finish_run_row
finish_run_row-IsEndedRun a clock r = record {
  same = record {
    id = refl;
    task = refl;
    number = refl;
    worker = refl;
    token = refl;
    since = refl;
  };
  status = refl;
  finished = refl;
  duration = refl;
  summary = refl;
  error_code = refl;
  error_message = refl;
  metrics = elim (Option-cases a.metrics) [
    | inl kept ↦ inl (kept, rw kept refl)
    | inr (f, given) ↦ inr (f, given, rw given refl)
  ];
}

pub recover_row-IsRecovered :
    (next : Option ℕ) (now : ℕ) (t : Task)
    → is_leased t.status ≡ true
    → IsRecovered next now t (
        recover_row
          (recovery_status t.status (t.retry_count + 1) t.max_retries)
          (t.retry_count + 1)
          next
          now
          t)
unfolding recover_row recovery_status
recover_row-IsRecovered next now t h = record {
  same = record {
    id = refl;
    type = refl;
    trigger = refl;
    account = refl;
    subscription = refl;
    file = refl;
    version = refl;
    payload = refl;
    key = refl;
    priority = refl;
    budget = refl;
    since = refl;
  };
  free = record { worker = refl; token = refl; moment = refl; lease = refl };
  retries = refl;
  error_code = refl;
  verdict = ground arith;
}

pub lost_row-IsLost : (now : ℕ) (r : TaskRun) → IsLost now r (lost_row now r)
unfolding lost_row
lost_row-IsLost now r = record {
  same = record {
    id = refl;
    task = refl;
    number = refl;
    worker = refl;
    token = refl;
    since = refl;
  };
  status = refl;
  finished = refl;
  error_code = refl;
}

four_tests :
    (a b c d : Bool) → (a && b && c && d) ≡ true → (a ≡ true) × (b ≡ true) × (c ≡ true) × (d ≡ true)
four_tests a b c d h = ground arith

due_moment : (o : Option ℕ) (now : ℕ) → is_due o now ≡ true → (u : ℕ) × (o ≡ some u) × (u ≤ now)
due_moment none now h = absurd (ground arith)
due_moment (some u) now h = (u, refl, ground arith)

pub lease-IsOverdue :
    (lease : ExpiredTaskLease) (now : ℕ) (t : Task)
    → is_lease lease now t ≡ true
    → IsOverdue lease now t
lease-IsOverdue lease now t h =
    let (same, worker, token, due) =
      four_tests (status_eq t.status lease.status) (holds t.locked_by lease.worker_id)
        (holds t.lock_token lease.lock_token) (is_due t.lease_until now) h in
    let (u, set, past) = due_moment t.lease_until now due in
    record {
      status = status_eq→≡ t.status lease.status same;
      worker = holds→some t.locked_by lease.worker_id worker;
      token = holds→some t.lock_token lease.lock_token token;
      until = u;
      lease_until = set;
      past = past;
    }

pub IsOverdue-lease :
    (lease : ExpiredTaskLease) (now : ℕ) (t : Task)
    → IsOverdue lease now t
    → is_lease lease now t ≡ true
IsOverdue-lease lease now t h =
    rw
      (
        h.status,
        h.worker,
        h.token,
        h.lease_until,
        text_eq_refl lease.worker_id,
        text_eq_refl lease.lock_token,
      )
      (ground (arith, h.past))

pub IsHeldBy-held :
    (w k : String) (now until : ℕ) (t : Task)
    → IsHeldBy w k until t
    → now < until
    → is_held w k now t ≡ true
IsHeldBy-held w k now until t h alive =
    rw (h.worker, h.token, h.lease, text_eq_refl w, text_eq_refl k) (ground arith)
