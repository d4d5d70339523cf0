-- ===== src/Worker/Verdict.antt =====
-- What `_finish` decides, for every outcome a handler can return.
use media_sync.Prelude.{
  ℕ, ◌+◌, ◌≡◌, refl, sym, subst, true, false, ◌||◌, not, some, [], ◌∷◌, if◌then◌else◌, ltb, leb,
  is_empty, coalesce, arith, Bool-cases, inl, inr, min, ◌∙◌, ap,
}
use media_sync.Tasks.Status.{TaskStatus, RunStatus, running, pending, status_eq, status_eq→≡}
use media_sync.Tasks.Json.{is_continuation}
use media_sync.Tasks.Model.{Task, TaskRun, Store}
use media_sync.Tasks.Session.{ok, find_task}
use media_sync.Tasks.Transitions.{can_transition}
use media_sync.Tasks.Repository.Claim.{is_held}
use media_sync.Tasks.Repository.Finish.{
  finish_run, validate_finish, finish_row, finish_run_row, task_to_run_status,
}
use media_sync.Tasks.Repository.Values.{validate_transition}
use media_sync.Tasks.Rows.{active_runs, find_task-id}
use media_sync.Tasks.Invariant.{Inv}
use media_sync.Tasks.Owner.{finish_run-total}
use media_sync.Worker.Backoff.{is_valid_backoff, delay_for, bounded}
use media_sync.Worker.Backoff.Bounds.{delay_for_bounds}
use media_sync.Worker.Outcome.{OutcomeStatus, outcome_eq, TaskOutcome, is_valid_outcome}
use media_sync.Worker.Runtime.{Config, ClaimedExecution}
use media_sync.Worker.Finishing.{
  FinishPlan, plain_plan, one_second, plan_finish, plan_retry, finish_args, reconcile_outcome,
  finish,
}

-- The status that a running task should end in: a retry while the budget lasts.
abbrev pub verdict : Task → OutcomeStatus → TaskStatus
verdict t OutcomeStatus.success = TaskStatus.success
verdict t OutcomeStatus.failed = TaskStatus.failed
verdict t OutcomeStatus.retry =
    if leb (t.retry_count + 1) t.max_retries then TaskStatus.retry else TaskStatus.failed
verdict t OutcomeStatus.waiting_credential = TaskStatus.waiting_credential
verdict t OutcomeStatus.deferred = pending
verdict t OutcomeStatus.cancelled = TaskStatus.cancelled

-- A plan that `finish_run` accepts for a running task.
record GoodPlan (c : Config) (claimed : ClaimedExecution) (now duration_ms : ℕ) (t : Task)
    (o : TaskOutcome) (s : Store) : Type 0 where
  plan : FinishPlan
  planned : plan_finish c now t o o.status s ≡ ok (plan, s)
  decided : plan.task_status ≡ verdict t o.status
  accepted : validate_finish (finish_args c claimed now running o duration_ms plan) s ≡ ok (tt, s)

retry-delay :
    (c : Config) (t : Task) (o : TaskOutcome)
    → is_valid_backoff c.backoff ≡ true
    → is_valid_outcome o ≡ true
    → bounded c.backoff (coalesce o.retry_after (delay_for c.backoff t.retry_count))
      ≡ some (min (coalesce o.retry_after (delay_for c.backoff t.retry_count)) c.backoff.max_delay)
unfolding bounded is_valid_outcome
retry-delay c t o valid fits = ground (arith, delay_for_bounds c.backoff t.retry_count valid)

module _ (c : Config) (claimed : ClaimedExecution) (now duration_ms : ℕ) (t : Task)
    (o : TaskOutcome) (s : Store) (w : is_empty c.worker_id ≡ false)
    (k : is_empty claimed.lock_token ≡ false) where
  plan-success : o.status ≡ OutcomeStatus.success → GoodPlan c claimed now duration_ms t o s
  unfolding plan_finish validate_finish validate_transition can_transition task_to_run_status
  plan-success e = record {
    plan = plain_plan TaskStatus.success RunStatus.success;
    planned = rw e refl;
    decided = rw e refl;
    accepted = ground (arith, e);
  }

  plan-failed : o.status ≡ OutcomeStatus.failed → GoodPlan c claimed now duration_ms t o s
  unfolding plan_finish validate_finish validate_transition can_transition task_to_run_status
  plan-failed e = record {
    plan = plain_plan TaskStatus.failed RunStatus.failed;
    planned = rw e refl;
    decided = rw e refl;
    accepted = ground (arith, e);
  }

  plan-waiting :
      o.status ≡ OutcomeStatus.waiting_credential → GoodPlan c claimed now duration_ms t o s
  unfolding plan_finish validate_finish validate_transition can_transition task_to_run_status
  plan-waiting e = record {
    plan = plain_plan TaskStatus.waiting_credential RunStatus.blocked;
    planned = rw e refl;
    decided = rw e refl;
    accepted = ground (arith, e);
  }

  plan-deferred :
      o.status ≡ OutcomeStatus.deferred
      → is_continuation o.metrics ≡ true
      → GoodPlan c claimed now duration_ms t o s
  unfolding plan_finish validate_finish validate_transition can_transition task_to_run_status
  plan-deferred e cont = record {
    plan = record {
      task_status = pending;
      run_status = RunStatus.success;
      next_attempt_at = some (now + coalesce o.retry_after one_second);
    };
    planned = rw e (ground (arith, cont));
    decided = rw e refl;
    accepted = ground (arith, e, cont);
  }

  plan-exhausted :
      o.status ≡ OutcomeStatus.retry
      → ltb t.max_retries (t.retry_count + 1) ≡ true
      → GoodPlan c claimed now duration_ms t o s
  unfolding plan_finish plan_retry validate_finish validate_transition can_transition
      task_to_run_status
  plan-exhausted e out = record {
    plan = plain_plan TaskStatus.failed RunStatus.failed;
    planned = rw e (ground (arith, out));
    decided = rw e (ground (arith, out));
    accepted = ground (arith, e);
  }

  plan-again :
      o.status ≡ OutcomeStatus.retry
      → ltb t.max_retries (t.retry_count + 1) ≡ false
      → is_valid_backoff c.backoff ≡ true
      → is_valid_outcome o ≡ true
      → GoodPlan c claimed now duration_ms t o s
  unfolding plan_finish plan_retry validate_finish validate_transition can_transition
      task_to_run_status
  plan-again e left valid fits = record {
    plan = record {
      task_status = TaskStatus.retry;
      run_status = RunStatus.failed;
      next_attempt_at = some (
          now
          + min (coalesce o.retry_after (delay_for c.backoff t.retry_count)) c.backoff.max_delay);
    };
    planned = rw e (ground (arith, left, retry-delay c t o valid fits));
    decided = rw e (ground (arith, left));
    accepted = ground (arith, e);
  }

-- Every outcome but `cancelled`, which a running task may not have, and a deferral without a
-- continuation, which `_finish` refuses.
good-plan :
    (c : Config) (claimed : ClaimedExecution) (now duration_ms : ℕ) (t : Task) (o : TaskOutcome)
    (s : Store)
    → is_empty c.worker_id ≡ false
    → is_empty claimed.lock_token ≡ false
    → is_valid_backoff c.backoff ≡ true
    → is_valid_outcome o ≡ true
    → (status : OutcomeStatus) → o.status ≡ status
    → outcome_eq status OutcomeStatus.cancelled ≡ false
    → not (outcome_eq status OutcomeStatus.deferred) || is_continuation o.metrics ≡ true
    → GoodPlan c claimed now duration_ms t o s
good-plan c claimed now d t o s w k valid fits OutcomeStatus.success e nc cont =
    plan-success c claimed now d t o s w k e
good-plan c claimed now d t o s w k valid fits OutcomeStatus.failed e nc cont =
    plan-failed c claimed now d t o s w k e
good-plan c claimed now d t o s w k valid fits OutcomeStatus.retry e nc cont =
    elim (Bool-cases (ltb t.max_retries (t.retry_count + 1))) [
      | inl out ↦ plan-exhausted c claimed now d t o s w k e out
      | inr left ↦ plan-again c claimed now d t o s w k e left valid fits
    ]
good-plan c claimed now d t o s w k valid fits OutcomeStatus.waiting_credential e nc cont =
    plan-waiting c claimed now d t o s w k e
good-plan c claimed now d t o s w k valid fits OutcomeStatus.deferred e nc cont =
    plan-deferred c claimed now d t o s w k e cont
good-plan c claimed now d t o s w k valid fits OutcomeStatus.cancelled e nc cont =
    absurd (ground arith)

pub pair-eq : {A B : Type 0} {a a' : A} {b b' : B} → a ≡ a' → b ≡ b' → Path (A × B) (a, b) (a', b')
pair-eq e f = rw (e, f) refl

pub same-id : {q r : TaskRun} → q ∷ [] ≡ r ∷ [] → q.id ≡ r.id
same-id e = ground (arith, e)

finish-runs :
    (c : Config) (claimed : ClaimedExecution) (o : TaskOutcome) (duration_ms now clock : ℕ)
    (s s' : Store) (t u : Task) (q : TaskRun) (plan : FinishPlan)
    → find_task claimed.invocation.task_id s.tasks ≡ some t
    → status_eq t.status running ≡ true
    → is_held c.worker_id claimed.lock_token clock t ≡ true
    → plan_finish c now t o o.status s ≡ ok (plan, s)
    → finish_run clock t.id claimed.invocation.task_run_id
        (finish_args c claimed now t.status o duration_ms plan)
        s
      ≡ ok ((u, q), s')
    → finish c claimed o duration_ms now clock s ≡ ok (u.status, s')
unfolding finish reconcile_outcome
finish-runs c claimed o d now clock s s' t u q plan found runs_on held planned run =
    rw found (ground (arith, runs_on, held, planned, run))

-- The worker that holds the lease of a running task can always record the outcome of its handler:
-- with a valid backoff and a valid outcome, other than `cancelled` and other than a deferral without
-- a continuation, and with the claim naming the running run, `_finish` succeeds, and the task gets
-- the status that the outcome asks for, where a retry beyond the budget is a failure.
pub finish-total :
    (c : Config) (claimed : ClaimedExecution) (o : TaskOutcome) (duration_ms now clock : ℕ)
    (s : Store) (t : Task) (r : TaskRun)
    → is_empty c.worker_id ≡ false
    → is_empty claimed.lock_token ≡ false
    → is_valid_backoff c.backoff ≡ true
    → is_valid_outcome o ≡ true
    → outcome_eq o.status OutcomeStatus.cancelled ≡ false
    → not (outcome_eq o.status OutcomeStatus.deferred) || is_continuation o.metrics ≡ true
    → Inv s
    → find_task claimed.invocation.task_id s.tasks ≡ some t
    → status_eq t.status running ≡ true
    → is_held c.worker_id claimed.lock_token clock t ≡ true
    → active_runs claimed.invocation.task_id s.runs ≡ r ∷ []
    → r.id ≡ claimed.invocation.task_run_id
    → (s' : Store) × (finish c claimed o duration_ms now clock s ≡ ok (verdict t o.status, s'))
unfolding finish_row
finish-total c claimed o d now clock s t r w k valid fits nc cont v found runs_on held single
      named =
    let i = claimed.invocation.task_id in
    let good = good-plan c claimed now d t o s w k valid fits o.status refl nc cont in
    let a = finish_args c claimed now running o d good.plan in
    let on = status_eq→≡ t.status running runs_on in
    let key = find_task-id i s.tasks t found in
    let (q, only, ends, _) =
      finish_run-total clock i claimed.invocation.task_run_id a s t v found good.accepted
        (ground (arith, runs_on, held)) in
    let (s', run) = ends (same-id (sym only ∙ single) ∙ named) in
    let run' =
      subst
        (λ x.
          finish_run clock x.0 claimed.invocation.task_run_id
            (finish_args c claimed now x.1 o d good.plan) s
          ≡ ok ((finish_row a clock t, finish_run_row a clock q), s'))
        (pair-eq (sym key) (sym on)) run in
    (
      s',
      finish-runs c claimed o d now clock s s' t _ _ good.plan found runs_on held good.planned run'
          ∙ ap (λ x. ok (x, s')) good.decided,
    )
