-- ===== src/Tasks/History.antt =====
-- The run history: what the triggers of `models/task.py` forbid never happens.
use media_sync.Prelude.{
  ℕ, ◌+◌, ◌==◌, ◌≡◌, refl, Bool, true, false, ◌&&◌, some, List, arith, inl, inr, if◌then◌else◌,
}
use media_sync.Tasks.Status.{is_run_terminal}
use media_sync.Tasks.Model.{TaskRun, Store}
use media_sync.Tasks.Session.{find_run, put_runs}
use media_sync.Tasks.Repository.Claim.{is_owners_run, beat_row}
use media_sync.Tasks.Repository.Finish.{finish_run_row}
use media_sync.Tasks.Repository.Recover.{lost_row}
use media_sync.Tasks.Keys.{find_run-put_some, find_run-append_some}
use media_sync.Tasks.Invariant.{Inv}
use media_sync.Tasks.Invariant.Transition.{transition-effect, create_task-effect}
use media_sync.Tasks.Invariant.Claim.{claim_next-effect, run_of}
use media_sync.Tasks.Invariant.Heartbeat.{heartbeat-effect}
use media_sync.Tasks.Invariant.Finish.{finish_run-effect}
use media_sync.Tasks.Invariant.Recover.{recover-effect}
use media_sync.Tasks.System.{
  Step, creates, transitions, claims, beats, finishes, recovers, reconciles, reconcile-noop,
}

-- A run later: the same task and number, and the same row if it had ended.
pub record IsRecorded (r : TaskRun) (rs : List TaskRun) : Type 0 where
  pub later : TaskRun
  pub found : find_run r.id rs ≡ some later
  pub same_task : later.task_id ≡ r.task_id
  pub same_number : later.run_number ≡ r.run_number
  pub unchanged : is_run_terminal r.status ≡ true → later ≡ r

kept : (r : TaskRun) (rs : List TaskRun) → find_run r.id rs ≡ some r → IsRecorded r rs
kept r rs h = record {
  later = r;
  found = h;
  same_task = refl;
  same_number = refl;
  unchanged = λ e. refl;
}

-- A write to running runs only.
put-IsRecorded :
    (test : TaskRun → Bool) (set : TaskRun → TaskRun) (rs : List TaskRun) (r : TaskRun)
    → ((q : TaskRun)
        → ((set q).id ≡ q.id) × ((set q).task_id ≡ q.task_id) × ((set q).run_number ≡ q.run_number))
    → ((q : TaskRun) → test q ≡ true → is_run_terminal q.status ≡ false)
    → find_run r.id rs ≡ some r
    → IsRecorded r (put_runs test set rs)
put-IsRecorded test set rs r keeps running h = record {
  later = if test r then set r else r;
  found = find_run-put_some r.id test set rs r (λ q. (keeps q).0) h;
  same_task = ground (arith, keeps r);
  same_number = ground (arith, keeps r);
  unchanged = λ e. ground (arith, running r);
}

-- On tables in order, a transaction that succeeds keeps every run on record under its key, task and
-- number, and changes nothing of a run that has ended.
pub Step-IsRecorded :
    (to_ms : ℕ → ℕ) (s s' : Store) (r : TaskRun)
    → Inv s
    → Step to_ms s s'
    → find_run r.id s.runs ≡ some r
    → IsRecorded r s'.runs
unfolding finish_run_row lost_row
Step-IsRecorded to_ms s s' r v (creates given draft x d h) f =
    rw (create_task-effect given draft s s' x h).1 (kept r s.runs f)
Step-IsRecorded to_ms s s' r v (transitions clock i a x h) f =
    rw (transition-effect clock i a s s' x h).result (kept r s.runs f)
Step-IsRecorded to_ms s s' r v (claims w k duration now x h) f =
    elim (claim_next-effect w k duration now s s' x h) [
      | inl (_, same) ↦ rw same (kept r s.runs f)
      | inr (c, t, _, _, e) ↦
          rw e.result (
            kept r _
              (find_run-append_some r.id s.runs (run_of w k now (now + duration) t.id s) r f))
    ]
Step-IsRecorded to_ms s s' r v (beats i w k duration now x h) f =
    rw (heartbeat-effect i w k duration now s s' x h).result (
      put-IsRecorded (is_owners_run i w k) (beat_row now) s.runs r (λ q. (refl, refl, refl))
        (λ q e. ground arith) f)
Step-IsRecorded to_ms s s' r v (finishes clock i k a x h) f =
    rw (finish_run-effect clock i k a s s' x h).result (
      put-IsRecorded (λ q. (q.id == k) && is_owners_run i a.worker_id a.lock_token q)
        (finish_run_row a clock) s.runs r (λ q. (refl, refl, refl)) (λ q e. ground arith) f)
Step-IsRecorded to_ms s s' r v (recovers lease next now x h) f =
    elim (recover-effect lease next now s s' x h) [
      | inl (_, same) ↦ rw same (kept r s.runs f)
      | inr e ↦ rw e.result (
          put-IsRecorded (is_owners_run lease.task_id lease.worker_id lease.lock_token)
            (lost_row now) s.runs r (λ q. (refl, refl, refl)) (λ q k. ground arith) f)
    ]
Step-IsRecorded to_ms s s' r v (reconciles i next now x h) f =
    rw (reconcile-noop to_ms i next now s s' x v h).1 (kept r s.runs f)
