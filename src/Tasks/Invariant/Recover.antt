-- ===== src/Tasks/Invariant/Recover.antt =====
-- `recover_expired_lease` keeps the invariant.
use media_sync.Prelude.{
  ℕ, ◌+◌, ◌≡◌, refl, Bool, true, Option, none, some, List, [], first, arith, inl, inr, ◌⊎◌,
  Option-cases, Bool-cases, ==-refl,
}
use media_sync.Tasks.Status.{TaskStatus, is_leased}
use media_sync.Tasks.Model.{Task, TaskRun, Store, ownership_is_complete}
use media_sync.Tasks.Session.{
  ok, find_task, put_task, put_runs, require_task, require_task_run, update_task, update_runs,
}
use media_sync.Tasks.Repository.Claim.{is_owners_run}
use media_sync.Tasks.Repository.Recover.{
  ExpiredTaskLease, RecoveredTaskLease, is_lease, recovery_status, recover_row, lost_row,
  mark_task_run_lost, recover_writes, recover_expired_lease,
}
use media_sync.Tasks.Rows.{find_task-put}
use media_sync.Tasks.Ending.{IsSound-IsLinked, active_runs-ended}
use media_sync.Tasks.Invariant.{IsLinked, IsSound, Inv}
use media_sync.Tasks.Frame.{Touches, Touches-trans, Touches-Inv, put_task-Touches, put_runs-Touches}

module _ (lease : ExpiredTaskLease) (next : Option ℕ) (now : ℕ) where
  abbrev pub target : Task → TaskStatus
  target t = recovery_status t.status (t.retry_count + 1) t.max_retries

  abbrev ends : TaskRun → Bool
  ends = is_owners_run lease.task_id lease.worker_id lease.lock_token

  pub record RecoverEffect (s s' : Store) : Type 0 where
    pub old : Task
    pub found : find_task lease.task_id s.tasks ≡ some old
    pub expired : is_lease lease now old ≡ true
    pub run : TaskRun
    pub ended : first ends s.runs ≡ some run
    pub result : s' ≡ record s {
      tasks =
          put_task lease.task_id (recover_row (target old) (old.retry_count + 1) next now) s.tasks;
      runs = put_runs ends (lost_row now) s.runs;
    }

  -- A lease that is no longer current is left alone; any other is recovered.
  pub recover-effect :
      (s s' : Store) (x : Option RecoveredTaskLease)
      → recover_expired_lease lease next now s ≡ ok (x, s')
      → (x ≡ none) × (s' ≡ s) ⊎ RecoverEffect s s'
  unfolding recover_expired_lease recover_writes mark_task_run_lost update_task update_runs
      require_task require_task_run
  recover-effect s s' x h = elim (Option-cases (find_task lease.task_id s.tasks)) [
    | inl absent ↦ inl (ground arith, ground arith)
    | inr (t, found) ↦ elim (Bool-cases (is_lease lease now t)) [
      | inr other ↦ inl (ground arith, ground arith)
      | inl expired ↦ elim (Option-cases (first ends s.runs)) [
        | inl absent ↦ absurd (ground arith)
        | inr (r, ended) ↦ inr (record {
          old = t;
          found = found;
          expired = expired;
          run = r;
          ended = ended;
          result = ground arith;
        })
      ]
    ]
  ]

  recover_row-IsLinked :
      (t : Task) (rs : List TaskRun)
      → is_leased t.status ≡ true
      → IsLinked t rs
      → IsLinked (recover_row (target t) (t.retry_count + 1) next now t) []
  unfolding recover_row recovery_status
  recover_row-IsLinked t rs h v = ground arith

  pub is_lease-owned :
      (t : Task) (rs : List TaskRun)
      → IsLinked t rs
      → is_lease lease now t ≡ true
      → (ownership_is_complete t ≡ true) × (is_leased t.status ≡ true)
  is_lease-owned t rs v h =
      let owned : ownership_is_complete t ≡ true = ground (arith, v.whole) in
      (owned, (v.held owned).0)

  module _ (s s' : Store) (e : RecoverEffect s s') where
    pub recover-Touches : Touches lease.task_id s s'
    unfolding recover_row lost_row
    recover-Touches = rw e.result (
        Touches-trans
          (put_task-Touches lease.task_id
            (recover_row (target e.old) (e.old.retry_count + 1) next now) s (λ t. refl))
          (put_runs-Touches lease.task_id ends (lost_row now) _ (λ r. (refl, refl))
            (λ r h. ground arith)))

    pub recover-IsSound : IsSound lease.task_id s → IsSound lease.task_id s'
    unfolding recover_row lost_row
    recover-IsSound v =
        let linked = IsSound-IsLinked lease.task_id s e.old v e.found in
        let (owned, leased) = is_lease-owned e.old _ linked e.expired in
        rw
          (
            e.result,
            find_task-put lease.task_id lease.task_id
                (recover_row (target e.old) (e.old.retry_count + 1) next now) s.tasks (λ t. refl),
            ==-refl lease.task_id,
            e.found,
            active_runs-ended lease.task_id ends (lost_row now) s e.old e.run linked owned e.ended
                (λ q h. ground arith) (λ q h. ground arith),
          )
          (recover_row-IsLinked e.old _ leased linked)

  pub recover-Inv :
      (s s' : Store) (x : Option RecoveredTaskLease)
      → Inv s
      → recover_expired_lease lease next now s ≡ ok (x, s')
      → Inv s'
  recover-Inv s s' x v h = elim (recover-effect s s' x h) [
    | inl (_, same) ↦ rw same v
    | inr e ↦
        Touches-Inv (recover-Touches s s' e) v (recover-IsSound s s' e (v.sound lease.task_id))
  ]
