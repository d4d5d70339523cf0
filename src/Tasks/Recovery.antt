-- ===== src/Tasks/Recovery.antt =====
-- `recover_expired_lease` on tables in order: it never fails once a moment for the retry is given.
use media_sync.Prelude.{
  ℕ, ◌+◌, ==-refl, ◌≡◌, refl, true, Bool, none, some, List, [], ◌∷◌, ◌⊎◌, inl, inr, arith, first,
  Option-cases, Bool-cases,
}
use media_sync.Tasks.Model.{Task, TaskRun, Store, ownership_is_complete}
use media_sync.Tasks.Session.{
  ok, find_task, find_run, put_task, put_runs, update_task, update_runs, require_task,
  require_task_run,
}
use media_sync.Tasks.Repository.Create.{is_active_of}
use media_sync.Tasks.Repository.Claim.{is_owners_run}
use media_sync.Tasks.Repository.Recover.{
  ExpiredTaskLease, is_lease, recovery_status, recover_row, lost_row, mark_task_run_lost,
  recover_writes, current_row, recover_expired_lease,
}
use media_sync.Tasks.Rows.{active_runs, first-active_runs, first-single, find_task-put}
use media_sync.Tasks.Keys.{find_run-first, find_run-put_some}
use media_sync.Tasks.Ending.{IsSound-IsLinked}
use media_sync.Tasks.Invariant.{Inv}
use media_sync.Tasks.Owner.{HeldRun}

leased-run :
    (lease : ExpiredTaskLease) (now : ℕ) (s : Store) (t : Task)
    → Inv s
    → find_task lease.task_id s.tasks ≡ some t
    → is_lease lease now t ≡ true
    → HeldRun lease.task_id s t
leased-run lease now s t v found h =
    let i = lease.task_id in
    let linked = IsSound-IsLinked i s t (v.sound i) found in
    let owned : ownership_is_complete t ≡ true = ground (arith, linked.whole) in
    let (_, run) = linked.held owned in
    let (r, single, mine) = run in
    let (active, hit) = first-single i s.runs r single in
    record {
      run = r;
      single = single;
      active = active;
      owned = mine;
      keyed = find_run-first (is_active_of i) s.runs r v.keys hit;
    }

current_row-cases :
    (lease : ExpiredTaskLease) (now : ℕ) (ts : List Task) (t : Task)
    → current_row lease now ts ≡ some t
    → (find_task lease.task_id ts ≡ some t) × (is_lease lease now t ≡ true)
current_row-cases lease now ts t h = elim (Option-cases (find_task lease.task_id ts)) [
  | inl absent ↦ absurd (ground arith)
  | inr (q, found) ↦ elim (Bool-cases (is_lease lease now q)) [
    | inl hit ↦ (ground arith, ground arith)
    | inr miss ↦ absurd (ground arith)
  ]
]

module _ (lease : ExpiredTaskLease) (next now : ℕ) (s : Store) (t : Task) where
  abbrev pub recovered_row : Task → Task
  recovered_row =
      recover_row (recovery_status t.status (t.retry_count + 1) t.max_retries) (t.retry_count + 1)
        (some next) now

  abbrev owners : TaskRun → Bool
  owners = is_owners_run lease.task_id lease.worker_id lease.lock_token

  abbrev pub recovered_store : Store
  recovered_store = record s {
    tasks = put_task lease.task_id recovered_row s.tasks;
    runs = put_runs owners (lost_row now) s.runs;
  }

  module _ (found : find_task lease.task_id s.tasks ≡ some t)
      (expired : is_lease lease now t ≡ true) where
    row-found :
        find_task lease.task_id (put_task lease.task_id recovered_row s.tasks)
        ≡ some (recovered_row t)
    unfolding recover_row
    row-found = rw (
      find_task-put lease.task_id lease.task_id recovered_row s.tasks (λ u. refl),
      ==-refl lease.task_id,
      found,
    )

    module _ (h : HeldRun lease.task_id s t) where
      owners-run : owners h.run ≡ true
      owners-run = ground (arith, h.active, h.owned.same_worker, h.owned.same_token, expired)

      first-owners : first owners s.runs ≡ some h.run
      first-owners =
          rw (first-active_runs lease.task_id owners s.runs (λ q e. ground arith), h.single)
            (ground (arith, h.active, h.owned.same_worker, h.owned.same_token, expired))

      run-found :
          find_run h.run.id (put_runs owners (lost_row now) s.runs) ≡ some (lost_row now h.run)
      unfolding lost_row
      run-found = rw (
        find_run-put_some h.run.id owners (lost_row now) s.runs h.run (λ q. refl) h.keyed,
        owners-run,
      )

    recovers :
        (r r' : TaskRun) (t' : Task)
        → first owners s.runs ≡ some r
        → find_task lease.task_id (put_task lease.task_id recovered_row s.tasks) ≡ some t'
        → find_run r.id (put_runs owners (lost_row now) s.runs) ≡ some r'
        → recover_expired_lease lease (some next) now s
          ≡ ok (
            some (record { task = t'; task_run = r'; previous_lock_token = lease.lock_token }),
            recovered_store,
          )
    unfolding recover_expired_lease recover_writes mark_task_run_lost update_task update_runs
        require_task require_task_run
    recovers r r' t' hit row run = ground (arith, found, expired)

-- `recover_expired_lease` writes its two rows where the lease is current, and nothing elsewhere.
pub recover-total :
    (lease : ExpiredTaskLease) (next now : ℕ) (s : Store)
    → Inv s
    → ((current_row lease now s.tasks ≡ none)
        × (recover_expired_lease lease (some next) now s ≡ ok (none, s)))
      ⊎ ((t : Task) × (current_row lease now s.tasks ≡ some t)
          × (find_task lease.task_id s.tasks ≡ some t)
          × (is_lease lease now t ≡ true)
          × (r : TaskRun) × (active_runs lease.task_id s.runs ≡ r ∷ [])
          × (recover_expired_lease lease (some next) now s
              ≡ ok (
                some (record {
                  task = recovered_row lease next now s t t;
                  task_run = lost_row now r;
                  previous_lock_token = lease.lock_token;
                }),
                recovered_store lease next now s t,
              ))
          × (find_task lease.task_id (recovered_store lease next now s t).tasks
              ≡ some (recovered_row lease next now s t t))
          × (find_run r.id (recovered_store lease next now s t).runs ≡ some (lost_row now r)))
unfolding recover_expired_lease
recover-total lease next now s v = elim (Option-cases (current_row lease now s.tasks)) [
  | inl gone ↦ inl (gone, ground (arith, gone))
  | inr (t, current) ↦
      let (found, expired) = current_row-cases lease now s.tasks t current in
      let h = leased-run lease now s t v found expired in
      inr (
        t,
        current,
        found,
        expired,
        h.run,
        h.single,
        recovers lease next now s t found expired h.run _ _
            (first-owners lease next now s t found expired h)
            (row-found lease next now s t found expired)
            (run-found lease next now s t found expired h),
        row-found lease next now s t found expired,
        run-found lease next now s t found expired h,
      )
]
