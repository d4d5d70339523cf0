-- ===== src/Tasks/Invariant/Heartbeat.antt =====
-- `heartbeat` keeps the invariant.
use media_sync.Prelude.{
  ℕ, String, ◌≡◌, refl, true, ◌&&◌, some, List, if◌then◌else◌, first, arith, inl, inr, Option-cases,
  Bool-cases, ==-refl,
}
use media_sync.Tasks.Status.{is_leased}
use media_sync.Tasks.Model.{Task, TaskRun, Store, ownership_is_complete}
use media_sync.Tasks.Session.{
  ok, find_task, put_task, put_runs, require_task, require_task_run, update_task, update_runs,
}
use media_sync.Tasks.Repository.Values.{validate_owner_arguments}
use media_sync.Tasks.Repository.Claim.{is_held, is_owners_run, beat_row, extend_row, heartbeat}
use media_sync.Tasks.Rows.{find_task-put, active_runs-put_kept}
use media_sync.Tasks.Ending.{IsSound-IsLinked}
use media_sync.Tasks.Invariant.{IsLinked, IsSound, Inv}
use media_sync.Tasks.Frame.{Touches, Touches-trans, Touches-Inv, put_task-Touches, put_runs-Touches}

module _ (i : ℕ) (w k : String) (duration now : ℕ) where
  abbrev extend : Task → Task
  extend = extend_row duration now

  pub record HeartbeatEffect (s s' : Store) : Type 0 where
    pub old : Task
    pub found : find_task i s.tasks ≡ some old
    pub leased : is_leased old.status ≡ true
    pub allowed : is_held w k now old ≡ true
    pub run : TaskRun
    pub alive : first (is_owners_run i w k) s.runs ≡ some run
    pub result : s' ≡ record s {
      tasks = put_task i extend s.tasks;
      runs = put_runs (is_owners_run i w k) (beat_row now) s.runs;
    }

  pub heartbeat-effect :
      (s s' : Store) (x : Task × TaskRun)
      → heartbeat i w k duration now s ≡ ok (x, s')
      → HeartbeatEffect s s'
  unfolding heartbeat validate_owner_arguments update_task update_runs require_task require_task_run
  heartbeat-effect s s' x h = elim (Option-cases (find_task i s.tasks)) [
    | inl absent ↦ ground arith
    | inr (t, found) ↦ elim (Bool-cases (is_leased t.status && is_held w k now t)) [
      | inr refused ↦ ground arith
      | inl allowed ↦ elim (Option-cases (first (is_owners_run i w k) s.runs)) [
        | inl absent ↦ ground arith
        | inr (r, alive) ↦ record {
          old = t;
          found = found;
          leased = ground arith;
          allowed = ground arith;
          run = r;
          alive = alive;
          result = ground arith;
        }
      ]
    ]
  ]

  extend-IsLinked :
      (t : Task) (rs : List TaskRun)
      → is_held w k now t ≡ true
      → IsLinked t rs
      → IsLinked (extend t) (put_runs (is_owners_run i w k) (beat_row now) rs)
  unfolding put_runs
  extend-IsLinked t rs h v =
      let owned : ownership_is_complete t ≡ true = ground (arith, v.whole) in
      let (leased, run) = v.held owned in
      let (r, single, mine) = run in
      rw single (record {
        whole = ground (arith, owned);
        free = ground (arith, owned);
        held = λ _. (
          leased,
          (if is_owners_run i w k r then beat_row now r else r, refl, ground (arith, mine)),
        );
        completed = v.completed;
        blocked = v.blocked;
      })

  module _ (s s' : Store) (e : HeartbeatEffect s s') where
    pub heartbeat-Touches : Touches i s s'
    heartbeat-Touches = rw e.result (
        Touches-trans (put_task-Touches i extend s (λ t. refl)) (
          put_runs-Touches i (is_owners_run i w k) (beat_row now) _ (λ r. (refl, refl))
            (λ r h. ground arith)))

    pub heartbeat-IsSound : IsSound i s → IsSound i s'
    heartbeat-IsSound v =
        rw
          (
            e.result,
            find_task-put i i extend s.tasks (λ t. refl),
            ==-refl i,
            e.found,
            active_runs-put_kept i (is_owners_run i w k) (beat_row now) s.runs (λ r. refl),
          )
          (extend-IsLinked e.old _ e.allowed (IsSound-IsLinked i s e.old v e.found))

  pub heartbeat-Inv :
      (s s' : Store) (x : Task × TaskRun)
      → Inv s
      → heartbeat i w k duration now s ≡ ok (x, s')
      → Inv s'
  heartbeat-Inv s s' x v h =
      let e = heartbeat-effect s s' x h in
      Touches-Inv (heartbeat-Touches s s' e) v (heartbeat-IsSound s s' e (v.sound i))
