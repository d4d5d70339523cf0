-- ===== src/Tasks/Ending.antt =====
-- A write that ends the run of a task that is owned leaves it with no running run.
use media_sync.Prelude.{
  ℕ, ◌≡◌, subst, Bool, true, false, not, some, List, [], ◌∷◌, first, select, arith,
}
use media_sync.Tasks.Model.{Task, TaskRun, Store, ownership_is_complete}
use media_sync.Tasks.Session.{find_task, put_runs}
use media_sync.Tasks.Repository.Create.{is_active_of}
use media_sync.Tasks.Rows.{active_runs, active_runs-put_ended, first-active_runs}
use media_sync.Tasks.Invariant.{Linked, IsLinked, IsSound}

pub IsSound-IsLinked :
    (i : ℕ) (s : Store) (t : Task)
    → IsSound i s
    → find_task i s.tasks ≡ some t
    → IsLinked t (active_runs i s.runs)
IsSound-IsLinked i s t v found = subst (λ o. Linked o (active_runs i s.runs)) found v

select-singleton :
    (test : TaskRun → Bool) (rs : List TaskRun) (q r : TaskRun)
    → rs ≡ q ∷ []
    → first test rs ≡ some r
    → select (λ x. not (test x)) rs ≡ []
select-singleton test rs q r e h = rw e (ground (arith, hit'))
  where
    hit' : first test (q ∷ []) ≡ some r
    hit' = subst (λ l. first test l ≡ some r) e h

module _ (i : ℕ) (test : TaskRun → Bool) (set : TaskRun → TaskRun) (s : Store) (t : Task)
    (r : TaskRun) where
  pub active_runs-ended :
      IsLinked t (active_runs i s.runs)
      → ownership_is_complete t ≡ true
      → first test s.runs ≡ some r
      → ((q : TaskRun) → test q ≡ true → is_active_of i q ≡ true)
      → ((q : TaskRun) → test q ≡ true → is_active_of i (set q) ≡ false)
      → active_runs i (put_runs test set s.runs) ≡ []
  active_runs-ended v owned hit narrow after =
      let (_, run) = v.held owned in
      let (q, single, _) = run in
      rw (active_runs-put_ended i test set s.runs after) (
        select-singleton test (active_runs i s.runs) q r single
          (rw (first-active_runs i test s.runs narrow) at hit))
