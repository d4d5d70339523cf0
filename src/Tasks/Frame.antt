-- ===== src/Tasks/Frame.antt =====
-- Which rows an operation touches: a write to one task leaves the rows of the others alone.
use mathlib.Core.List.{append-nil}
use native.Mathlib.Decide.{ℕ_discrete}
use media_sync.Prelude.{
  ℕ, ◌+◌, ◌≤◌, ◌≡◌, refl, subst, ◌∙◌, Bool, true, none, [], ◌∷◌, ◌++◌, ◌≢◌, arith,
}
use media_sync.Tasks.Model.{Task, TaskRun, Store}
use media_sync.Tasks.Session.{find_task, find_run, put_task, put_runs}
use media_sync.Tasks.Rows.{
  find_task-put, find_task-append, active_runs, active_runs-append, active_runs-put_other,
}
use media_sync.Tasks.Keys.{
  HasUniqueKeys, find_run-put, find_run-append, put_runs-HasUniqueKeys, append-HasUniqueKeys,
  HasUniqueTasks, put_task-HasUniqueTasks, append-HasUniqueTasks,
}
use media_sync.Tasks.Invariant.{IsSound, Inv}

-- From `s` to `s'` only rows of task `i` change, and keys that were free stay free.
pub record Touches (i : ℕ) (s s' : Store) : Type 0 where
  pub same_task : (j : ℕ) → i ≢ j → find_task j s'.tasks ≡ find_task j s.tasks
  pub same_runs : (j : ℕ) → i ≢ j → active_runs j s'.runs ≡ active_runs j s.runs
  pub free_task :
      (j : ℕ)
      → s'.next_task_id ≤ j
      → (s.next_task_id ≤ j) × (find_task j s.tasks ≡ none → find_task j s'.tasks ≡ none)
  pub free_run :
      (k : ℕ)
      → s'.next_run_id ≤ k
      → (s.next_run_id ≤ k) × (find_run k s.runs ≡ none → find_run k s'.runs ≡ none)
  pub keys :
      HasUniqueKeys s.runs
      → ((k : ℕ) → s.next_run_id ≤ k → find_run k s.runs ≡ none)
      → HasUniqueKeys s'.runs
  pub task_keys :
      HasUniqueTasks s.tasks
      → ((j : ℕ) → s.next_task_id ≤ j → find_task j s.tasks ≡ none)
      → HasUniqueTasks s'.tasks

pub Touches-refl : (i : ℕ) (s : Store) → Touches i s s
Touches-refl i s = record {
  same_task = λ j h. refl;
  same_runs = λ j h. refl;
  free_task = λ j h. (h, λ e. e);
  free_run = λ j h. (h, λ e. e);
  keys = λ u f. u;
  task_keys = λ u f. u;
}

pub Touches-trans : {i : ℕ} {s t u : Store} → Touches i s t → Touches i t u → Touches i s u
Touches-trans p q = record {
  same_task = λ j h. q.same_task j h ∙ p.same_task j h;
  same_runs = λ j h. q.same_runs j h ∙ p.same_runs j h;
  free_task = λ j h.
      let (h', f) = q.free_task j h in let (h'', g) = p.free_task j h' in (h'', λ e. f (g e));
  free_run =
      λ j h. let (h', f) = q.free_run j h in let (h'', g) = p.free_run j h' in (h'', λ e. f (g e));
  keys = λ u f. q.keys (p.keys u f) (λ k h. let (h', g) = p.free_run k h in g (f k h'));
  task_keys =
      λ u f. q.task_keys (p.task_keys u f) (λ k h. let (h', g) = p.free_task k h in g (f k h'));
}

-- So the invariant only has to be shown again at the task that was touched.
pub Touches-Inv : {i : ℕ} {s s' : Store} → Touches i s s' → Inv s → IsSound i s' → Inv s'
Touches-Inv {i} {s} {s'} p v here = record {
  sound = λ j. elim (ℕ_discrete i j) [
    | yes e ↦ subst (λ k. IsSound k s') e here
    | no n ↦ rw (p.same_task j n, p.same_runs j n) (v.sound j)
  ];
  fresh_task = λ j h. let (h', f) = p.free_task j h in f (v.fresh_task j h');
  fresh_run = λ j h. let (h', f) = p.free_run j h in f (v.fresh_run j h');
  keys = p.keys v.keys v.fresh_run;
  task_keys = p.task_keys v.task_keys v.fresh_task;
}

pub put_task-Touches :
    (i : ℕ) (set : Task → Task) (s : Store)
    → ((t : Task) → (set t).id ≡ t.id)
    → Touches i s (record s { tasks = put_task i set s.tasks })
put_task-Touches i set s keeps = record {
  same_task = λ j h. ground (arith, find_task-put i j set s.tasks keeps);
  same_runs = λ j h. refl;
  free_task = λ j h. (h, λ e. ground (arith, find_task-put i j set s.tasks keeps));
  free_run = λ k h. (h, λ e. e);
  keys = λ u f. u;
  task_keys = λ u f. put_task-HasUniqueTasks i set s.tasks keeps u;
}

module _ (i : ℕ) (test : TaskRun → Bool) (set : TaskRun → TaskRun) (s : Store)
    (keeps : (r : TaskRun) → ((set r).id ≡ r.id) × ((set r).task_id ≡ r.task_id))
    (narrow : (r : TaskRun) → test r ≡ true → r.task_id ≡ i) where
  pub put_runs-Touches : Touches i s (record s { runs = put_runs test set s.runs })
  put_runs-Touches = record {
    same_task = λ j h. refl;
    same_runs = λ j h.
        active_runs-put_other j test set s.runs (λ r e. ground (arith, narrow r e))
          (λ r e. ground (arith, narrow r e, keeps r));
    free_task = λ j h. (h, λ e. e);
    free_run = λ k h. (h, λ e. find_run-put k test set s.runs (λ r. (keeps r).0) e);
    keys = λ u f. put_runs-HasUniqueKeys test set s.runs (λ r. (keeps r).0) u;
    task_keys = λ u f. u;
  }

pub insert_run-Touches :
    (i : ℕ) (r : TaskRun) (s : Store)
    → r.task_id ≡ i
    → r.id ≡ s.next_run_id
    → Touches i s (record s { runs = s.runs ++ r ∷ []; next_run_id = s.next_run_id + 1 })
insert_run-Touches i r s here key = record {
  same_task = λ j h. refl;
  same_runs =
      λ j h. ground (arith, active_runs-append j s.runs r, append-nil (active_runs j s.runs));
  free_task = λ j h. (h, λ e. e);
  free_run = λ k h. (omega arith, λ e. find_run-append k s.runs r (omega arith) e);
  keys = λ u f. append-HasUniqueKeys s.runs r u (f r.id (omega arith));
  task_keys = λ u f. u;
}

pub insert_task-Touches :
    (t : Task) (s : Store)
    → t.id ≡ s.next_task_id
    → Touches t.id s (record s { tasks = s.tasks ++ t ∷ []; next_task_id = s.next_task_id + 1 })
insert_task-Touches t s key = record {
  same_task = λ j h. ground (arith, find_task-append j s.tasks t);
  same_runs = λ j h. refl;
  free_task = λ j h. (omega arith, λ e. ground (arith, find_task-append j s.tasks t));
  free_run = λ k h. (h, λ e. e);
  keys = λ u f. u;
  task_keys = λ u f. append-HasUniqueTasks s.tasks t u (f t.id (omega arith));
}
