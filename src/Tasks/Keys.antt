-- ===== src/Tasks/Keys.antt =====
-- The primary keys of the two tables.
use mathlib.Core.List.{Memᴰ}
use media_sync.Prelude.{
  ℕ, ◌≡◌, refl, Bool, ◌&&◌, none, some, List, [], ◌∷◌, ◌++◌, ◌==◌, ◌≢◌, if◌then◌else◌, first, arith,
  Bool-cases, inl, inr,
}
use media_sync.Tasks.Model.{Task, TaskRun}
use media_sync.Tasks.Status.{RunStatus, run_status_eq}
use media_sync.Tasks.Session.{find_task, find_run, put_task, put_runs}
use media_sync.Tasks.Repository.Create.{is_active_of}

-- No two rows share a primary key.
abbrev pub HasUniqueKeys : List TaskRun → Type 0
HasUniqueKeys [] = Unit
HasUniqueKeys (r ∷ rs) = (find_run r.id rs ≡ none) × HasUniqueKeys rs

pub find_run-put :
    (k : ℕ) (test : TaskRun → Bool) (set : TaskRun → TaskRun) (rs : List TaskRun)
    → ((r : TaskRun) → (set r).id ≡ r.id)
    → find_run k rs ≡ none
    → find_run k (put_runs test set rs) ≡ none
unfolding find_run put_runs
find_run-put k test set [] keeps h = refl
find_run-put k test set (r ∷ rs) keeps h = ground (arith, keeps r, find_run-put k test set rs keeps)

-- A row found again after a write.
pub find_run-put_some :
    (k : ℕ) (test : TaskRun → Bool) (set : TaskRun → TaskRun) (rs : List TaskRun) (r : TaskRun)
    → ((q : TaskRun) → (set q).id ≡ q.id)
    → find_run k rs ≡ some r
    → find_run k (put_runs test set rs) ≡ some (if test r then set r else r)
unfolding find_run put_runs
find_run-put_some k test set [] r keeps h = ground arith
find_run-put_some k test set (q ∷ rs) r keeps h =
    ground (arith, keeps q, find_run-put_some k test set rs r keeps)

pub find_run-append_some :
    (k : ℕ) (rs : List TaskRun) (q r : TaskRun)
    → find_run k rs ≡ some r
    → find_run k (rs ++ q ∷ []) ≡ some r
unfolding find_run
find_run-append_some k [] q r h = ground arith
find_run-append_some k (p ∷ rs) q r h = ground (arith, find_run-append_some k rs q r)

pub find_run-append :
    (k : ℕ) (rs : List TaskRun) (r : TaskRun)
    → r.id ≢ k
    → find_run k rs ≡ none
    → find_run k (rs ++ r ∷ []) ≡ none
unfolding find_run
find_run-append k [] r h e = ground arith
find_run-append k (q ∷ rs) r h e = ground (arith, find_run-append k rs r h)

pub put_runs-HasUniqueKeys :
    (test : TaskRun → Bool) (set : TaskRun → TaskRun) (rs : List TaskRun)
    → ((r : TaskRun) → (set r).id ≡ r.id)
    → HasUniqueKeys rs
    → HasUniqueKeys (put_runs test set rs)
unfolding put_runs
put_runs-HasUniqueKeys test set [] keeps u = tt
put_runs-HasUniqueKeys test set (r ∷ rs) keeps u = (
  ground (arith, keeps r, find_run-put r.id test set rs keeps u.0),
  put_runs-HasUniqueKeys test set rs keeps u.1,
)

pub append-HasUniqueKeys :
    (rs : List TaskRun) (r : TaskRun)
    → HasUniqueKeys rs
    → find_run r.id rs ≡ none
    → HasUniqueKeys (rs ++ r ∷ [])
unfolding find_run
append-HasUniqueKeys [] r u h = (refl, tt)
append-HasUniqueKeys (q ∷ rs) r u h = (
  find_run-append q.id rs r (λ e. ground arith) u.0,
  append-HasUniqueKeys rs r u.1 (ground arith),
)

-- A row that a query gave is found again by its key.
pub find_run-first :
    (test : TaskRun → Bool) (rs : List TaskRun) (r : TaskRun)
    → HasUniqueKeys rs
    → first test rs ≡ some r
    → find_run r.id rs ≡ some r
unfolding find_run
find_run-first test [] r u h = ground arith
find_run-first test (q ∷ rs) r u h = ground (arith, find_run-first test rs r u.1)

-- No row has the key, so a write to it changes none.
put_runs-absent :
    (k : ℕ) (test : TaskRun → Bool) (set : TaskRun → TaskRun) (rs : List TaskRun)
    → find_run k rs ≡ none
    → put_runs (λ r. (r.id == k) && test r) set rs ≡ rs
unfolding find_run put_runs
put_runs-absent k test set [] h = refl
put_runs-absent k test set (r ∷ rs) h = ground (arith, put_runs-absent k test set rs)

-- A write by the key of a row of task `i` is a write to that task.
pub put_runs-key :
    (i : ℕ) (a : TaskRun) (set : TaskRun → TaskRun) (rs : List TaskRun)
    → HasUniqueKeys rs
    → find_run a.id rs ≡ some a
    → a.task_id ≡ i
    → put_runs (λ r. (r.id == a.id) && run_status_eq r.status RunStatus.running) set rs
      ≡ put_runs (λ r. (r.id == a.id) && is_active_of i r) set rs
unfolding find_run put_runs
put_runs-key i a set [] u h e = refl
put_runs-key i a set (r ∷ rs) u h e = ground (
  arith,
  put_runs-key i a set rs u.1,
  put_runs-absent a.id (λ q. run_status_eq q.status RunStatus.running) set rs,
  put_runs-absent a.id (is_active_of i) set rs,
)

abbrev pub HasUniqueTasks : List Task → Type 0
HasUniqueTasks [] = Unit
HasUniqueTasks (t ∷ ts) = (find_task t.id ts ≡ none) × HasUniqueTasks ts

pub find_task-put_none :
    (j i : ℕ) (set : Task → Task) (ts : List Task)
    → ((t : Task) → (set t).id ≡ t.id)
    → find_task j ts ≡ none
    → find_task j (put_task i set ts) ≡ none
unfolding find_task put_task
find_task-put_none j i set [] keeps h = refl
find_task-put_none j i set (t ∷ ts) keeps h =
    ground (arith, keeps t, find_task-put_none j i set ts keeps)

pub put_task-HasUniqueTasks :
    (i : ℕ) (set : Task → Task) (ts : List Task)
    → ((t : Task) → (set t).id ≡ t.id)
    → HasUniqueTasks ts
    → HasUniqueTasks (put_task i set ts)
unfolding put_task
put_task-HasUniqueTasks i set [] keeps u = tt
put_task-HasUniqueTasks i set (t ∷ ts) keeps u = elim (Bool-cases (t.id == i)) [
  | inl e ↦ rw e (rw (keeps t) u.0, u.1)
  | inr e ↦
      rw e (find_task-put_none t.id i set ts keeps u.0, put_task-HasUniqueTasks i set ts keeps u.1)
]

find_task-append_none :
    (j : ℕ) (ts : List Task) (t : Task)
    → t.id ≢ j
    → find_task j ts ≡ none
    → find_task j (ts ++ t ∷ []) ≡ none
unfolding find_task
find_task-append_none j [] t h e = ground arith
find_task-append_none j (q ∷ ts) t h e = ground (arith, find_task-append_none j ts t h)

pub append-HasUniqueTasks :
    (ts : List Task) (t : Task)
    → HasUniqueTasks ts
    → find_task t.id ts ≡ none
    → HasUniqueTasks (ts ++ t ∷ [])
unfolding find_task
append-HasUniqueTasks [] t u h = (refl, tt)
append-HasUniqueTasks (q ∷ ts) t u h = (
  find_task-append_none q.id ts t (λ e. ground arith) u.0,
  append-HasUniqueTasks ts t u.1 (ground arith),
)

-- A row of the table is found by its key.
pub find_task-mem :
    (t : Task) (ts : List Task) → HasUniqueTasks ts → Memᴰ t ts → find_task t.id ts ≡ some t
unfolding find_task
find_task-mem t [] u m = elim m [ ]
find_task-mem t (q ∷ ts) u (Memᴰ.head e) = ground arith
find_task-mem t (q ∷ ts) u (Memᴰ.tail m) = ground (arith, find_task-mem t ts u.1 m)
