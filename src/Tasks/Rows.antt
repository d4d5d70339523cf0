-- ===== src/Tasks/Rows.antt =====
-- Lookups after writes, for the two tables.
use mathlib.Core.Option
use media_sync.Prelude.{
  ℕ, ◌≡◌, refl, Bool, true, false, not, none, some, List, [], ◌∷◌, ◌++◌, ◌==◌, if◌then◌else◌, first,
  select, select-All, All, subst, arith,
}
use media_sync.Tasks.Model.{Task, TaskRun}
use media_sync.Tasks.Session.{find_task, put_task, put_runs}
use media_sync.Tasks.Repository.Create.{is_active_of}

pub find_task-id : (i : ℕ) (ts : List Task) (t : Task) → find_task i ts ≡ some t → t.id ≡ i
unfolding find_task
find_task-id i [] t h = ground arith
find_task-id i (u ∷ ts) t h = ground (arith, find_task-id i ts t)

pub find_task-put :
    (i j : ℕ) (set : Task → Task) (ts : List Task)
    → ((t : Task) → (set t).id ≡ t.id)
    → find_task j (put_task i set ts)
      ≡ (if i == j then Option.map set (find_task j ts) else find_task j ts)
unfolding find_task put_task
find_task-put i j set [] keeps = ground arith
find_task-put i j set (t ∷ ts) keeps = ground (arith, keeps t, find_task-put i j set ts keeps)

pub find_task-append :
    (j : ℕ) (ts : List Task) (t : Task)
    → find_task j (ts ++ t ∷ [])
      ≡ (elim (find_task j ts) [ none ↦ if t.id == j then some t else none | some u ↦ some u ])
unfolding find_task
find_task-append j [] t = ground arith
find_task-append j (u ∷ ts) t = ground (arith, find_task-append j ts t)

pub find_task-append_fresh :
    (j : ℕ) (ts : List Task) (t : Task)
    → find_task j ts ≡ none
    → t.id ≡ j
    → find_task j (ts ++ t ∷ []) ≡ some t
find_task-append_fresh j ts t absent key = ground (arith, find_task-append j ts t)

-- The running runs of a task.
unfoldable pub active_runs : ℕ → List TaskRun → List TaskRun
active_runs i rs = select (is_active_of i) rs

pub active_runs-append :
    (i : ℕ) (rs : List TaskRun) (r : TaskRun)
    → active_runs i (rs ++ r ∷ []) ≡ active_runs i rs ++ (if is_active_of i r then r ∷ [] else [])
unfolding active_runs
active_runs-append i [] r = ground arith
active_runs-append i (q ∷ rs) r = ground (arith, active_runs-append i rs r)

-- An update of rows that are not running runs of the task, before and after.
pub active_runs-put_other :
    (i : ℕ) (test : TaskRun → Bool) (set : TaskRun → TaskRun) (rs : List TaskRun)
    → ((r : TaskRun) → test r ≡ true → is_active_of i r ≡ false)
    → ((r : TaskRun) → test r ≡ true → is_active_of i (set r) ≡ false)
    → active_runs i (put_runs test set rs) ≡ active_runs i rs
unfolding active_runs put_runs
active_runs-put_other i test set [] before after = refl
active_runs-put_other i test set (r ∷ rs) before after =
    ground (arith, before r, after r, active_runs-put_other i test set rs before after)

-- An update that ends running runs of the task.
pub active_runs-put_ended :
    (i : ℕ) (test : TaskRun → Bool) (set : TaskRun → TaskRun) (rs : List TaskRun)
    → ((r : TaskRun) → test r ≡ true → is_active_of i (set r) ≡ false)
    → active_runs i (put_runs test set rs) ≡ select (λ r. not (test r)) (active_runs i rs)
unfolding active_runs put_runs
active_runs-put_ended i test set [] after = refl
active_runs-put_ended i test set (r ∷ rs) after =
    ground (arith, after r, active_runs-put_ended i test set rs after)

-- An update that leaves every row's task and status.
pub active_runs-put_kept :
    (i : ℕ) (test : TaskRun → Bool) (set : TaskRun → TaskRun) (rs : List TaskRun)
    → ((r : TaskRun) → is_active_of i (set r) ≡ is_active_of i r)
    → active_runs i (put_runs test set rs) ≡ put_runs test set (active_runs i rs)
unfolding active_runs put_runs
active_runs-put_kept i test set [] same = refl
active_runs-put_kept i test set (r ∷ rs) same =
    ground (arith, same r, active_runs-put_kept i test set rs same)

-- A narrower test finds its first row among the running runs.
pub first-active_runs :
    (i : ℕ) (test : TaskRun → Bool) (rs : List TaskRun)
    → ((r : TaskRun) → test r ≡ true → is_active_of i r ≡ true)
    → first test rs ≡ first test (active_runs i rs)
unfolding active_runs
first-active_runs i test [] narrow = refl
first-active_runs i test (r ∷ rs) narrow =
    ground (arith, narrow r, first-active_runs i test rs narrow)

pub active_runs-All :
    (i : ℕ) (rs : List TaskRun) → All (λ r. is_active_of i r ≡ true) (active_runs i rs)
unfolding active_runs
active_runs-All i rs = select-All (is_active_of i) rs

-- The only running run of a task, by the query for one.
pub first-single :
    (i : ℕ) (rs : List TaskRun) (a : TaskRun)
    → active_runs i rs ≡ a ∷ []
    → (is_active_of i a ≡ true) × (first (is_active_of i) rs ≡ some a)
first-single i rs a single =
    let passes = (subst (All (λ r. is_active_of i r ≡ true)) single (active_runs-All i rs)).0 in
    (passes, rw (first-active_runs i (is_active_of i) rs (λ r h. h), single, passes))
