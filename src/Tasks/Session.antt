-- ===== src/Tasks/Session.antt =====
-- The database session under `TaskRepository`. An operation runs over the current rows, in one
-- transaction: it returns the new tables, or raises, and then its transaction is rolled back, so an
-- error carries no tables. Rows stand in the order of their insertion.
use media_sync.Prelude.{
  ℕ, ◌+◌, Bool, true, false, ◌&&◌, Option, none, some, List, [], ◌∷◌, ◌++◌, ◌==◌, max,
  if◌then◌else◌, first, is_some,
}
use media_sync.Tasks.Model.{Task, TaskRun, Store}
use media_sync.Tasks.Transitions.{TaskError, task_not_found, run_not_found, integrity_error}

pub data Result (A : Type 0) : Type 0 where
  ok : A → Result A
  err : TaskError → Result A

abbrev pub M : Type 0 → Type 0
M A = Store → Result (A × Store)

-- An error ends the transaction; a value goes on with the tables as they are by then.
abbrev pub ◌>>=◌ : {X Y : Type 0} → M X → (X → M Y) → M Y
◌>>=◌ before after s = elim (before s) [ ok (x, s') ↦ after x s' | err e ↦ err e ]

abbrev pub ◌>>◌ : {Y : Type 0} → M (Unit {0}) → M Y → M Y
before >> after = before >>= λ _. after

infixl 5 ◌>>=◌ ◌>>◌
abbrev pub pure : {A : Type 0} → A → M A
pure a s = ok (a, s)

abbrev pub raise : {A : Type 0} → TaskError → M A
raise e s = err e

-- `if not test: raise e`
abbrev pub guard : Bool → TaskError → M (Unit {0})
guard true e s = ok (tt, s)
guard false e s = err e

abbrev pub get : M Store
get s = ok (s, s)

-- What an update that is expected to hit a row does when it hits none.
abbrev pub expect : {A : Type 0} → Option A → TaskError → M A
expect none e s = err e
expect (some a) e s = ok (a, s)

-- `SELECT … WHERE id = …`
unfoldable pub find_task : ℕ → List Task → Option Task
find_task i [] = none
find_task i (t ∷ ts) = if t.id == i then some t else find_task i ts

unfoldable pub find_run : ℕ → List TaskRun → Option TaskRun
find_run i [] = none
find_run i (r ∷ rs) = if r.id == i then some r else find_run i rs

-- Overwrites the row of a primary key.
unfoldable pub put_task : ℕ → (Task → Task) → List Task → List Task
put_task i set [] = []
put_task i set (t ∷ ts) = if t.id == i then set t ∷ ts else t ∷ put_task i set ts

-- `UPDATE … WHERE` without a primary key: every row that matches.
unfoldable pub put_runs : (TaskRun → Bool) → (TaskRun → TaskRun) → List TaskRun → List TaskRun
put_runs test set [] = []
put_runs test set (r ∷ rs) = (if test r then set r else r) ∷ put_runs test set rs

-- `TaskRepository._require_task`
unfoldable pub require_task : ℕ → M Task
require_task i s = expect (find_task i s.tasks) (task_not_found i) s

-- `TaskRepository._require_task_run`
unfoldable pub require_task_run : ℕ → M TaskRun
require_task_run i s = expect (find_run i s.runs) run_not_found s

-- `UPDATE tasks SET … WHERE id = … AND test RETURNING id`
unfoldable pub update_task : ℕ → (Task → Bool) → (Task → Task) → M (Option ℕ)
update_task i test set s = elim (find_task i s.tasks) [
  | none ↦ ok (none, s)
  | some t ↦
      if test t then ok (some i, record s { tasks = put_task i set s.tasks }) else ok (none, s)
]

-- `UPDATE task_runs SET … WHERE test RETURNING id`
unfoldable pub update_runs : (TaskRun → Bool) → (TaskRun → TaskRun) → M (Option ℕ)
update_runs test set s = elim (first test s.runs) [
  | none ↦ ok (none, s)
  | some r ↦ ok (some r.id, record s { runs = put_runs test set s.runs })
]

-- `coalesce(max(run_number), 0)` over the runs of a task.
unfoldable pub max_run_number : ℕ → List TaskRun → ℕ
max_run_number i [] = 0
max_run_number i (r ∷ rs) =
    let rest = max_run_number i rs in if r.task_id == i then max r.run_number rest else rest

-- The unique constraint on (task_id, run_number).
unfoldable pub has_run_number : ℕ → ℕ → List TaskRun → Bool
has_run_number i n rs = is_some (first (λ r. (r.task_id == i) && (r.run_number == n)) rs)

-- `session.add(run)` and `flush`: the row gets the next primary key.
unfoldable pub insert_run : (ℕ → TaskRun) → M TaskRun
unfolding has_run_number
insert_run make s =
    let run = make s.next_run_id in
    if has_run_number run.task_id run.run_number s.runs
    then err integrity_error
    else ok (run, record s { runs = s.runs ++ run ∷ []; next_run_id = s.next_run_id + 1 })
