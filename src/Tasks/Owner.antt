-- ===== src/Tasks/Owner.antt =====
-- What the worker that holds a task can rely on: its calls succeed, and nobody else's do.
use media_sync.Prelude.{
  ℕ, String, ◌≡◌, ◌≢◌, refl, sym, subst, ◌∙◌, ap, Bool, true, ◌&&◌, none, some, List, [], ◌∷◌, ◌==◌,
  first, arith, holds→some, if◌then◌else◌, ==-refl,
}
use mathlib.Core.Option.{some-injective}
use media_sync.Tasks.Model.{Task, TaskRun, Store, ownership_is_complete}
use media_sync.Tasks.Transitions.{run_not_found}
use media_sync.Tasks.Session.{
  ok, err, find_task, find_run, put_task, put_runs, require_task, require_task_run, update_task,
  update_runs,
}
use media_sync.Tasks.Repository.Create.{is_active_of}
use media_sync.Tasks.Repository.Claim.{is_held, is_owners_run}
use media_sync.Tasks.Repository.Finish.{
  FinishArgs, is_finishable, finish_row, finish_run_row, finish_run, validate_finish,
}
use media_sync.Tasks.Rows.{active_runs, first-active_runs, first-single, find_task-put}
use media_sync.Tasks.Keys.{find_run-put_some, find_run-first}
use media_sync.Tasks.Ending.{IsSound-IsLinked}
use media_sync.Tasks.Invariant.{IsOwnersRun, Inv}
use media_sync.Tasks.Invariant.Finish.{FinishEffect, finish_run-effect}

-- The running run of a task that is held.
pub record HeldRun (i : ℕ) (s : Store) (t : Task) : Type 0 where
  pub run : TaskRun
  pub single : active_runs i s.runs ≡ run ∷ []
  pub active : is_active_of i run ≡ true
  pub owned : IsOwnersRun t run
  pub keyed : find_run run.id s.runs ≡ some run

held-run :
    (i : ℕ) (s : Store) (t : Task) (w k : String) (now : ℕ)
    → Inv s
    → find_task i s.tasks ≡ some t
    → is_held w k now t ≡ true
    → HeldRun i s t
held-run i s t w k now v found h =
    let linked = IsSound-IsLinked i s t (v.sound i) found in
    let owned : ownership_is_complete t ≡ true = ground (arith, linked.whole) in
    let (_, run) = linked.held owned in
    let (r, single, mine) = run in
    let (active, hit) = first-single i s.runs r single in
    record {
      run = r;
      single = single;
      active = active;
      owned = mine;
      keyed = find_run-first (is_active_of i) s.runs r v.keys hit;
    }

module _ (i k : ℕ) (s : Store) (t : Task) (a : FinishArgs) (clock : ℕ) (h : HeldRun i s t)
    (held : is_held a.worker_id a.lock_token clock t ≡ true) where
  abbrev ends : TaskRun → Bool
  ends r = (r.id == k) && is_owners_run i a.worker_id a.lock_token r

  first-ends : first ends s.runs ≡ (if h.run.id == k then some h.run else none)
  first-ends =
      rw (first-active_runs i ends s.runs (λ q e. ground arith), h.single)
        (ground (arith, h.active, h.owned.same_worker, h.owned.same_token, held))

  ends-run : ends h.run ≡ (h.run.id == k)
  ends-run = ground (arith, h.active, h.owned.same_worker, h.owned.same_token, held)

finish_row-found :
    (i clock : ℕ) (a : FinishArgs) (ts : List Task) (t : Task)
    → find_task i ts ≡ some t
    → find_task i (put_task i (finish_row a clock) ts) ≡ some (finish_row a clock t)
unfolding finish_row
finish_row-found i clock a ts t found =
    rw (find_task-put i i (finish_row a clock) ts (λ u. refl), ==-refl i, found)

finish_run_row-found :
    (k clock : ℕ) (a : FinishArgs) (test : TaskRun → Bool) (rs : List TaskRun) (r : TaskRun)
    → find_run k rs ≡ some r
    → test r ≡ true
    → find_run k (put_runs test (finish_run_row a clock) rs) ≡ some (finish_run_row a clock r)
unfolding finish_run_row
finish_run_row-found k clock a test rs r found hit =
    rw (find_run-put_some k test (finish_run_row a clock) rs r (λ q. refl) found, hit)

module _ (clock i k : ℕ) (a : FinishArgs) (s : Store) (t : Task)
    (found : find_task i s.tasks ≡ some t) (valid : validate_finish a s ≡ ok (tt, s))
    (h : is_finishable a clock t ≡ true) where
  abbrev ending : TaskRun → Bool
  ending r = (r.id == k) && is_owners_run i a.worker_id a.lock_token r

  abbrev pub finished_store : Store
  finished_store = record s {
    tasks = put_task i (finish_row a clock) s.tasks;
    runs = put_runs ending (finish_run_row a clock) s.runs;
  }

  finish_run-hit :
      (r r' : TaskRun) (t' : Task)
      → first ending s.runs ≡ some r
      → find_task i (put_task i (finish_row a clock) s.tasks) ≡ some t'
      → find_run r.id (put_runs ending (finish_run_row a clock) s.runs) ≡ some r'
      → finish_run clock i k a s ≡ ok ((t', r'), finished_store)
  unfolding finish_run update_task update_runs require_task require_task_run
  finish_run-hit r r' t' hit task run = ground arith

  finish_run-miss : first ending s.runs ≡ none → finish_run clock i k a s ≡ err run_not_found
  unfolding finish_run update_task update_runs
  finish_run-miss miss = ground arith

  finish_run-named :
      (r : TaskRun)
      → find_run r.id s.runs ≡ some r
      → first ending s.runs ≡ (if r.id == k then some r else none)
      → ending r ≡ (r.id == k)
      → (r.id ≡ k
          → finish_run clock i k a s
            ≡ ok ((finish_row a clock t, finish_run_row a clock r), finished_store))
        × (r.id ≢ k → finish_run clock i k a s ≡ err run_not_found)
  finish_run-named r keyed hit passes = (
    λ e.
        finish_run-hit r (finish_run_row a clock r) (finish_row a clock t) (ground arith)
          (finish_row-found i clock a s.tasks t found)
          (finish_run_row-found r.id clock a ending s.runs r keyed (ground arith)),
    λ n. finish_run-miss (ground arith),
  )

-- The two rows that an end writes, where it names the running run of the task.
pub finish_run-rows :
    (clock i k : ℕ) (a : FinishArgs) (s : Store) (t : Task)
    → Inv s
    → (found : find_task i s.tasks ≡ some t) (valid : validate_finish a s ≡ ok (tt, s))
      (h : is_finishable a clock t ≡ true)
    → (r : TaskRun) × (active_runs i s.runs ≡ r ∷ [])
      × (r.id ≡ k
          → (s' : Store) × (finish_run clock i k a s
              ≡ ok ((finish_row a clock t, finish_run_row a clock r), s'))
            × (find_task i s'.tasks ≡ some (finish_row a clock t))
            × (find_run k s'.runs ≡ some (finish_run_row a clock r)))
      × (r.id ≢ k → finish_run clock i k a s ≡ err run_not_found)
finish_run-rows clock i k a s t v found valid h =
    let held : is_held a.worker_id a.lock_token clock t ≡ true = ground arith in
    let run = held-run i s t a.worker_id a.lock_token clock v found held in
    let passes = ends-run i k s t a clock run held in
    let (named, other) =
      finish_run-named clock i k a s t found valid h run.run run.keyed
        (first-ends i k s t a clock run held) passes in
    (
      run.run,
      run.single,
      λ e. (
        finished_store clock i k a s t found valid h,
        named e,
        finish_row-found i clock a s.tasks t found,
        subst
            (λ n.
              find_run n (finished_store clock i k a s t found valid h).runs
              ≡ some (finish_run_row a clock run.run))
            e
            (finish_run_row-found run.run.id clock a _ s.runs run.run run.keyed
              (ground (arith, passes, e))),
      ),
      other,
    )

-- What the callers of `finish_run` need of it.
pub finish_run-total :
    (clock i k : ℕ) (a : FinishArgs) (s : Store) (t : Task)
    → Inv s
    → find_task i s.tasks ≡ some t
    → validate_finish a s ≡ ok (tt, s)
    → is_finishable a clock t ≡ true
    → (r : TaskRun) × (active_runs i s.runs ≡ r ∷ [])
      × (r.id ≡ k
          → (s' : Store) × (finish_run clock i k a s
              ≡ ok ((finish_row a clock t, finish_run_row a clock r), s')))
      × (r.id ≢ k → finish_run clock i k a s ≡ err run_not_found)
finish_run-total clock i k a s t v found valid h =
    let (r, single, named, other) = finish_run-rows clock i k a s t v found valid h in
    (r, single, λ e. let (s', done, _, _) = named e in (s', done), other)

named-run :
    (i k : ℕ) (a : FinishArgs) (s : Store) (r q : TaskRun)
    → first (λ x. (x.id == k) && is_owners_run i a.worker_id a.lock_token x) s.runs
      ≡ (if r.id == k then some r else none)
    → first (λ x. (x.id == k) && is_owners_run i a.worker_id a.lock_token x) s.runs ≡ some q
    → r.id ≡ k
named-run i k a s r q hit ended = ground arith

same-run-id : (r r' : TaskRun) → ◌≡◌ {A = List TaskRun} (r ∷ []) (r' ∷ []) → r.id ≡ r'.id
same-run-id r r' h = cc

finishable-owner :
    (a : FinishArgs) (clock : ℕ) (t : Task)
    → is_finishable a clock t ≡ true
    → (t.locked_by ≡ some a.worker_id)
      × (t.lock_token ≡ some a.lock_token)
      × (is_held a.worker_id a.lock_token clock t ≡ true)
finishable-owner a clock t h = (
  holds→some t.locked_by a.worker_id (ground arith),
  holds→some t.lock_token a.lock_token (ground arith),
  ground arith,
)

-- The run that a call ended is the task's running run.
effect-run :
    (clock i k : ℕ) (a : FinishArgs) (s s' : Store)
    → Inv s
    → FinishEffect clock i k a s s'
    → (r : TaskRun) × (active_runs i s.runs ≡ r ∷ []) × (r.id ≡ k)
effect-run clock i k a s s' v e =
    let (_, _, held) = finishable-owner a clock e.old e.allowed in
    let run = held-run i s e.old a.worker_id a.lock_token clock v e.found held in
    let hit = first-ends i k s e.old a clock run held in
    (run.run, run.single, named-run i k a s run.run e.run hit e.ended)

-- Two workers cannot both end a run of the same task: on tables in order, any two calls of
-- `finish_run` for a task that would both succeed carry the same worker, the same lock token and the
-- same run.
pub finish_run-exclusive :
    (clock clock' i k k' : ℕ) (a b : FinishArgs) (s s' s'' : Store) (x y : Task × TaskRun)
    → Inv s
    → finish_run clock i k a s ≡ ok (x, s')
    → finish_run clock' i k' b s ≡ ok (y, s'')
    → (a.worker_id ≡ b.worker_id) × (a.lock_token ≡ b.lock_token) × (k ≡ k')
finish_run-exclusive clock clock' i k k' a b s s' s'' x y v h h' =
    let e = finish_run-effect clock i k a s s' x h in
    let f = finish_run-effect clock' i k' b s s'' y h' in
    let same : e.old ≡ f.old = some-injective e.old f.old (sym e.found ∙ f.found) in
    let (w, j, _) = finishable-owner a clock e.old e.allowed in
    let (w', j', _) = finishable-owner b clock' f.old f.allowed in
    let (r, single, named) = effect-run clock i k a s s' v e in
    let (r', single', named') = effect-run clock' i k' b s s'' v f in
    (
      some-injective _ _ (sym w ∙ ap (λ (t : Task). t.locked_by) same ∙ w'),
      some-injective _ _ (sym j ∙ ap (λ (t : Task). t.lock_token) same ∙ j'),
      sym named ∙ same-run-id r r' (sym single ∙ single') ∙ named',
    )
