-- ===== src/Tasks/Queue.antt =====
-- Which task `claim_next` takes, and that it takes one whenever it can.
use mathlib.Core.List.{Memᴰ}
use mathlib.Core.Option.{some-injective}
use media_sync.Prelude.{
  ℕ, ◌+◌, ◌<◌, ◌≤◌, String, ◌≡◌, refl, subst, Bool, true, false, none, some, List, [], ◌∷◌,
  is_empty, first, select, All, All-mem, All-select, All-imp, mem-select, select-All, arith, ◌⊎◌,
  inl, inr, Option-cases, Bool-cases, text_eq_refl, ◌++◌,
}
use media_sync.Prelude.Sorting.{
  IsOrder, IsSorted, sort, sort-IsSorted, sort-All, mem-sort, sort-nil, All-sort,
}
use media_sync.Tasks.Status.{is_leased}
use media_sync.Tasks.Model.{Task, TaskRun, Store}
use media_sync.Tasks.Session.{
  ok, find_task, put_task, has_run_number, max_run_number, insert_run, update_task, require_task,
}
use media_sync.Tasks.Repository.Values.{validate_owner_arguments}
use media_sync.Tasks.Repository.Create.{is_active_of, append_task_run, create_run}
use media_sync.Tasks.Repository.Claim.{
  TaskClaim, is_claimable, is_still_claimable, queued_at, precedes, head_of, candidate, claim_row,
  claim_task, claim_next,
}
use media_sync.Tasks.Rows.{active_runs, first-active_runs}
use media_sync.Tasks.Keys.{find_task-mem}
use media_sync.Tasks.Ending.{IsSound-IsLinked}
use media_sync.Tasks.Invariant.{IsLinked, Inv}
use media_sync.Tasks.Invariant.Claim.{find_task-claimed, run_of}

-- The queue's order is one.
precedes-IsOrder : IsOrder precedes
unfolding precedes
precedes-IsOrder = record {
  asymmetric = λ a b h. ground arith;
  negative = λ a b c h k. ground arith;
}

precedes_irrefl : (t : Task) → precedes t t ≡ false
unfolding precedes
precedes_irrefl t = ground arith

head-first :
    (l : List Task) (t : Task)
    → IsSorted precedes l
    → head_of l ≡ some t
    → Memᴰ t l × All (λ u. precedes u t ≡ false) l
head-first [] t s h = absurd (cc)
head-first (u ∷ us) t s h =
    subst (λ x. Memᴰ x (u ∷ us) × All (λ v. precedes v x ≡ false) (u ∷ us)) (some-injective u t h)
      (Memᴰ.head refl, (precedes_irrefl u, s.0))

-- A task stands before another one in the queue, or is it: higher priority first, then the earlier
-- due moment (a task that was never scheduled is due since its creation), then the older task, then
-- the smaller id.
abbrev pub StandsBefore : Task → Task → Type 0
StandsBefore t u =
    (u.priority ≤ t.priority)
    × (u.priority ≡ t.priority
        → (queued_at t ≤ queued_at u)
          × (queued_at u ≡ queued_at t
              → (t.created_at ≤ u.created_at) × (u.created_at ≡ t.created_at → t.id ≤ u.id)))

precedes-StandsBefore : (t u : Task) → precedes u t ≡ false → StandsBefore t u
unfolding precedes
precedes-StandsBefore t u h =
    (ground arith, λ e. (ground arith, λ f. (ground arith, λ g. ground arith)))

-- A claimable task of the queue that stands before every claimable task.
pub record IsFirst (now : ℕ) (tasks : List Task) (t : Task) : Type 0 where
  pub listed : Memᴰ t tasks
  pub claimable : is_claimable now t ≡ true
  pub unbeaten : All (λ u. is_claimable now u ≡ true → StandsBefore t u) tasks

pub candidate-IsFirst :
    (now : ℕ) (tasks : List Task) (t : Task) → candidate now tasks ≡ some t → IsFirst now tasks t
unfolding candidate
candidate-IsFirst now tasks t h =
    let query = select (is_claimable now) tasks in
    let (in_queue, unbeaten) =
      head-first (sort precedes query) t (sort-IsSorted precedes precedes-IsOrder query) h in
    record {
      listed = mem-select t (is_claimable now) tasks (mem-sort precedes t query in_queue);
      claimable =
          All-mem (λ u. is_claimable now u ≡ true) t (sort precedes query)
            (sort-All precedes (λ u. is_claimable now u ≡ true) query
              (select-All (is_claimable now) tasks))
            in_queue;
      unbeaten = All-select (StandsBefore t) (is_claimable now) tasks (
          All-sort precedes (StandsBefore t) query
            (All-imp (sort precedes query) (precedes-StandsBefore t) unbeaten));
    }

head_of-none : (l : List Task) → head_of l ≡ none → l ≡ []
head_of-none [] h = refl
head_of-none (t ∷ l) h = absurd (cc)

select-none :
    (test : Task → Bool) (l : List Task) → select test l ≡ [] → All (λ t. test t ≡ false) l
select-none test [] h = tt
select-none test (t ∷ l) h = elim (Bool-cases (test t)) [
  | inl e ↦ absurd (ground arith)
  | inr e ↦ (e, select-none test l (rw e at h))
]

candidate-none :
    (now : ℕ) (tasks : List Task)
    → candidate now tasks ≡ none
    → All (λ t. is_claimable now t ≡ false) tasks
unfolding candidate
candidate-none now tasks h =
    select-none (is_claimable now) tasks (sort-nil precedes _ (head_of-none _ h))

-- The next run number is not taken.
has_run_number-max :
    (i n : ℕ) (rs : List TaskRun) → max_run_number i rs < n → has_run_number i n rs ≡ false
unfolding has_run_number max_run_number
has_run_number-max i n [] h = refl
has_run_number-max i n (r ∷ rs) h = ground (arith, has_run_number-max i n rs)

idle-first : (i : ℕ) (rs : List TaskRun) → active_runs i rs ≡ [] → first (is_active_of i) rs ≡ none
idle-first i rs h = rw (first-active_runs i (is_active_of i) rs (λ r e. e), h)

claimable-still : (now : ℕ) (t : Task) → is_claimable now t ≡ true → is_still_claimable now t ≡ true
claimable-still now t h = ground arith

claimable-idle :
    (now : ℕ) (t : Task) (rs : List TaskRun) → IsLinked t rs → is_claimable now t ≡ true → rs ≡ []
claimable-idle now t rs v h = ground (arith, v.free)

module _ (w k : String) (now lease_until i : ℕ) (s : Store) (t : Task) where
  claim_row-leased :
      (is_leased (claim_row w k now lease_until t).status ≡ true)
      × ((claim_row w k now lease_until t).locked_by ≡ some w)
      × ((claim_row w k now lease_until t).lock_token ≡ some k)
  unfolding claim_row
  claim_row-leased = ground arith

  -- What a claim hands to its worker, and the tables that it leaves.
  abbrev pub claim_of : TaskClaim
  claim_of = record {
    task = claim_row w k now lease_until t;
    task_run = run_of w k now lease_until i s;
    lock_token = k;
    lease_until = lease_until;
  }

  abbrev pub claimed_store : Store
  claimed_store = record s {
    tasks = put_task i (claim_row w k now lease_until) s.tasks;
    runs = s.runs ++ run_of w k now lease_until i s ∷ [];
    next_run_id = s.next_run_id + 1;
  }

  claim_task-total :
      find_task i s.tasks ≡ some t
      → is_claimable now t ≡ true
      → active_runs i s.runs ≡ []
      → claim_task w k now lease_until i s ≡ ok (some claim_of, claimed_store)
  unfolding claim_task update_task require_task create_run append_task_run insert_run
  claim_task-total found h idle = ground (
    arith,
    find_task-claimed w k now lease_until i s t found,
    claimable-still now t h,
    claim_row-leased,
    text_eq_refl w,
    text_eq_refl k,
    idle-first i s.runs idle,
    has_run_number-max i (max_run_number i s.runs + 1) s.runs (omega arith),
  )

-- `claim_next` claims the first claimable row, or finds none.
pub claim_next-total :
    (w k : String) (duration now : ℕ) (s : Store)
    → is_empty w ≡ false
    → 0 < duration
    → Inv s
    → All (λ t. is_claimable now t ≡ false) s.tasks × (claim_next w k duration now s ≡ ok (none, s))
      ⊎ ((t : Task) × IsFirst now s.tasks t
          × (claim_next w k duration now s
              ≡ ok (
                some (claim_of w k now (now + duration) t.id s t),
                claimed_store w k now (now + duration) t.id s t,
              )))
unfolding claim_next validate_owner_arguments
claim_next-total w k duration now s named lasting v = elim (Option-cases (candidate now s.tasks)) [
  | inl empty ↦ inl (candidate-none now s.tasks empty, ground arith)
  | inr (t, head) ↦
      let best = candidate-IsFirst now s.tasks t head in
      let found = find_task-mem t s.tasks v.task_keys best.listed in
      let idle =
        claimable-idle now t _ (IsSound-IsLinked t.id s t (v.sound t.id) found) best.claimable in
      let run = claim_task-total w k now (now + duration) t.id s t found best.claimable idle in
      inr (t, best, ground (arith, run))
]
