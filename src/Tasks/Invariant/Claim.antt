-- ===== src/Tasks/Invariant/Claim.antt =====
-- `create_run` and `claim_next` keep the invariant.
use media_sync.Prelude.{
  ℕ, ◌+◌, String, ◌≡◌, refl, true, Option, none, some, List, [], ◌∷◌, ◌++◌, arith, inl, inr, ◌⊎◌,
  Option-cases, Bool-cases, ==-refl,
}
use media_sync.Tasks.Model.{Task, TaskRun, Store}
use media_sync.Tasks.Session.{
  ok, find_task, put_task, require_task, update_task, insert_run, max_run_number,
}
use media_sync.Tasks.Repository.Values.{validate_owner_arguments}
use media_sync.Tasks.Repository.Create.{new_run, append_task_run, create_run}
use media_sync.Tasks.Repository.Claim.{
  TaskClaim, candidate, is_still_claimable, claim_row, claim_task, claim_next,
}
use media_sync.Tasks.Rows.{find_task-put, active_runs-append}
use media_sync.Tasks.Ending.{IsSound-IsLinked}
use media_sync.Tasks.Invariant.{IsLinked, IsSound, Inv}
use media_sync.Tasks.Frame.{
  Touches, Touches-trans, Touches-Inv, put_task-Touches, insert_run-Touches,
}

module _ (w k : String) (now lease_until i : ℕ) where
  abbrev pub run_of : Store → TaskRun
  run_of s = new_run i (max_run_number i s.runs + 1) w k now (some now) s.next_run_id

  pub claim_row-id : (t : Task) → (claim_row w k now lease_until t).id ≡ t.id
  unfolding claim_row
  claim_row-id t = refl

  -- The row that was claimed, found again.
  pub find_task-claimed :
      (s : Store) (t : Task)
      → find_task i s.tasks ≡ some t
      → find_task i (put_task i (claim_row w k now lease_until) s.tasks)
        ≡ some (claim_row w k now lease_until t)
  find_task-claimed s t found =
      ground (arith, find_task-put i i (claim_row w k now lease_until) s.tasks claim_row-id)

  pub record ClaimEffect (s s' : Store) (c : TaskClaim) : Type 0 where
    pub old : Task
    pub found : find_task i s.tasks ≡ some old
    pub allowed : is_still_claimable now old ≡ true
    pub result : s' ≡ record s {
      tasks = put_task i (claim_row w k now lease_until) s.tasks;
      runs = s.runs ++ run_of s ∷ [];
      next_run_id = s.next_run_id + 1;
    }
    pub claim_task : c.task ≡ claim_row w k now lease_until old
    pub claim_run : c.task_run ≡ run_of s

  pub claim_task-effect :
      (s s' : Store) (c : TaskClaim)
      → claim_task w k now lease_until i s ≡ ok (some c, s')
      → ClaimEffect s s' c
  unfolding claim_task update_task require_task create_run append_task_run insert_run
  claim_task-effect s s' c h = elim (Option-cases (find_task i s.tasks)) [
    | inl absent ↦ ground arith
    | inr (t, found) ↦ elim (Bool-cases (is_still_claimable now t)) [
      | inr refused ↦ ground arith
      | inl allowed ↦ record {
        old = t;
        found = found;
        allowed = allowed;
        result = ground (arith, find_task-claimed s t found);
        claim_task = ground (arith, find_task-claimed s t found);
        claim_run = ground (arith, find_task-claimed s t found);
      }
    ]
  ]

  -- A claim that hits no row changes nothing.
  claim_task-none : (s s' : Store) → claim_task w k now lease_until i s ≡ ok (none, s') → s' ≡ s
  unfolding claim_task update_task require_task create_run append_task_run insert_run
  claim_task-none s s' h = ground arith

  claim_row-IsLinked :
      (t : Task) (rs : List TaskRun) (s : Store)
      → is_still_claimable now t ≡ true
      → IsLinked t rs
      → IsLinked (claim_row w k now lease_until t) (rs ++ run_of s ∷ [])
  unfolding claim_row
  claim_row-IsLinked t rs s h v =
      let none_runs : rs ≡ [] = ground (arith, v.free) in
      rw none_runs (record {
        whole = ground arith;
        free = ground arith;
        held = λ _. (ground arith, (run_of s, refl, ground arith));
        completed = ground (arith, v.completed);
        blocked = ground (arith, v.blocked);
      })

  module _ (s s' : Store) (c : TaskClaim) (e : ClaimEffect s s' c) where
    pub claim_task-Touches : Touches i s s'
    unfolding claim_row
    claim_task-Touches = rw e.result (
        Touches-trans (put_task-Touches i (claim_row w k now lease_until) s (λ t. refl))
          (insert_run-Touches i (run_of s) _ refl refl))

    pub claim_task-IsSound : IsSound i s → IsSound i s'
    unfolding claim_row
    claim_task-IsSound v =
        rw
          (
            e.result,
            find_task-put i i (claim_row w k now lease_until) s.tasks (λ t. refl),
            ==-refl i,
            e.found,
            active_runs-append i s.runs (run_of s),
            ==-refl i,
          )
          (claim_row-IsLinked e.old _ s e.allowed (IsSound-IsLinked i s e.old v e.found))

-- What `claim_next` did: nothing, or the claim of the queue's first task.
pub claim_next-effect :
    (w k : String) (duration now : ℕ) (s s' : Store) (x : Option TaskClaim)
    → claim_next w k duration now s ≡ ok (x, s')
    → (x ≡ none) × (s' ≡ s)
      ⊎ ((c : TaskClaim) × (t : Task) × (x ≡ some c)
          × (candidate now s.tasks ≡ some t)
          × ClaimEffect w k now (now + duration) t.id s s' c)
unfolding claim_next validate_owner_arguments
claim_next-effect w k duration now s s' none h = elim (Option-cases (candidate now s.tasks)) [
  | inl empty ↦ inl (refl, ground arith)
  | inr (t, head) ↦ inl (refl, claim_task-none w k now (now + duration) t.id s s' (ground arith))
]
claim_next-effect w k duration now s s' (some c) h = elim (Option-cases (candidate now s.tasks)) [
  | inl empty ↦ absurd (ground arith)
  | inr (t, head) ↦
      inr (c, t, refl, head, claim_task-effect w k now (now + duration) t.id s s' c (ground arith))
]

pub claim_next-Inv :
    (w k : String) (duration now : ℕ) (s s' : Store) (x : Option TaskClaim)
    → Inv s
    → claim_next w k duration now s ≡ ok (x, s')
    → Inv s'
claim_next-Inv w k duration now s s' x v h = elim (claim_next-effect w k duration now s s' x h) [
  | inl (_, same) ↦ rw same v
  | inr (c, t, _, _, e) ↦
      Touches-Inv (claim_task-Touches w k now (now + duration) t.id s s' c e) v
        (claim_task-IsSound w k now (now + duration) t.id s s' c e (v.sound t.id))
]
