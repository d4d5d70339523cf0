-- ===== src/Tasks/Invariant/Transition.antt =====
-- `transition` and `create_task` keep the invariant.
use media_sync.Prelude.{
  ℕ, ◌+◌, ◌≡◌, refl, subst, true, false, Option, none, some, List, [], ◌∷◌, ◌++◌, arith, inl, inr,
  coalesce, Option-cases, Bool-cases,
}
use media_sync.Tasks.Status.{TaskStatus, pending, status_eq, status_eq→≡}
use media_sync.Tasks.Model.{Task, TaskRun, Store, ownership_is_clear}
use media_sync.Tasks.Transitions.{can_transition}
use media_sync.Tasks.Session.{ok, find_task, put_task, require_task, update_task}
use media_sync.Tasks.Repository.Values.{TransitionArgs, needs_ownership, transition_row, transition}
use media_sync.Tasks.Repository.Create.{create_task}
use media_sync.Tasks.Rows.{find_task-put, find_task-append_fresh, active_runs}
use media_sync.Tasks.Ending.{IsSound-IsLinked}
use media_sync.Tasks.Invariant.{Linked, IsLinked, Inv}
use media_sync.Tasks.Frame.{Touches, Touches-Inv, put_task-Touches, insert_task-Touches}

module _ (clock i : ℕ) (a : TransitionArgs) where
  abbrev pub moment : ℕ
  moment = coalesce a.occurred_at clock

  pub record TransitionEffect (s s' : Store) (x : Task) : Type 0 where
    pub old : Task
    pub found : find_task i s.tasks ≡ some old
    pub expected : status_eq old.status a.expected_status ≡ true
    pub allowed : can_transition a.expected_status a.target_status ≡ true
    pub unowned : needs_ownership a.expected_status a.target_status ≡ false
    pub result : s' ≡ record s { tasks = put_task i (transition_row a moment) s.tasks }
    pub returned : x ≡ transition_row a moment old

  pub transition_row-id : (t : Task) → (transition_row a moment t).id ≡ t.id
  unfolding transition_row
  transition_row-id t = refl

  find_task-moved :
      (s : Store) (t : Task)
      → find_task i s.tasks ≡ some t
      → find_task i (put_task i (transition_row a moment) s.tasks)
        ≡ some (transition_row a moment t)
  find_task-moved s t found =
      ground (arith, find_task-put i i (transition_row a moment) s.tasks transition_row-id)

  pub transition-effect :
      (s s' : Store) (x : Task) → transition clock i a s ≡ ok (x, s') → TransitionEffect s s' x
  unfolding transition update_task require_task
  transition-effect s s' x h = elim (Option-cases (find_task i s.tasks)) [
    | inl absent ↦ ground arith
    | inr (t, found) ↦ elim (Bool-cases (status_eq t.status a.expected_status)) [
      | inr other ↦ ground arith
      | inl expected ↦ record {
        old = t;
        found = found;
        expected = expected;
        allowed = ground arith;
        unowned = ground arith;
        result = ground (arith, find_task-moved s t found);
        returned = ground (arith, find_task-moved s t found);
      }
    ]
  ]

  transition_row-IsLinked :
      (t : Task) (rs : List TaskRun)
      → t.status ≡ a.expected_status
      → can_transition a.expected_status a.target_status ≡ true
      → needs_ownership a.expected_status a.target_status ≡ false
      → IsLinked t rs
      → IsLinked (transition_row a moment t) rs
  unfolding transition_row can_transition
  transition_row-IsLinked t rs e allowed unowned v = record {
    whole = ground (arith, v.whole);
    free = ground (arith, v.free);
    held = λ owned.
        let (leased, run) = v.held owned in
        let (r, single, mine) = run in
        (
          ground arith,
          (r, single, record { same_worker = mine.same_worker; same_token = mine.same_token }),
        );
    completed = ground (arith, v.completed);
    blocked = ground (arith, v.blocked);
  }

  pub transition-Touches : (s s' : Store) (x : Task) → TransitionEffect s s' x → Touches i s s'
  transition-Touches s s' x e =
      rw e.result (put_task-Touches i (transition_row a moment) s transition_row-id)

  pub transition-Inv :
      (s s' : Store) (x : Task) → Inv s → transition clock i a s ≡ ok (x, s') → Inv s'
  transition-Inv s s' x v h =
      let e = transition-effect s s' x h in
      Touches-Inv (transition-Touches s s' x e) v (
        rw (e.result, find_task-moved s e.old e.found)
          (transition_row-IsLinked e.old (active_runs i s.runs)
            (status_eq→≡ e.old.status a.expected_status e.expected) e.allowed e.unowned
            (IsSound-IsLinked i s e.old (v.sound i) e.found)))

-- A draft that a caller builds: nobody owns it, and it has no outcome yet.
pub record IsDraft (t : Task) : Type 0 where
  pub clear : ownership_is_clear t ≡ true
  pub open_ended : t.completed_at ≡ none
  pub unblocked : t.blocked_at ≡ none

abbrev pub created : Task → Store → Task
created draft s = record draft { id = s.next_task_id; status = pending }

pub create_task-effect :
    (given : Option TaskStatus) (draft : Task) (s s' : Store) (x : Task)
    → create_task given draft s ≡ ok (x, s')
    → (x ≡ created draft s)
      × (s'
          ≡ record s { tasks = s.tasks ++ created draft s ∷ []; next_task_id = s.next_task_id + 1 })
unfolding create_task
create_task-effect none draft s s' x h = ground arith
create_task-effect (some given) draft s s' x h = ground (arith, status_eq→≡ given pending)

created-IsLinked : (draft : Task) (s : Store) → IsDraft draft → IsLinked (created draft s) []
created-IsLinked draft s d = ground arith

pub create_task-Inv :
    (given : Option TaskStatus) (draft : Task) (s s' : Store) (x : Task)
    → IsDraft draft
    → Inv s
    → create_task given draft s ≡ ok (x, s')
    → Inv s'
create_task-Inv given draft s s' x d v h =
    let i = s.next_task_id in
    let absent = v.fresh_task i (omega arith) in
    let no_runs : active_runs i s.runs ≡ [] =
      subst (λ o. Linked o (active_runs i s.runs)) absent (v.sound i) in
    rw (create_task-effect given draft s s' x h).1 (
      Touches-Inv (insert_task-Touches (created draft s) s refl) v (
        rw (find_task-append_fresh i s.tasks (created draft s) absent refl, no_runs)
          (created-IsLinked draft s d)))
