-- ===== src/Tasks/TaskStep.antt =====
-- The system seen from one task: every transaction is, for each task, one step of a small machine.
-- This is the abstract view that the proofs about single tasks go by.
use media_sync.Prelude.{
  ℕ, ◌+◌, String, ◌≡◌, refl, subst, ap, true, false, Option, none, some, inl, inr, arith, ==-refl,
}
use native.Mathlib.Decide.{ℕ_discrete}
use media_sync.Tasks.Status.{pending, is_leased, status_eq→≡}
use media_sync.Tasks.Model.{Task, Store, ownership_is_clear}
use media_sync.Tasks.Transitions.{can_transition}
use media_sync.Tasks.Session.{find_task, put_task}
use media_sync.Tasks.Repository.Values.{TransitionArgs, transition_row, needs_ownership}
use media_sync.Tasks.Repository.Claim.{claim_row, is_still_claimable, is_held, extend_row}
use media_sync.Tasks.Repository.Finish.{FinishArgs, finish_row, is_finishable, validate_finish}
use media_sync.Tasks.Repository.Recover.{ExpiredTaskLease, is_lease, recover_row, recovery_status}
use media_sync.Tasks.Rows.{find_task-put, find_task-append_fresh}
use media_sync.Tasks.Ending.{IsSound-IsLinked}
use media_sync.Tasks.Frame.{Touches, insert_task-Touches}
use media_sync.Tasks.Invariant.{Inv}
use media_sync.Tasks.Invariant.Transition.{
  transition-effect, transition-Touches, transition_row-id, moment, create_task-effect, created,
}
use media_sync.Tasks.Invariant.Claim.{claim_next-effect, claim_task-Touches, claim_row-id}
use media_sync.Tasks.Invariant.Heartbeat.{heartbeat-effect, heartbeat-Touches}
use media_sync.Tasks.Invariant.Finish.{
  FinishEffect, finish_run-effect, finish_run-Touches, validate_finish-statuses,
}
use media_sync.Tasks.Invariant.Recover.{recover-effect, recover-Touches, is_lease-owned}
use media_sync.Tasks.System.{
  Step, creates, transitions, claims, beats, finishes, recovers, reconciles, reconcile-noop,
}

-- The row of one task before and after; a lock token that a claim writes satisfies `Token`.
pub data TaskStep (Token : String → Type 0) (o o' : Option Task) : Type 0 where
  stays : o' ≡ o → TaskStep Token o o'
  appears :
      (t : Task)
      → ownership_is_clear t ≡ true
      → t.status ≡ pending
      → o ≡ none
      → o' ≡ some t
      → TaskStep Token o o'
  moves :
      (t : Task) (a : TransitionArgs) (now : ℕ)
      → t.status ≡ a.expected_status
      → can_transition a.expected_status a.target_status ≡ true
      → needs_ownership a.expected_status a.target_status ≡ false
      → o ≡ some t
      → o' ≡ some (transition_row a now t)
      → TaskStep Token o o'
  claimed :
      (t : Task) (w k : String) (now lease_until : ℕ)
      → Token k
      → is_still_claimable now t ≡ true
      → o ≡ some t
      → o' ≡ some (claim_row w k now lease_until t)
      → TaskStep Token o o'
  extended :
      (t : Task) (w k : String) (duration now : ℕ)
      → is_leased t.status ≡ true
      → is_held w k now t ≡ true
      → o ≡ some t
      → o' ≡ some (extend_row duration now t)
      → TaskStep Token o o'
  ended :
      (t : Task) (a : FinishArgs) (clock : ℕ)
      → is_finishable a clock t ≡ true
      → can_transition t.status a.task_status ≡ true
      → is_leased a.task_status ≡ false
      → o ≡ some t
      → o' ≡ some (finish_row a clock t)
      → TaskStep Token o o'
  expired :
      (t : Task) (lease : ExpiredTaskLease) (next : Option ℕ) (now : ℕ)
      → is_lease lease now t ≡ true
      → is_leased t.status ≡ true
      → o ≡ some t
      → o'
        ≡ some (
            recover_row
              (recovery_status t.status (t.retry_count + 1) t.max_retries)
              (t.retry_count + 1)
              next
              now
              t)
      → TaskStep Token o o'

-- The claims of a step use lock tokens that satisfy `Token`.
abbrev pub ClaimsOnly :
    (String → Type 0) → {to_ms : ℕ → ℕ} {s s' : Store} → Step to_ms s s' → Type 0
ClaimsOnly Token (claims w k duration now x h) = Token k
ClaimsOnly Token _ = Unit

pub ClaimsOnly-any :
    {to_ms : ℕ → ℕ} {s s' : Store} (step : Step to_ms s s') → ClaimsOnly (λ k. Unit {0}) step
ClaimsOnly-any (claims w k duration now x h) = tt
ClaimsOnly-any _ = tt

module _ (Token : String → Type 0) where
  Touches-TaskStep :
      (i : ℕ) (s s' : Store)
      → Touches i s s'
      → TaskStep Token (find_task i s.tasks) (find_task i s'.tasks)
      → (j : ℕ) → TaskStep Token (find_task j s.tasks) (find_task j s'.tasks)
  Touches-TaskStep i s s' p h j = elim (ℕ_discrete i j) [
    | yes e ↦ subst (λ k. TaskStep Token (find_task k s.tasks) (find_task k s'.tasks)) e h
    | no n ↦ stays (p.same_task j n)
  ]

-- The row that a write gives.
pub find_task-written :
    (i : ℕ) (set : Task → Task) (s s' : Store) (t : Task)
    → ((u : Task) → (set u).id ≡ u.id)
    → s'.tasks ≡ put_task i set s.tasks
    → find_task i s.tasks ≡ some t
    → find_task i s'.tasks ≡ some (set t)
find_task-written i set s s' t keeps e found =
    rw e (rw (find_task-put i i set s.tasks keeps, ==-refl i, found))

finish-allowed :
    (clock i k : ℕ) (a : FinishArgs) (s s' : Store) (e : FinishEffect clock i k a s s')
    → can_transition e.old.status a.task_status ≡ true
unfolding validate_finish
finish-allowed clock i k a s s' e =
    let same = status_eq→≡ e.old.status a.expected_task_status (ground (arith, e.allowed)) in
    rw same (ground (arith, e.valid))

-- On tables in order (`Inv`), and with the lock tokens of claims satisfying `Token`, every transaction
-- of the repository that succeeds is, at every task, one step of the machine `TaskStep`.
pub Step-TaskStep :
    (Token : String → Type 0) (to_ms : ℕ → ℕ) (s s' : Store)
    → Inv s
    → (step : Step to_ms s s') → ClaimsOnly Token step
    → (j : ℕ) → TaskStep Token (find_task j s.tasks) (find_task j s'.tasks)
unfolding finish_row recover_row
Step-TaskStep Token to_ms s s' v (creates given draft x d h) c j =
    let i = s.next_task_id in
    let (_, result) = create_task-effect given draft s s' x h in
    let absent = v.fresh_task i (omega arith) in
    rw result (
      Touches-TaskStep Token i s _ (insert_task-Touches (created draft s) s refl)
        (appears (created draft s) (ground (arith, d.clear)) refl absent
          (find_task-append_fresh i s.tasks (created draft s) absent refl))
        j)
Step-TaskStep Token to_ms s s' v (transitions clock i a x h) c j =
    let e = transition-effect clock i a s s' x h in
    let same = status_eq→≡ e.old.status a.expected_status e.expected in
    Touches-TaskStep Token i s s' (transition-Touches clock i a s s' x e)
      (moves e.old a (moment clock i a) same e.allowed e.unowned e.found (
        find_task-written i _ s s' e.old (transition_row-id clock i a)
          (ap (λ (z : Store). z.tasks) e.result) e.found))
      j
Step-TaskStep Token to_ms s s' v (claims w k duration now x h) c j =
    elim (claim_next-effect w k duration now s s' x h) [
      | inl (_, same) ↦ stays (rw same)
      | inr (claim, t, _, _, e) ↦
          Touches-TaskStep Token t.id s s'
            (claim_task-Touches w k now (now + duration) t.id s s' claim e)
            (claimed e.old w k now (now + duration) c e.allowed e.found (
              find_task-written t.id _ s s' e.old (claim_row-id w k now (now + duration) t.id)
                (ap (λ (z : Store). z.tasks) e.result) e.found))
            j
    ]
Step-TaskStep Token to_ms s s' v (beats i w k duration now x h) c j =
    let e = heartbeat-effect i w k duration now s s' x h in
    Touches-TaskStep Token i s s' (heartbeat-Touches i w k duration now s s' e)
      (extended e.old w k duration now e.leased e.allowed e.found (
        find_task-written i _ s s' e.old (λ u. refl) (ap (λ (z : Store). z.tasks) e.result)
          e.found))
      j
Step-TaskStep Token to_ms s s' v (finishes clock i k a x h) c j =
    let e = finish_run-effect clock i k a s s' x h in
    Touches-TaskStep Token i s s' (finish_run-Touches clock i k a s s' e)
      (ended e.old a clock e.allowed (finish-allowed clock i k a s s' e)
        (validate_finish-statuses a s e.valid).0 e.found
        (find_task-written i _ s s' e.old (λ u. refl) (ap (λ (z : Store). z.tasks) e.result)
          e.found))
      j
Step-TaskStep Token to_ms s s' v (recovers lease next now x h) c j =
    elim (recover-effect lease next now s s' x h) [
      | inl (_, same) ↦ stays (rw same)
      | inr e ↦
          let i = lease.task_id in
          let linked = IsSound-IsLinked i s e.old (v.sound i) e.found in
          Touches-TaskStep Token i s s' (recover-Touches lease next now s s' e)
            (expired e.old lease next now e.expired
              (is_lease-owned lease next now e.old _ linked e.expired).1 e.found
              (find_task-written i _ s s' e.old (λ u. refl) (ap (λ (z : Store). z.tasks) e.result)
                e.found))
            j
    ]
Step-TaskStep Token to_ms s s' v (reconciles i next now x h) c j =
    stays (rw (reconcile-noop to_ms i next now s s' x v h).1)
