-- ===== src/Tasks/Lifecycle.antt =====
-- How a transaction may move the status of a task.
use media_sync.Prelude.{
  ℕ, ◌+◌, String, ◌≡◌, refl, subst, ap, ◌∙◌, true, Option, none, some, ◌⊎◌, inl, inr, arith,
}
use media_sync.Tasks.Status.{TaskStatus, is_terminal, is_leased}
use media_sync.Tasks.Model.{Task, Store}
use media_sync.Tasks.Transitions.{can_transition}
use media_sync.Tasks.Session.{find_task}
use media_sync.Tasks.Repository.Values.{transition_row}
use media_sync.Tasks.Repository.Claim.{claim_row, is_still_claimable}
use media_sync.Tasks.Repository.Finish.{finish_row}
use media_sync.Tasks.Repository.Recover.{recover_row, recovery_status}
use media_sync.Tasks.Invariant.{Inv}
use media_sync.Tasks.TaskStep.{
  TaskStep, stays, appears, moves, claimed, extended, ended, expired, ClaimsOnly-any, Step-TaskStep,
}
use media_sync.Tasks.System.{Step, Reach, here, after, Reach-keeps}

-- A status stays, or moves along the table of allowed transitions.
abbrev pub Moves : TaskStatus → TaskStatus → Type 0
Moves a b = (b ≡ a) ⊎ (can_transition a b ≡ true)

-- A row of a task before and after: it may appear, and never vanishes.
abbrev pub Follows : Option Task → Option Task → Type 0
Follows none later = Unit
Follows (some t) none = ⊥
Follows (some t) (some u) = Moves t.status u.status

Follows-refl : (o : Option Task) → Follows o o
Follows-refl none = tt
Follows-refl (some t) = inl refl

recover-Moves :
    (t : Task) (n now : ℕ) (next : Option ℕ)
    → is_leased t.status ≡ true
    → Moves t.status (recover_row (recovery_status t.status n t.max_retries) n next now t).status
unfolding recover_row recovery_status can_transition
recover-Moves t n now next h = ground arith

claim-Moves :
    (w k : String) (now lease_until : ℕ) (t : Task)
    → is_still_claimable now t ≡ true
    → Moves t.status (claim_row w k now lease_until t).status
unfolding claim_row can_transition
claim-Moves w k now lease_until t h = ground arith

TaskStep-Follows :
    {Token : String → Type 0} {o o' : Option Task} → TaskStep Token o o' → Follows o o'
unfolding transition_row finish_row
TaskStep-Follows {o = o} (stays e) = rw e (Follows-refl o)
TaskStep-Follows (appears t c p e e') = rw e tt
TaskStep-Follows (moves t a now same allowed unowned e e') = rw (e, e') (inr (rw same allowed))
TaskStep-Follows (claimed t w k now lease_until token allowed e e') =
    rw (e, e') (claim-Moves w k now lease_until t allowed)
TaskStep-Follows (extended t w k duration now leased held e e') = rw (e, e') (inl refl)
TaskStep-Follows (ended t a clock fits allowed left e e') = rw (e, e') (inr allowed)
TaskStep-Follows (expired t lease next now due leased e e') =
    rw (e, e') (recover-Moves t (t.retry_count + 1) now next leased)

-- On tables in order, a transaction that succeeds deletes no task and leaves every task's status as it
-- is or moves it along the table of allowed transitions (`can_transition`).
pub Step-Follows :
    (to_ms : ℕ → ℕ) (s s' : Store)
    → Inv s
    → Step to_ms s s'
    → (j : ℕ) → Follows (find_task j s.tasks) (find_task j s'.tasks)
Step-Follows to_ms s s' v step j =
    TaskStep-Follows (Step-TaskStep (λ k. Unit {0}) to_ms s s' v step (ClaimsOnly-any step) j)

Moves-terminal : (a b : TaskStatus) → is_terminal a ≡ true → Moves a b → b ≡ a
unfolding can_transition
Moves-terminal a b h m = ground arith

Follows-terminal :
    (t : Task) (o : Option Task)
    → is_terminal t.status ≡ true
    → Follows (some t) o
    → (u : Task) × (o ≡ some u) × (u.status ≡ t.status)
Follows-terminal t none h f = absurd f
Follows-terminal t (some u) h f = (u, refl, Moves-terminal t.status u.status h f)

-- From tables in order on, a task that has succeeded, failed or been cancelled keeps that status
-- over any sequence of transactions, and is never deleted.
pub Reach-terminal :
    (to_ms : ℕ → ℕ) (i : ℕ) (t : Task) {s s' : Store}
    → Inv s
    → Reach to_ms s s'
    → find_task i s.tasks ≡ some t
    → is_terminal t.status ≡ true
    → (u : Task) × (find_task i s'.tasks ≡ some u) × (u.status ≡ t.status)
Reach-terminal to_ms i t v here found h = (t, found, refl)
Reach-terminal to_ms i t v (after {t = mid} {u = last} r step) found h =
    let (u, at, same) = Reach-terminal to_ms i t v r found h in
    let moved =
      subst (λ o. Follows o (find_task i last.tasks)) at
        (Step-Follows to_ms mid last (Reach-keeps to_ms v r) step i) in
    let (w, at', same') =
      Follows-terminal u (find_task i last.tasks) (ap is_terminal same ∙ h) moved in
    (w, at', same' ∙ same)
