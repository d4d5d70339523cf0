-- ===== src/Tasks/Fencing.antt =====
-- A lock token that was taken away never comes back: its old owner can write nothing more.
use media_sync.Prelude.{
  ℕ, String, ◌≡◌, ◌≢◌, refl, sym, subst, ap, true, false, Option, none, some, holds, text_eq_iff,
  arith, inl, inr,
}
use media_sync.Tasks.Model.{Task, TaskRun, Store, ownership_is_clear}
use media_sync.Tasks.Session.{ok, find_task}
use media_sync.Tasks.Repository.Values.{transition_row}
use media_sync.Tasks.Repository.Claim.{claim_row, heartbeat}
use media_sync.Tasks.Repository.Finish.{FinishArgs, finish_row, finish_run}
use media_sync.Tasks.Repository.Recover.{
  ExpiredTaskLease, RecoveredTaskLease, recover_row, recover_expired_lease,
}
use media_sync.Tasks.Invariant.{Inv}
use media_sync.Tasks.Invariant.Heartbeat.{heartbeat-effect}
use media_sync.Tasks.Invariant.Finish.{finish_run-effect}
use media_sync.Tasks.Invariant.Recover.{RecoverEffect, recover-effect, recover-Inv}
use media_sync.Tasks.TaskStep.{
  TaskStep, stays, appears, moves, claimed, extended, ended, expired, ClaimsOnly, Step-TaskStep,
  find_task-written,
}
use media_sync.Tasks.System.{Reach, here, after, Reach-keeps}

-- The row does not hold the token.
abbrev pub Lacks : String → Option Task → Type 0
Lacks k none = Unit
Lacks k (some t) = holds t.lock_token k ≡ false

-- No claim on the way uses the token, as with tokens that are drawn at random.
abbrev pub Avoids : String → {to_ms : ℕ → ℕ} {s s' : Store} → Reach to_ms s s' → Type 0
Avoids k here = Unit
Avoids k (after r step) = Avoids k r × ClaimsOnly (λ j. j ≢ k) step

claim-Lacks :
    (w j k : String) (now lease_until : ℕ) (t : Task)
    → j ≢ k
    → holds (claim_row w j now lease_until t).lock_token k ≡ false
unfolding claim_row
claim-Lacks w j k now lease_until t h = ground (arith, text_eq_iff j k)

appears-Lacks : (k : String) (t : Task) → ownership_is_clear t ≡ true → holds t.lock_token k ≡ false
appears-Lacks k t h = ground arith

TaskStep-Lacks :
    (k : String) {o o' : Option Task} → TaskStep (λ j. j ≢ k) o o' → Lacks k o → Lacks k o'
unfolding transition_row finish_row recover_row
TaskStep-Lacks k (stays e) h = rw e h
TaskStep-Lacks k (appears t c p e e') h = rw e' (appears-Lacks k t c)
TaskStep-Lacks k (moves t a now same allowed unowned e e') h = rw e' (rw e at h)
TaskStep-Lacks k (claimed t w j now lease_until token allowed e e') h =
    rw e' (claim-Lacks w j k now lease_until t token)
TaskStep-Lacks k (extended t w j duration now leased held e e') h = rw e' (rw e at h)
TaskStep-Lacks k (ended t a clock fits allowed left e e') h = rw e' refl
TaskStep-Lacks k (expired t lease next now due leased e e') h = rw e' refl

Reach-Lacks :
    (to_ms : ℕ → ℕ) (k : String) (i : ℕ) {s s' : Store}
    → Inv s
    → (r : Reach to_ms s s') → Avoids k r
    → Lacks k (find_task i s.tasks)
    → Lacks k (find_task i s'.tasks)
Reach-Lacks to_ms k i v here avoid h = h
Reach-Lacks to_ms k i v (after {t} {u} r step) avoid h =
    TaskStep-Lacks k (Step-TaskStep (λ j. j ≢ k) to_ms t u (Reach-keeps to_ms v r) step avoid.1 i)
      (Reach-Lacks to_ms k i v r avoid.0 h)

recovered-Lacks :
    (lease : ExpiredTaskLease) (next : Option ℕ) (now : ℕ) (s s' : Store)
    → RecoverEffect lease next now s s'
    → Lacks lease.lock_token (find_task lease.task_id s'.tasks)
unfolding recover_row
recovered-Lacks lease next now s s' e =
    rw
      (find_task-written lease.task_id _ s s' e.old (λ u. refl)
        (ap (λ (z : Store). z.tasks) e.result) e.found)
      refl

module _ (k : String) (i : ℕ) (s : Store) (lacks : Lacks k (find_task i s.tasks)) where
  not-heartbeat :
      (w : String) (duration now : ℕ) (s' : Store) (x : Task × TaskRun)
      → heartbeat i w k duration now s ≢ ok (x, s')
  not-heartbeat w duration now s' x h =
      let e = heartbeat-effect i w k duration now s s' x h in
      let free = subst (Lacks k) e.found lacks in ground (arith, free, e.allowed)

  not-finish_run :
      (clock run_id : ℕ) (a : FinishArgs) (s' : Store) (x : Task × TaskRun)
      → a.lock_token ≡ k
      → finish_run clock i run_id a s ≢ ok (x, s')
  not-finish_run clock run_id a s' x same h =
      let e = finish_run-effect clock i run_id a s s' x h in
      let free = subst (Lacks k) e.found lacks in
      ground (arith, subst (λ j. holds e.old.lock_token j ≡ false) (sym same) free, e.allowed)

-- Once a lease has been recovered on tables in order, its worker can neither extend it nor finish its run, however the
-- other workers go on, as long as no claim draws the same lock token again.
pub recover-fences :
    (to_ms : ℕ → ℕ) (lease : ExpiredTaskLease) (next : Option ℕ) (now : ℕ) (s s₁ : Store)
    {s₂ : Store} (x : RecoveredTaskLease)
    → Inv s
    → recover_expired_lease lease next now s ≡ ok (some x, s₁)
    → (r : Reach to_ms s₁ s₂) → Avoids lease.lock_token r
    → ((w : String) (duration at : ℕ) (s₃ : Store) (y : Task × TaskRun)
        → heartbeat lease.task_id w lease.lock_token duration at s₂ ≢ ok (y, s₃))
      × ((clock run_id : ℕ) (a : FinishArgs) (s₃ : Store) (y : Task × TaskRun)
          → a.lock_token ≡ lease.lock_token
          → finish_run clock lease.task_id run_id a s₂ ≢ ok (y, s₃))
recover-fences to_ms lease next now s s₁ {s₂} x v h r avoid =
    elim (recover-effect lease next now s s₁ (some x) h) [
      | inl (no_lease, _) ↦ absurd (cc)
      | inr e ↦
          let i = lease.task_id in
          let k = lease.lock_token in
          let lacks =
            Reach-Lacks to_ms k i (recover-Inv lease next now s s₁ (some x) v h) r avoid
              (recovered-Lacks lease next now s s₁ e) in
          (not-heartbeat k i s₂ lacks, not-finish_run k i s₂ lacks)
    ]
