-- ===== src/Worker/Cycle.antt =====
-- The transaction of a worker that recovers and claims, as steps of the task engine.
use media_sync.Prelude.{
  ℕ, ◌+◌, String, ◌≡◌, refl, subst, Bool, true, false, Option, none, some, List, [], ◌∷◌, arith,
  inl, inr,
}
use media_sync.Tasks.Model.{Store}
use media_sync.Tasks.Session.{ok}
use media_sync.Tasks.Repository.Claim.{TaskClaim, claim_next}
use media_sync.Tasks.Repository.Recover.{
  ExpiredTaskLease, list_expired_leases, recover_expired_lease,
}
use media_sync.Tasks.Checks.{Result-cases}
use media_sync.Tasks.System.{recovers, Reach, here, after}
use media_sync.Tasks.Fencing.{Avoids}
use media_sync.Worker.Backoff.{delay_for}
use media_sync.Worker.Runtime.{Config, ClaimedExecution, recover_all, recover_and_claim}

-- Some steps lead from one store to the other, and none of them claims a task.
pub record Quietly (to_ms : ℕ → ℕ) (s s' : Store) : Type 0 where
  pub steps : Reach to_ms s s'
  pub quiet : (k : String) → Avoids k steps

recover_all-Quietly :
    (to_ms : ℕ → ℕ) (c : Config) (now : ℕ) (leases : List ExpiredTaskLease) (n : ℕ)
    (s₀ s s' : Store)
    → Quietly to_ms s₀ s
    → recover_all c now leases s ≡ ok (n, s')
    → Quietly to_ms s₀ s'
unfolding recover_all
recover_all-Quietly to_ms c now [] n s₀ s s' q h = let same : s' ≡ s = ground arith in rw same q
recover_all-Quietly to_ms c now (lease ∷ leases) n s₀ s s' q h =
    elim (Result-cases (recover_expired_lease lease (next lease) now s)) [
      | inl (e, bad) ↦ absurd (ground arith)
      | inr ((x, t), fine) ↦ elim (Result-cases (recover_all c now leases t)) [
        | inl (e, bad) ↦ absurd (ground arith)
        | inr ((m, u), rest) ↦
            let same : s' ≡ u = ground arith in
            rw same (
              recover_all-Quietly to_ms c now leases m s₀ t u
                (record {
                  steps = after q.steps (recovers lease (next lease) now x fine);
                  quiet = λ k. (q.quiet k, tt);
                })
                rest)
      ]
    ]
  where
    next : ExpiredTaskLease → Option ℕ
    next l = some (now + delay_for c.backoff l.retry_count)

list-same :
    (limit now : ℕ) (s s' : Store) (l : List ExpiredTaskLease)
    → list_expired_leases limit now s ≡ ok (l, s')
    → s' ≡ s
unfolding list_expired_leases
list-same limit now s s' l h = ground arith

-- The transaction that recovers and claims: first some recoveries, then, unless the gate is closed,
-- one claim.
record CycleEffect (to_ms : ℕ → ℕ) (c : Config) (now : ℕ) (token : String) (blocked : Bool)
    (x : Option ClaimedExecution × ℕ × Bool) (s s' : Store) : Type 0 where
  middle : Store
  recovered : Quietly to_ms s middle
  gated : blocked ≡ true → (x.0 ≡ none) × (s' ≡ middle)
  open_gate :
      blocked ≡ false
      → (y : Option TaskClaim) × (claim_next c.worker_id token c.lease_duration now middle
          ≡ ok (y, s'))

cycle-effect :
    (to_ms : ℕ → ℕ) (c : Config) (now : ℕ) (token : String) (blocked : Bool)
    (x : Option ClaimedExecution × ℕ × Bool) (s s' : Store)
    → recover_and_claim c now token blocked s ≡ ok (x, s')
    → CycleEffect to_ms c now token blocked x s s'
unfolding recover_and_claim
cycle-effect to_ms c now token blocked x s s' h =
    elim (Result-cases (list_expired_leases c.recovery_limit now s)) [
      | inl (e, bad) ↦ absurd (ground arith)
      | inr ((leases, t), listed) ↦ elim (Result-cases (recover_all c now leases t)) [
        | inl (e, bad) ↦ absurd (ground arith)
        | inr ((n, u), done) ↦
            let same = list-same c.recovery_limit now s t leases listed in
            record {
              middle = u;
              recovered =
                  recover_all-Quietly to_ms c now leases n s s u
                    (record { steps = here; quiet = λ k. tt })
                    (subst (λ z. recover_all c now leases z ≡ ok (n, u)) same done);
              gated = λ b. (ground arith, ground arith);
              open_gate = λ b.
                  elim (Result-cases (claim_next c.worker_id token c.lease_duration now u)) [
                    | inl (e, bad) ↦ absurd (ground arith)
                    | inr ((y, w), took) ↦ (y, ground arith)
                  ];
            }
      ]
    ]

-- While the update gate is closed, the transaction that recovers and claims gives the worker no
-- task, and takes no step that claims one for it: what it does to the tables is to recover leases.
pub gated-Quietly :
    (to_ms : ℕ → ℕ) (c : Config) (now : ℕ) (token : String) (x : Option ClaimedExecution × ℕ × Bool)
    (s s' : Store)
    → recover_and_claim c now token true s ≡ ok (x, s')
    → (x.0 ≡ none) × Quietly to_ms s s'
gated-Quietly to_ms c now token x s s' h =
    let e = cycle-effect to_ms c now token true x s s' h in
    ((e.gated refl).0, rw (e.gated refl).1 e.recovered)
