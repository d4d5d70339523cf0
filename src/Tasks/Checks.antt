-- ===== src/Tasks/Checks.antt =====
-- Checks that raise or leave the tables alone.
use media_sync.Prelude.{◌≡◌, refl, ap, ◌∙◌, ◌⊎◌, inl, inr}
use media_sync.Tasks.Model.{Store}
use media_sync.Tasks.Transitions.{TaskError}
use media_sync.Tasks.Session.{M, Result, ok, err}

pub Result-cases :
    {A : Type 0} (r : Result A) → ((e : TaskError) × (r ≡ err e)) ⊎ ((a : A) × (r ≡ ok a))
Result-cases (ok a) = inr (a, refl)
Result-cases (err e) = inl (e, refl)

-- A check that returns has changed nothing.
abbrev pub IsCheck : M (Unit {0}) → Type 0
IsCheck m = (s s' : Store) → m s ≡ ok (tt, s') → s' ≡ s

pub IsCheck-cases :
    (m : M (Unit {0}))
    → IsCheck m
    → (s : Store) → ((e : TaskError) × (m s ≡ err e)) ⊎ (m s ≡ ok (tt, s))
IsCheck-cases m check s = elim (Result-cases (m s)) [
  | inl bad ↦ inl bad
  | inr (r, fine) ↦ inr (fine ∙ ap (λ t. ok (tt, t)) (check s r.1 fine))
]
