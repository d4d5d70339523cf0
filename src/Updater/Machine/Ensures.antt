-- ===== src/Updater/Machine/Ensures.antt =====
-- What holds after a computation of an executor that ended with a result, given what held before it.
use media_sync.Prelude.{
  String, ◌≡◌, refl, sym, Bool, true, false, not, if◌then◌else◌, text_eq, text_eq_iff,
}
use media_sync.Updater.Errors.{UpdaterError, Result, ok, refuse}
use media_sync.Updater.Handoff.{HandoffDocument}
use media_sync.Updater.Journal.Inversion.{not-false}
use media_sync.Updater.Machine.{Collaborators, World, M, ◌>>=◌, ◌>>◌, return, lift, read_handoff}
use media_sync.Updater.Machine.Tracks.{bind_done, then_done, lift_done}

pub record Ensures {D A : Type 0} (P : World D → Type 0) (m : M D A) (Q : A → World D → Type 0)
    : Type 0 where
  pub run : (w v : World D) (a : A) → P w → m w ≡ (ok a, v) → Q a v

module _ {D : Type 0} where
  pub bind_ensures :
      {A B : Type 0} {P : World D → Type 0} (Q : A → World D → Type 0) {S : B → World D → Type 0}
      {m : M D A} {f : A → M D B}
      → Ensures P m Q
      → ((a : A) → Ensures (Q a) (f a) S)
      → Ensures P (m >>= f) S
  bind_ensures Q {m = m} {f = f} g h = record {
    run = λ w v b p e.
        let (a, x, e₁, e₂) = bind_done m f w e in (h a).run x v b (g.run w x a p e₁) e₂;
  }

  pub then_ensures :
      {B : Type 0} {P : World D → Type 0} (Q : World D → Type 0) {S : B → World D → Type 0}
      {m : M D (Unit {0})} {n : M D B}
      → Ensures P m (λ _. Q)
      → Ensures Q n S
      → Ensures P (m >> n) S
  then_ensures Q {m = m} {n = n} g h = record {
    run = λ w v b p e. let (x, e₁, e₂) = then_done m n w e in h.run x v b (g.run w x tt p e₁) e₂;
  }

  pub return_ensures :
      {A : Type 0} {P : World D → Type 0} {Q : A → World D → Type 0} {a : A}
      → ((w : World D) → P w → Q a w)
      → Ensures P (return a) Q
  return_ensures {Q = Q} {a = a} h = record {
    run =
        λ w v b p e. let same : (a ≡ b) × (w ≡ v) = (cc, cc) in rw (sym same.0, sym same.1) (h w p);
  }

  pub lift_ensures :
      {A : Type 0} {P : World D → Type 0} {Q : A → World D → Type 0} {r : Result A}
      → ((a : A) (w : World D) → r ≡ ok a → P w → Q a w)
      → Ensures P (lift r) Q
  lift_ensures {r = r} h = record {
    run = λ w v b p e. let (e₁, e₂) = lift_done r w e in rw e₂ (h b w e₁ p);
  }

  -- A guard or a hook, of which nothing is asked.
  pub pass_ensures :
      {A : Type 0} {P : World D → Type 0} {r : Result A} → Ensures P (lift r) (λ _. P)
  pass_ensures = lift_ensures (λ a w e p. p)

  -- A guard that passed: its test is false.
  pub guard_ensures :
      {P : World D → Type 0} {Q : World D → Type 0} (test : Bool) (e : UpdaterError)
      → ((w : World D) → test ≡ false → P w → Q w)
      → Ensures P (lift (refuse test e)) (λ _. Q)
  guard_ensures true e' h = record { run = λ w v b p e. cc }
  guard_ensures false e' h = lift_ensures (λ a w e p. h w refl p)

  pub if_ensures :
      {A : Type 0} {P : World D → Type 0} {Q : A → World D → Type 0} (b : Bool) {m n : M D A}
      → (b ≡ true → Ensures P m Q)
      → (b ≡ false → Ensures P n Q)
      → Ensures P (if b then m else n) Q
  if_ensures true h k = h refl
  if_ensures false h k = k refl

  pub read_handoff_ensures :
      (env : Collaborators D) (k : String) (P : World D → Type 0)
      → Ensures P (read_handoff env k) (λ document w. P w × (document.operation_id ≡ k))
  unfolding read_handoff
  read_handoff_ensures env k P = then_ensures P pass_ensures (
      bind_ensures (λ _. P) pass_ensures
        λ (document : HandoffDocument).
          then_ensures (λ w. P w × (document.operation_id ≡ k))
            (guard_ensures (not (text_eq document.operation_id k)) _
              λ w e p. (p, (text_eq_iff _ _).0 (not-false _ e)))
            (then_ensures (λ w. P w × (document.operation_id ≡ k)) pass_ensures
              (return_ensures (λ w p. p))))
