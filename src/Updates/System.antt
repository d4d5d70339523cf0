-- ===== src/Updates/System.antt =====
-- The operations on record, under any sequence of calls of the repository.
use mathlib.Core.Option.{some-injective}
use media_sync.Prelude.{
  ℕ, ◌+◌, ◌≤◌, String, ◌≡◌, refl, subst, Bool, true, false, ◌&&◌, not, Option, some, List, [], ◌∷◌,
  ◌++◌, if◌then◌else◌, ◌==◌, is_some, coalesce, All, arith, inl, inr, sym, ◌∙◌, ap, Option-cases,
  Bool-cases,
}
use media_sync.Updates.Model.{
  UpdateStatus, pulling, update_status_eq, is_over, can_update, UpdateOperation, Operations,
}
use media_sync.Updates.Repository.{
  find_operation, put_operation, get_active, CreateArgs, new_operation, create, update,
  finish_operation, finish, move_operation, transition_active, set_target, set_verified_target,
  is_open_or,
}

-- Lemmas on one row of the table.
unfoldable pub active_count : List UpdateOperation → ℕ
active_count [] = 0
active_count (o ∷ os) = (if o.active_slot then 1 else 0) + active_count os

-- A row that holds the slot is under way and has no end; one that does not is over and has one.
abbrev pub fits : UpdateOperation → Bool
fits o =
    if o.active_slot
    then not (is_over o.status) && not (is_some o.completed_at)
    else is_over o.status && is_some o.completed_at

pub record IsOrderly (s : Operations) : Type 0 where
  pub single : active_count s.rows ≤ 1
  pub fitting : All (λ o. fits o ≡ true) s.rows

pub no-active : (os : List UpdateOperation) → is_some (get_active os) ≡ false → active_count os ≡ 0
unfolding get_active active_count
no-active [] h = refl
no-active (o ∷ os) h = ground (arith, no-active os)

pub active_count-append :
    (os : List UpdateOperation) (o : UpdateOperation)
    → active_count (os ++ o ∷ []) ≤ active_count os + 1
unfolding active_count
active_count-append [] o = ground arith
active_count-append (q ∷ os) o = ground (arith, active_count-append os o)

pub All-append :
    (P : UpdateOperation → Type 0) (os : List UpdateOperation) (o : UpdateOperation)
    → All P os
    → P o
    → All P (os ++ o ∷ [])
All-append P [] o h p = (p, tt)
All-append P (q ∷ os) o h p = (h.0, All-append P os o h.1 p)

put-All :
    (P : UpdateOperation → Type 0) (i : ℕ) (set : UpdateOperation → UpdateOperation)
    (os : List UpdateOperation)
    → ((o : UpdateOperation) → find_operation i os ≡ some o → P (set o))
    → All P os
    → All P (put_operation i set os)
unfolding put_operation find_operation
put-All P i set [] h a = tt
put-All P i set (o ∷ os) h a = elim (Bool-cases (o.id == i)) [
  | inl hit ↦ rw hit (h o (rw hit refl), a.1)
  | inr miss ↦ rw miss (a.0, put-All P i set os (λ q k. h q (rw miss k)) a.1)
]

put-count :
    (i : ℕ) (set : UpdateOperation → UpdateOperation) (os : List UpdateOperation)
    → ((o : UpdateOperation) → find_operation i os ≡ some o → o.active_slot ≡ true)
    → active_count (put_operation i set os) ≤ active_count os
unfolding put_operation find_operation active_count
put-count i set [] h = ground arith
put-count i set (o ∷ os) h = elim (Bool-cases (o.id == i)) [
  | inl hit ↦ ground (arith, h o)
  | inr miss ↦ ground (arith, put-count i set os (λ q k. h q (ground arith)))
]

-- A call that succeeds writes one row, which holds the slot.
pub record Write (set : UpdateOperation → UpdateOperation) (i : ℕ) (s s' : Operations)
    : Type 0 where
  pub old : UpdateOperation
  pub found : find_operation i s.rows ≡ some old
  pub active : old.active_slot ≡ true
  pub result : s' ≡ record s { rows = put_operation i set s.rows }

pub finish-effect :
    (i : ℕ) (status : UpdateStatus) (at : Option ℕ) (code message : Option String) (now : ℕ)
    (s s' : Operations)
    → finish i status at code message now s ≡ inr s'
    → (w : Write (finish_operation status (coalesce at now) code message) i s s') × (is_over status
        ≡ true)
      × (can_update w.old.status status ≡ true)
unfolding finish update
finish-effect i status at code message now s s' h = elim (Option-cases (find_operation i s.rows)) [
  | inl absent ↦ absurd (ground arith)
  | inr (o, found) ↦ (
    record { old = o; found = found; active = ground arith; result = ground arith },
    ground arith,
    ground arith,
  )
]

pub transition-effect :
    (i : ℕ) (status : UpdateStatus) (s s' : Operations)
    → transition_active i status s ≡ inr s'
    → (w : Write (move_operation status) i s s') × (is_over status ≡ false)
      × (can_update w.old.status status ≡ true)
unfolding transition_active update
transition-effect i status s s' h = elim (Option-cases (find_operation i s.rows)) [
  | inl absent ↦ absurd (ground arith)
  | inr (o, found) ↦ (
    record { old = o; found = found; active = ground arith; result = ground arith },
    ground arith,
    ground arith,
  )
]

pub set_target-effect :
    (i : ℕ) (version digest : String) (s s' : Operations)
    → set_verified_target i version digest s ≡ inr s'
    → (w : Write (set_target version digest) i s s') × (is_open_or w.old.target_version version
        ≡ true)
      × (is_open_or w.old.target_digest digest ≡ true)
      × (update_status_eq w.old.status pulling ≡ true)
unfolding set_verified_target update
set_target-effect i version digest s s' h = elim (Option-cases (find_operation i s.rows)) [
  | inl absent ↦ absurd (ground arith)
  | inr (o, found) ↦ (
    record { old = o; found = found; active = ground arith; result = ground arith },
    ground arith,
    ground arith,
    ground arith,
  )
]

-- A write keeps the table in order if the row that it writes fits.
pub Write-IsOrderly :
    (set : UpdateOperation → UpdateOperation) (i : ℕ) (s s' : Operations) (w : Write set i s s')
    → fits (set w.old) ≡ true
    → IsOrderly s
    → IsOrderly s'
Write-IsOrderly set i s s' w good v = rw w.result (record {
  single = omega (
    arith,
    v.single,
    put-count i set s.rows (λ o k.
        ap (λ (q : UpdateOperation). q.active_slot) (some-injective o w.old (sym k ∙ w.found))
        ∙ w.active),
  );
  fitting =
      put-All (λ o. fits o ≡ true) i set s.rows
        (λ o k. subst (λ q. fits (set q) ≡ true) (some-injective w.old o (sym w.found ∙ k)) good)
        v.fitting;
})

pub data UpdateStep (s s' : Operations) : Type 0 where
  creates :
      (a : CreateArgs) (now : ℕ) (o : UpdateOperation)
      → create a now s ≡ inr (o, s')
      → UpdateStep s s'
  finishes :
      (i : ℕ) (status : UpdateStatus) (at : Option ℕ) (code message : Option String) (now : ℕ)
      → finish i status at code message now s ≡ inr s'
      → UpdateStep s s'
  transitions :
      (i : ℕ) (status : UpdateStatus) → transition_active i status s ≡ inr s' → UpdateStep s s'
  verifies :
      (i : ℕ) (version digest : String)
      → set_verified_target i version digest s ≡ inr s'
      → UpdateStep s s'

pub data UpdateReach (s : Operations) : Operations → Type 0 where
  start : UpdateReach s s
  onward : {t u : Operations} → UpdateReach s t → UpdateStep t u → UpdateReach s u

pub create-effect :
    (a : CreateArgs) (now : ℕ) (o : UpdateOperation) (s s' : Operations)
    → create a now s ≡ inr (o, s')
    → (s'.rows ≡ s.rows ++ new_operation a now s.next_id ∷ [])
      × (is_over a.status ≡ false)
      × (is_some (get_active s.rows) ≡ false)
unfolding create
create-effect a now o s s' h = (ground arith, ground arith, ground arith)

pub fitting-found :
    (i : ℕ) (os : List UpdateOperation) (o : UpdateOperation)
    → All (λ q. fits q ≡ true) os
    → find_operation i os ≡ some o
    → fits o ≡ true
unfolding find_operation
fitting-found i [] o a h = absurd (cc)
fitting-found i (q ∷ os) o a h = elim (Bool-cases (q.id == i)) [
  | inl hit ↦ subst (λ x. fits x ≡ true) (some-injective q o (rw hit at h)) a.0
  | inr miss ↦ fitting-found i os o a.1 (rw miss at h)
]

pub find_operation-put :
    (i j : ℕ) (set : UpdateOperation → UpdateOperation) (os : List UpdateOperation)
    (o : UpdateOperation)
    → ((q : UpdateOperation) → (set q).id ≡ q.id)
    → find_operation j os ≡ some o
    → find_operation j (put_operation i set os) ≡ some (if i == j then set o else o)
unfolding find_operation put_operation
find_operation-put i j set [] o keeps h = absurd (cc)
find_operation-put i j set (q ∷ os) o keeps h =
    ground (arith, keeps q, find_operation-put i j set os o keeps)

pub find_operation-append :
    (j : ℕ) (os : List UpdateOperation) (new o : UpdateOperation)
    → find_operation j os ≡ some o
    → find_operation j (os ++ new ∷ []) ≡ some o
unfolding find_operation
find_operation-append j [] new o h = absurd (cc)
find_operation-append j (q ∷ os) new o h = ground (arith, find_operation-append j os new o)
