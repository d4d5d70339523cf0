-- ===== src/Updates/History.antt =====
-- What becomes of one operation: the history that the triggers protect.
use mathlib.Core.Option.{some-injective}
use media_sync.Prelude.{
  ℕ, ◌≡◌, refl, sym, subst, ◌∙◌, ap, true, false, Option, none, some, ◌⊎◌, inl, inr, ==_iff,
  text_eq_iff, ◌==◌, String, Bool-cases,
}
use media_sync.Updates.Model.{can_update, UpdateOperation, Operations}
use media_sync.Updates.Repository.{find_operation, set_target, is_open_or, new_operation}
use media_sync.Updates.System.{
  finish-effect, transition-effect, set_target-effect, create-effect, Write, UpdateStep, creates,
  finishes, transitions, verifies, UpdateReach, start, onward, find_operation-put,
  find_operation-append,
}

abbrev pub KeepsValue : Option String → Option String → Type 0
KeepsValue none later = Unit
KeepsValue (some k) later = later ≡ some k

-- An operation in a later state of the table.
pub record Advances (o p : UpdateOperation) : Type 0 where
  pub same_operation : p.operation_id ≡ o.operation_id
  pub same_source : p.source_version ≡ o.source_version
  pub version_kept : KeepsValue o.target_version p.target_version
  pub digest_kept : KeepsValue o.target_digest p.target_digest
  pub frozen : o.active_slot ≡ false → p ≡ o

KeepsValue-refl : (v : Option String) → KeepsValue v v
KeepsValue-refl none = tt
KeepsValue-refl (some k) = refl

KeepsValue-trans : (u v w : Option String) → KeepsValue u v → KeepsValue v w → KeepsValue u w
KeepsValue-trans none v w h k = tt
KeepsValue-trans (some x) v w h k = subst (λ y. KeepsValue y w) h k

Advances-refl : (o : UpdateOperation) → Advances o o
Advances-refl o = record {
  same_operation = refl;
  same_source = refl;
  version_kept = KeepsValue-refl o.target_version;
  digest_kept = KeepsValue-refl o.target_digest;
  frozen = λ h. refl;
}

Advances-trans : (o p q : UpdateOperation) → Advances o p → Advances p q → Advances o q
Advances-trans o p q a b = record {
  same_operation = b.same_operation ∙ a.same_operation;
  same_source = b.same_source ∙ a.same_source;
  version_kept = KeepsValue-trans _ _ _ a.version_kept b.version_kept;
  digest_kept = KeepsValue-trans _ _ _ a.digest_kept b.digest_kept;
  frozen =
      λ h. b.frozen (ap (λ (x : UpdateOperation). x.active_slot) (a.frozen h) ∙ h) ∙ a.frozen h;
}

-- One status after another along ALLOWED_UPDATE_TRANSITIONS.
abbrev pub Moved : UpdateOperation → UpdateOperation → Type 0
Moved o p = (p.status ≡ o.status) ⊎ (can_update o.status p.status ≡ true)

abbrev pub Later : UpdateOperation → ℕ → Operations → Type 0
Later o j s' =
    (p : UpdateOperation) × (find_operation j s'.rows ≡ some p) × Advances o p × Moved o p

Write-Later :
    (set : UpdateOperation → UpdateOperation) (i j : ℕ) (s s' : Operations) (w : Write set i s s')
    (o : UpdateOperation)
    → ((q : UpdateOperation) → (set q).id ≡ q.id)
    → Advances w.old (set w.old)
    → Moved w.old (set w.old)
    → find_operation j s.rows ≡ some o
    → Later o j s'
Write-Later set i j s s' w o keeps adv moved h = elim (Bool-cases (i == j)) [
  | inl hit ↦
      let at = subst (λ k. find_operation k s.rows ≡ some w.old) ((==_iff i j).0 hit) w.found in
      let same = some-injective w.old o (sym at ∙ h) in
      (
        set o,
        rw w.result (find_operation-put i j set s.rows o keeps h ∙ rw hit refl),
        subst (λ q. Advances q (set q)) same adv,
        subst (λ q. Moved q (set q)) same moved,
      )
  | inr miss ↦ (
    o,
    rw w.result (find_operation-put i j set s.rows o keeps h ∙ rw miss refl),
    Advances-refl o,
    inl refl,
  )
]

-- A write that leaves the names and the targets alone.
plain-Advances :
    (o p : UpdateOperation)
    → o.active_slot ≡ true
    → p.operation_id ≡ o.operation_id
    → p.source_version ≡ o.source_version
    → p.target_version ≡ o.target_version
    → p.target_digest ≡ o.target_digest
    → Advances o p
plain-Advances o p active e f g h = record {
  same_operation = e;
  same_source = f;
  version_kept =
      subst (λ v. KeepsValue o.target_version v) (sym g) (KeepsValue-refl o.target_version);
  digest_kept = subst (λ v. KeepsValue o.target_digest v) (sym h) (KeepsValue-refl o.target_digest);
  frozen = λ k. absurd (cc);
}

open-keeps : (v : Option String) (k : String) → is_open_or v k ≡ true → KeepsValue v (some k)
open-keeps none k h = tt
open-keeps (some j) k h = ap some (sym ((text_eq_iff j k).0 h))

target-Advances :
    (version digest : String) (o : UpdateOperation)
    → o.active_slot ≡ true
    → is_open_or o.target_version version ≡ true
    → is_open_or o.target_digest digest ≡ true
    → Advances o (set_target version digest o)
target-Advances version digest o active v d = record {
  same_operation = refl;
  same_source = refl;
  version_kept = open-keeps o.target_version version v;
  digest_kept = open-keeps o.target_digest digest d;
  frozen = λ k. absurd (cc);
}

-- One call of the repository keeps every operation on record, moves its status along the allowed
-- transitions at most, never changes a target version or digest that is set, and leaves an
-- operation that is over as it is.
pub Step-Later :
    (s s' : Operations) (j : ℕ) (o : UpdateOperation)
    → UpdateStep s s'
    → find_operation j s.rows ≡ some o
    → Later o j s'
Step-Later s s' j o (creates a now new h) found =
    let (rows, _, _) = create-effect a now new s s' h in
    (
      o,
      rw rows (find_operation-append j s.rows (new_operation a now s.next_id) o found),
      Advances-refl o,
      inl refl,
    )
Step-Later s s' j o (finishes i status at code message now h) found =
    let (w, _, allowed) = finish-effect i status at code message now s s' h in
    Write-Later _ i j s s' w o (λ q. refl) (plain-Advances w.old _ w.active refl refl refl refl)
      (inr allowed) found
Step-Later s s' j o (transitions i status h) found =
    let (w, _, allowed) = transition-effect i status s s' h in
    Write-Later _ i j s s' w o (λ q. refl) (plain-Advances w.old _ w.active refl refl refl refl)
      (inr allowed) found
Step-Later s s' j o (verifies i version digest h) found =
    let (w, v, d, _) = set_target-effect i version digest s s' h in
    Write-Later _ i j s s' w o (λ q. refl) (target-Advances version digest w.old w.active v d)
      (inl refl) found

-- Over any number of calls an operation stays on record under its id and source version; a target
-- version or digest that is set never changes, and an operation that is over never changes at all.
pub Reach-Advances :
    (j : ℕ) (o : UpdateOperation) {s s' : Operations}
    → UpdateReach s s'
    → find_operation j s.rows ≡ some o
    → (p : UpdateOperation) × (find_operation j s'.rows ≡ some p) × Advances o p
Reach-Advances j o start found = (o, found, Advances-refl o)
Reach-Advances j o (onward {t = t} {u = u} r step) found =
    let (p, at, a) = Reach-Advances j o r found in
    let (q, at', b, _) = Step-Later t u j p step at in (q, at', Advances-trans o p q a b)
