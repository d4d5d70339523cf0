-- ===== src/Updates/Gate.antt =====
-- `UpdateExecutionGate.evaluate` (`services/update_execution_gate.py`).
use mathlib.Core.Option.{some-injective}
use mathlib.Core.List.{Memᴰ}
use media_sync.Prelude.{
  ◌≤◌, String, ◌≡◌, ◌≢◌, refl, Bool, true, false, not, Option, none, some, List, [], ◌∷◌,
  if◌then◌else◌, text_eq, text_eq_iff, text_eq_refl, ◌⊎◌, ◌↔◌, inl, inr, arith, sym, ◌∙◌, ap,
  Bool-cases, Option-cases,
}
use media_sync.Updates.Model.{
  UpdateStatus, draining, handoff, snapshotting, switching, verifying, rolling_back,
  UpdateOperation, Operations,
}
use media_sync.Updates.Repository.{get_active}
use media_sync.Updates.System.{active_count, IsOrderly}

-- GATED_UPDATE_STATUSES
unfoldable pub is_gated : UpdateStatus → Bool
is_gated draining = true
is_gated handoff = true
is_gated snapshotting = true
is_gated switching = true
is_gated verifying = true
is_gated rolling_back = true
is_gated _ = false

pub record UpdateGateDecision : Type 0 where
  pub blocked : Bool
  pub mode : String
  pub reason : Option String
  pub operation_id : Option String

pub record PendingUpdateMarker : Type 0 where
  pub operation_id : String
  pub target_version : String
  pub target_digest : String
  pub target_revision : String
  pub candidate_token : String

-- The three results of `read_pending_marker`, which reads the file system.
pub data MarkerRead : Type 0 where
  no_marker : MarkerRead
  bad_marker : (reason : String) → MarkerRead
  good_marker : PendingUpdateMarker → MarkerRead

abbrev pub invalid_candidate : String → UpdateGateDecision
invalid_candidate reason = record {
  blocked = true;
  mode = "candidate_invalid";
  reason = some reason;
  operation_id = none;
}

abbrev pub mismatch_reason : String
mismatch_reason = "候选验证标记与活动更新操作不匹配"

-- The branch of a marker that was read, and the operation that is active.
abbrev pub validate_candidate : PendingUpdateMarker → Option UpdateOperation → UpdateGateDecision
validate_candidate m none = invalid_candidate mismatch_reason
validate_candidate m (some o) =
    if not (text_eq o.operation_id m.operation_id)
    then invalid_candidate mismatch_reason
    else record {
      blocked = true;
      mode = "candidate_validation";
      reason = none;
      operation_id = some m.operation_id;
    }

abbrev pub normal_decision : UpdateGateDecision
normal_decision = record { blocked = false; mode = "normal"; reason = none; operation_id = none }

-- The branch without a marker.
abbrev pub check_active : Option UpdateOperation → UpdateGateDecision
check_active none = normal_decision
check_active (some o) =
    if is_gated o.status
    then record {
      blocked = true;
      mode = "draining";
      reason = none;
      operation_id = some o.operation_id;
    }
    else normal_decision

-- `evaluate`
unfoldable pub evaluate : MarkerRead → List UpdateOperation → UpdateGateDecision
unfolding get_active
evaluate no_marker os = check_active (get_active os)
evaluate (bad_marker reason) os = invalid_candidate reason
evaluate (good_marker m) os = validate_candidate m (get_active os)

abbrev pub is_marked : MarkerRead → Bool
is_marked no_marker = false
is_marked (bad_marker reason) = true
is_marked (good_marker m) = true

-- The statuses of an update from the moment that tasks are drained until its container is replaced
-- or the old one is back.
pub data IsReplacing : UpdateStatus → Type 0 where
  drains : IsReplacing draining
  hands_off : IsReplacing handoff
  takes_snapshot : IsReplacing snapshotting
  switches : IsReplacing switching
  verifies : IsReplacing verifying
  rolls_back : IsReplacing rolling_back

is_gated-IsReplacing : (x : UpdateStatus) → is_gated x ≡ true → IsReplacing x
unfolding is_gated
is_gated-IsReplacing draining h = drains
is_gated-IsReplacing handoff h = hands_off
is_gated-IsReplacing snapshotting h = takes_snapshot
is_gated-IsReplacing switching h = switches
is_gated-IsReplacing verifying h = verifies
is_gated-IsReplacing rolling_back h = rolls_back
is_gated-IsReplacing UpdateStatus.checking h = cc
is_gated-IsReplacing UpdateStatus.available h = cc
is_gated-IsReplacing UpdateStatus.pulling h = cc
is_gated-IsReplacing UpdateStatus.success h = cc
is_gated-IsReplacing UpdateStatus.failed h = cc
is_gated-IsReplacing UpdateStatus.rolled_back h = cc
is_gated-IsReplacing UpdateStatus.rollback_failed h = cc
is_gated-IsReplacing UpdateStatus.cancelled h = cc

IsReplacing-is_gated : (x : UpdateStatus) → IsReplacing x → is_gated x ≡ true
unfolding is_gated
IsReplacing-is_gated _ drains = refl
IsReplacing-is_gated _ hands_off = refl
IsReplacing-is_gated _ takes_snapshot = refl
IsReplacing-is_gated _ switches = refl
IsReplacing-is_gated _ verifies = refl
IsReplacing-is_gated _ rolls_back = refl

-- The marker of a candidate names the operation that holds the slot.
pub record Names (m : MarkerRead) (os : List UpdateOperation) : Type 0 where
  pub marker : PendingUpdateMarker
  pub read : m ≡ good_marker marker
  pub operation : UpdateOperation
  pub listed : Memᴰ operation os
  pub active : operation.active_slot ≡ true
  pub named : operation.operation_id ≡ marker.operation_id

-- An operation that holds the slot while the appliance may not run tasks.
pub record Gates (os : List UpdateOperation) : Type 0 where
  pub operation : UpdateOperation
  pub listed : Memᴰ operation os
  pub active : operation.active_slot ≡ true
  pub replacing : IsReplacing operation.status

first-active :
    (q : UpdateOperation) (os : List UpdateOperation)
    → q.active_slot ≡ true
    → get_active (q ∷ os) ≡ some q
unfolding get_active
first-active q os on = rw on refl

active-mem :
    (os : List UpdateOperation) (o : UpdateOperation)
    → get_active os ≡ some o
    → Memᴰ o os × (o.active_slot ≡ true)
unfolding get_active
active-mem [] o h = absurd (cc)
active-mem (q ∷ os) o h = elim (Bool-cases q.active_slot) [
  | inl on ↦
      let same = some-injective q o (sym (first-active q os on) ∙ h) in
      (Memᴰ.head (sym same), ap (λ (x : UpdateOperation). x.active_slot) (sym same) ∙ on)
  | inr off ↦ let (m, on) = active-mem os o (rw off at h) in (Memᴰ.tail m, on)
]

mem-counted :
    (os : List UpdateOperation) (o : UpdateOperation)
    → Memᴰ o os
    → o.active_slot ≡ true
    → 1 ≤ active_count os
unfolding active_count
mem-counted [] o m h = elim m [ ]
mem-counted (q ∷ os) o (Memᴰ.head e) h =
    let on = ap (λ (x : UpdateOperation). x.active_slot) (sym e) ∙ h in ground (arith, on)
mem-counted (q ∷ os) o (Memᴰ.tail m) h = ground (arith, mem-counted os o m h)

get_active-single :
    (os : List UpdateOperation) (o : UpdateOperation)
    → active_count os ≤ 1
    → Memᴰ o os
    → o.active_slot ≡ true
    → get_active os ≡ some o
unfolding get_active active_count
get_active-single [] o le m h = elim m [ ]
get_active-single (q ∷ os) o le (Memᴰ.head e) h =
    let on = ap (λ (x : UpdateOperation). x.active_slot) (sym e) ∙ h in
    first-active q os on ∙ ap some (sym e)
get_active-single (q ∷ os) o le (Memᴰ.tail m) h = elim (Bool-cases q.active_slot) [
  | inl on ↦ absurd (ground (arith, mem-counted os o m h))
  | inr off ↦ rw off (get_active-single os o (ground arith) m h)
]

blocked_iff :
    (m : MarkerRead) (s : Operations)
    → IsOrderly s
    → ((evaluate m s.rows).blocked ≡ true) ↔ ((is_marked m ≡ true) ⊎ Gates s.rows)
unfolding evaluate
blocked_iff m s v = (closed m, shut m)
  where
    closed :
        (k : MarkerRead) → (evaluate k s.rows).blocked ≡ true → (is_marked k ≡ true) ⊎ Gates s.rows
    closed (bad_marker r) h = inl refl
    closed (good_marker x) h = inl refl
    closed no_marker h = elim (Option-cases (get_active s.rows)) [
      | inl idle ↦ absurd (ground arith)
      | inr (o, found) ↦
          let (listed, on) = active-mem s.rows o found in
          inr (record {
            operation = o;
            listed = listed;
            active = on;
            replacing = is_gated-IsReplacing o.status (ground arith);
          })
    ]

    shut :
        (k : MarkerRead) → (is_marked k ≡ true) ⊎ Gates s.rows → (evaluate k s.rows).blocked ≡ true
    shut (bad_marker r) h = refl
    shut (good_marker x) h = ground arith
    shut no_marker (inl e) = absurd (cc)
    shut no_marker (inr g) = ground (
      arith,
      get_active-single s.rows g.operation v.single g.listed g.active,
      IsReplacing-is_gated _ g.replacing,
    )

abbrev validation : String
validation = "candidate_validation"

normal-other : ◌≢◌ {A = String} "normal" validation
normal-other e = ground (arith, text_eq_iff "normal" validation)

draining-other : ◌≢◌ {A = String} "draining" validation
draining-other e = ground (arith, text_eq_iff "draining" validation)

invalid-other : ◌≢◌ {A = String} "candidate_invalid" validation
invalid-other e = ground (arith, text_eq_iff "candidate_invalid" validation)

check_active-other : (o : Option UpdateOperation) → (check_active o).mode ≢ validation
check_active-other none h = normal-other h
check_active-other (some o) h = elim (Bool-cases (is_gated o.status)) [
  | inl on ↦ draining-other (rw on at h)
  | inr off ↦ normal-other (rw off at h)
]

validated-named :
    (m : PendingUpdateMarker) (o : UpdateOperation)
    → (validate_candidate m (some o)).mode ≡ validation
    → o.operation_id ≡ m.operation_id
validated-named m o h = elim (Bool-cases (text_eq o.operation_id m.operation_id)) [
  | inl same ↦ (text_eq_iff o.operation_id m.operation_id).0 same
  | inr other ↦ absurd (invalid-other (rw other at h))
]

validating_iff :
    (m : MarkerRead) (s : Operations)
    → IsOrderly s
    → ((evaluate m s.rows).mode ≡ validation) ↔ Names m s.rows
unfolding evaluate
validating_iff m s v = (names m, validates m)
  where
    names : (k : MarkerRead) → (evaluate k s.rows).mode ≡ validation → Names k s.rows
    names (bad_marker r) h = absurd (invalid-other h)
    names no_marker h = absurd (check_active-other (get_active s.rows) h)
    names (good_marker x) h = elim (Option-cases (get_active s.rows)) [
      | inl idle ↦ absurd (invalid-other (rw idle at h))
      | inr (o, found) ↦
          let (listed, on) = active-mem s.rows o found in
          record {
            marker = x;
            read = refl;
            operation = o;
            listed = listed;
            active = on;
            named = validated-named x o (rw found at h);
          }
    ]

    validates : (k : MarkerRead) → Names k s.rows → (evaluate k s.rows).mode ≡ validation
    validates no_marker n = let e = n.read in absurd (cc)
    validates (bad_marker r) n = let e = n.read in absurd (cc)
    validates (good_marker x) n =
        let same : x ≡ n.marker = (let e = n.read in cc) in
        let named : n.operation.operation_id ≡ x.operation_id =
          n.named ∙ ap (λ (y : PendingUpdateMarker). y.operation_id) (sym same) in
        rw (
          get_active-single s.rows n.operation v.single n.listed n.active,
          named,
          text_eq_refl x.operation_id,
        )

-- While at most one operation holds the slot, the gate is closed exactly when there is a candidate
-- marker, readable or not, or an operation that holds the slot has drained the tasks and is neither
-- committed nor rolled back; and a candidate is validated exactly when its marker names the
-- operation that holds the slot.
pub evaluate-blocked :
    (m : MarkerRead) (s : Operations)
    → IsOrderly s
    → (((evaluate m s.rows).blocked ≡ true) ↔ ((is_marked m ≡ true) ⊎ Gates s.rows))
      × (((evaluate m s.rows).mode ≡ "candidate_validation") ↔ Names m s.rows)
evaluate-blocked m s v = (blocked_iff m s v, validating_iff m s v)
