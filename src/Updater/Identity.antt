-- ===== src/Updater/Identity.antt =====
-- `UpdaterDockerIdentityService.observe` of `services/updater_recovery_decision_service.py`: whether
-- the source, the candidate and the coordinator are the containers that the result names, and
-- `updater_isolation_matches` of `services/updater_handoff_service.py`. `hexdigest` is
-- `hashlib.sha256(token.encode()).hexdigest()`.
pub mod Observe
use Prim.Native.Char.{code}
use Prim.Native.String.{◌++◌ as append}
use media_sync.Prelude.{
  String, Bool, true, false, ◌&&◌, ◌||◌, not, Option, none, some, List, [], ◌∷◌, ◌==◌, ltb, leb,
  if◌then◌else◌, text_eq, select, holds, length,
}
use media_sync.Updates.Gate.{PendingUpdateMarker}
use media_sync.Updates.Recovery.{
  IdentityStatus, missing, matched, conflict, ContainerIdentityObservation,
}
use media_sync.Updater.Handoff.{HandoffDocument}
use media_sync.Updater.Docker.{Container, get_label, container_name, previous_name, mount_matches}
use media_sync.Updater.Checkpoint.{old_renamed, old_name_restored, index, is_rollback}
use media_sync.Updater.Journal.Model.{UpdaterResultV2}

abbrev pub operation_label : String
operation_label = "io.mediasync.update.operation"

abbrev pub role_label : String
role_label = "io.mediasync.update.role"

-- ContainerIdentityObservation("missing" or "conflict", reason_code=reason)
abbrev pub unseen : IdentityStatus → String → ContainerIdentityObservation
unseen status reason = record {
  status = status;
  container_id = none;
  running = none;
  reason_code = some reason;
}

-- `_matched`
abbrev pub seen : Container → ContainerIdentityObservation
seen c = record {
  status = matched;
  container_id = c.id;
  running = some (elim c.state [ none ↦ false | some running ↦ running ]);
  reason_code = none;
}

-- The names that the old container may have.
unfoldable pub is_expected_name : UpdaterResultV2 → String → Bool
unfolding index
is_expected_name r name =
    if is_rollback r.checkpoint
    then text_eq name r.source_container_name
      || (ltb (index r.checkpoint) (index old_name_restored)
          && text_eq name (previous_name r.operation_id))
    else if leb (index old_renamed) (index r.checkpoint)
    then text_eq name (previous_name r.operation_id)
    else text_eq name r.source_container_name

-- `source_identity_matches`
unfoldable pub source_identity_matches : Container → HandoffDocument → UpdaterResultV2 → Bool
unfolding is_expected_name
source_identity_matches c document r =
    holds c.id document.current_container_id
    && text_eq document.current_container_id r.source_container_id
    && holds c.image document.source_image_id
    && text_eq document.source_image_id r.source_image_id
    && text_eq document.candidate.name r.source_container_name
    && is_expected_name r (container_name c)
    && mount_matches c document "/data"

abbrev pub has_id : String → Container → Bool
has_id id c = holds c.id id

-- The containers of the source's id.
unfoldable pub judge_source :
    List Container → HandoffDocument → UpdaterResultV2 → ContainerIdentityObservation
unfolding source_identity_matches
judge_source [] document r = unseen missing "source_missing"
judge_source (c ∷ d ∷ others) document r = unseen conflict "source_identity_conflict"
judge_source (c ∷ []) document r =
    if source_identity_matches c document r
    then seen c
    else unseen conflict "source_identity_conflict"

-- `_observe_source`
unfoldable pub observe_source :
    List Container → HandoffDocument → UpdaterResultV2 → ContainerIdentityObservation
unfolding judge_source
observe_source containers document r =
    judge_source (select (has_id r.source_container_id) containers) document r

-- The value of an item `key=value`, for a key without "=".
unfoldable pub value_of : String → String → Option String
value_of String.[] String.[] = none
value_of String.[] (String.◌∷◌ d s) = if code d == b'=' then some s else none
value_of (String.◌∷◌ c k) String.[] = none
value_of (String.◌∷◌ c k) (String.◌∷◌ d s) = if code c == code d then value_of k s else none

-- `_environment(container).get(key)`: the first item of the key counts.
unfoldable pub get_variable : String → List String → Option String
unfolding value_of
get_variable key [] = none
get_variable key (item ∷ items) = elim (value_of key item) [
  | some v ↦ some v
  | none ↦ get_variable key items
]

unfoldable pub environment_token : Container → Option String
unfolding get_variable
environment_token c = elim c.env [
  | none ↦ none
  | some items ↦ get_variable "MEDIASYNC_CANDIDATE_TOKEN" items
]

unfoldable pub same_texts : List String → List String → Bool
same_texts [] [] = true
same_texts (x ∷ xs) (y ∷ ys) = text_eq x y && same_texts xs ys
same_texts [] (y ∷ ys) = false
same_texts (x ∷ xs) [] = false

abbrev pub is_command : Option (List String) → List String → Bool
is_command none command = false
is_command (some actual) command = same_texts actual command

-- "sha256:" + hashlib.sha256(token.encode()).hexdigest()
abbrev pub token_hash : (String → String) → String → String
token_hash hexdigest token = append "sha256:" (hexdigest token)

abbrev pub marker_agrees : Option PendingUpdateMarker → String → String → Bool
marker_agrees none operation_id token = true
marker_agrees (some m) operation_id token =
    text_eq m.operation_id operation_id && text_eq m.candidate_token token

-- `_valid_candidate`
unfoldable pub valid_candidate :
    (String → String)
    → Container
    → HandoffDocument
    → UpdaterResultV2
    → Option PendingUpdateMarker
    → Bool
unfolding environment_token same_texts
valid_candidate hexdigest c document r marker = elim (environment_token c) [
  | none ↦ false
  | some token ↦
      marker_agrees marker r.operation_id token
      && holds r.candidate_token_hash (token_hash hexdigest token)
      && text_eq (container_name c) r.source_container_name
      && holds c.config_image r.target_image
      && text_eq r.target_image document.target_image
      && is_command c.cmd ("python" ∷ "-m" ∷ "app.appliance" ∷ [])
      && mount_matches c document "/data"
]

abbrev pub has_label : String → String → Container → Bool
has_label k v c = holds (get_label k c.labels) v

abbrev pub is_candidate_of : UpdaterResultV2 → Container → Bool
is_candidate_of r c =
    has_label operation_label r.operation_id c && has_label role_label "candidate" c

-- One selected container, and the labelled ones.
unfoldable pub judge_candidate :
    (String → String)
    → List Container
    → List Container
    → HandoffDocument
    → UpdaterResultV2
    → Option PendingUpdateMarker
    → ContainerIdentityObservation
unfolding valid_candidate
judge_candidate hexdigest [] labeled document r marker = unseen missing "candidate_not_created"
judge_candidate hexdigest (c ∷ d ∷ others) labeled document r marker =
    unseen conflict "candidate_not_unique"
judge_candidate hexdigest (c ∷ []) labeled document r marker =
    if not (length labeled == 1)
    then unseen conflict "candidate_not_unique"
    else if not (valid_candidate hexdigest c document r marker)
    then unseen conflict "candidate_identity_conflict"
    else seen c

-- `identified` in the branch of a result that names the candidate: none for the observation that the
-- candidate is missing, or is in conflict. `identified[0] not in labeled` is whether it has the labels.
unfoldable pub judge_identified :
    (String → String)
    → List Container
    → List Container
    → HandoffDocument
    → UpdaterResultV2
    → Option PendingUpdateMarker
    → ContainerIdentityObservation
unfolding judge_candidate
judge_identified hexdigest [] [] document r marker = unseen missing "candidate_missing"
judge_identified hexdigest [] (l ∷ labeled) document r marker =
    unseen conflict "candidate_identity_conflict"
judge_identified hexdigest (c ∷ d ∷ others) labeled document r marker =
    unseen conflict "candidate_identity_conflict"
judge_identified hexdigest (c ∷ []) labeled document r marker =
    if is_candidate_of r c
    then judge_candidate hexdigest (c ∷ []) labeled document r marker
    else unseen conflict "candidate_identity_conflict"

-- `_observe_candidate`
unfoldable pub observe_candidate :
    (String → String)
    → List Container
    → HandoffDocument
    → UpdaterResultV2
    → Option PendingUpdateMarker
    → ContainerIdentityObservation
unfolding judge_identified judge_candidate
observe_candidate hexdigest containers document r marker =
    let labeled = select (is_candidate_of r) containers in
    elim r.candidate_container_id [
      | some id ↦
          judge_identified hexdigest (select (has_id id) containers) labeled document r marker
      | none ↦ judge_candidate hexdigest labeled labeled document r marker
    ]
