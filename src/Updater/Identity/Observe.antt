-- ===== src/Updater/Identity/Observe.antt =====
-- `_observe_coordinator`, `_valid_coordinator` and `observe` of
-- `services/updater_recovery_decision_service.py`; `updater_isolation_matches` of
-- `services/updater_handoff_service.py`.
use media_sync.Prelude.{
  ℕ, String, Bool, true, false, ◌&&◌, ◌||◌, not, Option, none, some, List, [], ◌∷◌, if◌then◌else◌,
  text_eq, select, holds, is_some,
}
use media_sync.Updates.Gate.{PendingUpdateMarker}
use media_sync.Updates.Recovery.{
  missing, conflict, ContainerIdentityObservation, DockerRecoveryObservation,
}
use media_sync.Updater.Text.{
  Unicode, codes, same_codes, after_prefix, is_container_id, is_full_container_id, convert,
  strip_lower,
}
use media_sync.Updater.Errors.{observation_error, Result, ok, err, ◌>>=◌}
use media_sync.Updater.Handoff.{HandoffDocument, has_text}
use media_sync.Updater.Docker.{ContainerMount, Container, Summary, get_label, mount_matches, Engine}
use media_sync.Updater.Journal.Model.{UpdaterResultV2}
use media_sync.Updater.Identity.{
  operation_label, role_label, has_label, unseen, seen, is_command, observe_source,
  observe_candidate,
}

-- `normalized.removeprefix("CAP_")`
unfoldable pub without_cap : List ℕ → List ℕ
unfolding after_prefix
without_cap cs = elim (after_prefix (codes "CAP_") cs) [ none ↦ cs | some rest ↦ rest ]

-- `_capability_list_matches` for an expected list of one item, which is already normal.
unfoldable pub is_capability : Unicode → Option (List String) → String → Bool
unfolding convert without_cap same_codes
is_capability u (some (x ∷ [])) expected =
    same_codes (without_cap (convert u.upper (codes x))) (codes expected)
is_capability u _ expected = false

-- `_security_options_match`
unfoldable pub is_no_new_privileges : Option (List String) → Bool
is_no_new_privileges (some (x ∷ [])) =
    text_eq x "no-new-privileges:true"
    || text_eq x "no-new-privileges"
    || text_eq x "no-new-privileges=true"
is_no_new_privileges _ = false

-- `updater_isolation_matches`
unfoldable pub updater_isolation_matches : Unicode → Container → Bool
unfolding is_capability is_no_new_privileges
updater_isolation_matches u c =
    is_capability u c.cap_drop "ALL"
    && is_capability u c.cap_add "DAC_OVERRIDE"
    && is_no_new_privileges c.security_opt

-- Every target is "/data" or the socket.
unfoldable pub within_targets : String → List ContainerMount → Bool
within_targets socket [] = true
within_targets socket (m ∷ ms) = elim m.destination [
  | none ↦ within_targets socket ms
  | some t ↦ (text_eq t "/data" || text_eq t socket) && within_targets socket ms
]

unfoldable pub has_target : String → List ContainerMount → Bool
has_target target [] = false
has_target target (m ∷ ms) = holds m.destination target || has_target target ms

-- `targets == {"/data", socket_path}`
unfoldable pub has_targets : String → Option (List ContainerMount) → Bool
unfolding within_targets has_target
has_targets socket none = false
has_targets socket (some ms) =
    within_targets socket ms && has_target "/data" ms && has_target socket ms

-- `_valid_coordinator`
unfoldable pub valid_coordinator :
    Unicode → Container → HandoffDocument → UpdaterResultV2 → String → Bool
unfolding updater_isolation_matches has_targets
valid_coordinator u c document r socket =
    is_command c.cmd ("python" ∷ "-m" ∷ "app.updater" ∷ [])
    && holds c.config_image r.target_image
    && text_eq r.target_image document.target_image
    && holds c.network_mode "none"
    && c.readonly_rootfs
    && updater_isolation_matches u c
    && has_targets socket c.mounts
    && mount_matches c document "/data"

unfoldable pub id_starts_with : List ℕ → Container → Bool
unfolding after_prefix
id_starts_with prefix c = elim c.id [
  | none ↦ false
  | some id ↦ is_some (after_prefix prefix (codes id))
]

unfoldable pub judge_coordinator :
    Unicode
    → List Container
    → Bool
    → HandoffDocument
    → UpdaterResultV2
    → String
    → ContainerIdentityObservation
unfolding valid_coordinator
judge_coordinator u [] others document r socket =
    unseen (if others then conflict else missing) "coordinator_not_unique"
judge_coordinator u (c ∷ d ∷ cs) others document r socket = unseen conflict "coordinator_not_unique"
judge_coordinator u (c ∷ []) others document r socket =
    if not (has_label role_label "updater" c) || not (valid_coordinator u c document r socket)
    then unseen conflict "coordinator_identity_conflict"
    else seen c

abbrev pub has_any : List Container → Bool
has_any [] = false
has_any (c ∷ cs) = true

-- `_observe_coordinator`
unfoldable pub observe_coordinator :
    Unicode
    → List Container
    → HandoffDocument
    → UpdaterResultV2
    → String
    → String
    → ContainerIdentityObservation
unfolding strip_lower judge_coordinator
observe_coordinator u containers document r hostname socket =
    let host = strip_lower u (codes hostname) in
    let own = select (has_label operation_label r.operation_id) containers in
    if not (is_container_id host)
    then unseen conflict "coordinator_hostname_invalid"
    else judge_coordinator u (select (id_starts_with host) own) (has_any own) document r socket

-- `_summary_ids`: each id once, in the order of the list.
unfoldable pub summary_ids : List Summary → List String
unfolding has_text
summary_ids [] = []
summary_ids (s ∷ ss) =
    let rest = summary_ids ss in
    elim s.id [
      | none ↦ rest
      | some id ↦
          if is_full_container_id (codes id) && not (has_text id rest) then id ∷ rest else rest
    ]

-- `_summary_has_operation`: the first summary of the id counts.
unfoldable pub summary_has_operation : List Summary → String → String → Bool
summary_has_operation [] id operation_id = false
summary_has_operation (s ∷ ss) id operation_id =
    if holds s.id id
    then holds (get_label operation_label s.labels) operation_id
    else summary_has_operation ss id operation_id

unfoldable pub is_relevant : List Summary → UpdaterResultV2 → String → Bool
unfolding summary_has_operation
is_relevant summaries r id =
    text_eq id r.source_container_id
    || holds r.candidate_container_id id
    || summary_has_operation summaries id r.operation_id

-- `inspect_container` of each id. The code sorts the ids; nothing that follows reads their order.
unfoldable pub inspect_all : {D : Type 0} → Engine D → List String → D → Result (List Container)
inspect_all engine [] d = ok []
inspect_all engine (id ∷ ids) d = elim (engine.inspect_container id d) [
  | err e ↦ err (observation_error "无法读取更新关联容器信息")
  | ok c ↦ inspect_all engine ids d >>= λ cs. ok (c ∷ cs)
]

-- `observe`
unfoldable pub observe :
    {D : Type 0}
    → Unicode
    → (String → String)
    → Engine D
    → String
    → HandoffDocument
    → UpdaterResultV2
    → Option PendingUpdateMarker
    → String
    → D
    → Result DockerRecoveryObservation
unfolding summary_ids is_relevant inspect_all observe_source observe_candidate observe_coordinator
observe u hexdigest engine socket document r marker hostname d =
    if not (text_eq document.operation_id r.operation_id)
    then err (observation_error "恢复文档与结果操作标识不匹配")
    else elim (engine.list_containers d) [
      | err e ↦ err (observation_error "无法读取 Docker 容器列表")
      | ok summaries ↦
          inspect_all engine (select (is_relevant summaries r) (summary_ids summaries)) d
          >>= λ containers. ok (record {
            source = observe_source containers document r;
            candidate = observe_candidate hexdigest containers document r marker;
            coordinator = observe_coordinator u containers document r hostname socket;
          })
    ]
