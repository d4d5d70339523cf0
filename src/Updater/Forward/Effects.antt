-- ===== src/Updater/Forward/Effects.antt =====
-- The effects of `UpdaterForwardV2` (`services/updater_forward_v2.py`): each is repeated safely after
-- a crash, since it first looks at what is there.
use media_sync.Prelude.{
  String, Bool, true, false, ◌&&◌, ◌||◌, not, none, some, List, [], ◌∷◌, if◌then◌else◌, text_eq,
  holds,
}
use media_sync.Updates.Recovery.{missing, matched, is_identity, DockerRecoveryObservation}
use media_sync.Updater.Errors.{state_machine_error, Result, ok, err}
use media_sync.Updater.Handoff.{HandoffDocument, RestartPolicy}
use media_sync.Updater.Docker.{Container, Summary, container_name, mount_matches}
use media_sync.Updater.Journal.Model.{UpdaterResultV2}
use media_sync.Updater.Candidate.{CandidatePreparation}
use media_sync.Updater.Identity.{source_identity_matches}
use media_sync.Updater.Machine.{
  Collaborators, M, ◌>>=◌, ◌>>◌, return, lift, refuse_if, ask, call, hook, observe_containers,
  inspect, previous_container_name,
}

-- `policy.get("Name") == "no"` of a policy that is there.
abbrev pub is_fenced : Container → Bool
is_fenced c = elim c.restart_policy [ none ↦ false | some policy ↦ text_eq policy.name "no" ]

-- `state.get("Running") is True`
abbrev pub is_up : Container → Bool
is_up c = elim c.state [ none ↦ false | some running ↦ running ]

abbrev pub has_state : Container → Bool
has_state c = elim c.state [ none ↦ false | some running ↦ true ]

-- The comparison at the end of `_require_source_identity`.
unfoldable pub is_source : HandoffDocument → String → Container → Bool
is_source document name c =
    holds c.id document.current_container_id
    && holds c.image document.source_image_id
    && text_eq (container_name c) name
    && mount_matches c document "/data"

-- The policy that fences the old container.
abbrev pub fence_policy : RestartPolicy
fence_policy = record { name = "no"; maximum_retry_count = 0 }

-- The three identities are confirmed, and the candidate has an id.
abbrev pub all_matched : DockerRecoveryObservation → Bool
all_matched o =
    is_identity o.source.status matched
    && is_identity o.coordinator.status matched
    && is_identity o.candidate.status matched

unfoldable pub confirmed_candidate : DockerRecoveryObservation → Result String
confirmed_candidate o = elim o.candidate.container_id [
  | none ↦ err (state_machine_error "无法唯一确认新建候选容器身份")
  | some id ↦ if all_matched o then ok id else err (state_machine_error "无法唯一确认新建候选容器身份")
]

-- `_require_candidate_id`
unfoldable pub require_candidate_id : UpdaterResultV2 → Result String
require_candidate_id r = elim r.candidate_container_id [
  | none ↦ err (state_machine_error "updater v2 检查点缺少候选容器标识")
  | some id ↦ ok id
]

abbrev pub lists : String → List Summary → Bool
lists id [] = false
lists id (s ∷ ss) = holds s.id id || lists id ss

module _ {D : Type 0} (env : Collaborators D) where
  -- `_require_source_identity`
  unfoldable pub require_source_identity : HandoffDocument → Container → Bool → M D (Unit {0})
  unfolding is_source
  require_source_identity document c expected_previous = do
    name ←
        if expected_previous
        then lift (previous_container_name document.operation_id)
        else return document.candidate.name
    refuse_if (not (is_source document name c)) "旧容器身份与 handoff 不匹配"

  -- `_fence_old_restart`
  unfoldable pub fence_old_restart : HandoffDocument → M D (Unit {0})
  fence_old_restart document = do
    hook env "before:old_restart_fenced"
    c ← inspect env document.current_container_id
    require_source_identity document c false
    if is_fenced c
        then return tt
        else call (env.engine.update_restart_policy document.current_container_id fence_policy)
    confirmed ← inspect env document.current_container_id
    require_source_identity document confirmed false
    refuse_if (not (is_fenced confirmed)) "旧容器重启隔离状态未确认"
    hook env "after_effect:old_restart_fenced"

  -- `stop_container` and `wait_container`
  abbrev pub stop_and_wait : String → M D (Unit {0})
  stop_and_wait id =
      call (env.engine.stop_container id env.stop_timeout_seconds)
      >> (call (env.engine.wait_container id) >>= λ code. return tt)

  -- `_stop_old`
  unfoldable pub stop_old : HandoffDocument → M D (Unit {0})
  stop_old document = do
    hook env "before:old_stopped"
    c ← inspect env document.current_container_id
    require_source_identity document c false
    refuse_if (not (has_state c)) "旧容器运行状态无效"
    if is_up c then stop_and_wait document.current_container_id else return tt
    confirmed ← inspect env document.current_container_id
    require_source_identity document confirmed false
    refuse_if (not (has_state confirmed) || is_up confirmed) "旧容器停止状态未确认"
    hook env "after_effect:old_stopped"

  -- `_ensure_snapshot`
  unfoldable pub ensure_snapshot : String → M D (Unit {0})
  ensure_snapshot operation_id = do
    hook env "before:snapshot_verified"
    exists ← ask (λ d. ok (env.snapshots.exists operation_id d))
    if exists then return tt else call (env.snapshots.create operation_id)
    call (env.snapshots.verify operation_id)
    hook env "after_effect:snapshot_verified"

  -- `_rename_old`
  unfoldable pub rename_old : HandoffDocument → M D (Unit {0})
  rename_old document = do
    hook env "before:old_renamed"
    previous ← lift (previous_container_name document.operation_id)
    c ← inspect env document.current_container_id
    if text_eq (container_name c) document.candidate.name
        then require_source_identity document c false
          >> call (env.engine.rename_container document.current_container_id previous)
        else refuse_if (not (text_eq (container_name c) previous)) "旧容器名称与更新检查点冲突"
          >> require_source_identity document c true
    confirmed ← inspect env document.current_container_id
    require_source_identity document confirmed true
    hook env "after_effect:old_renamed"

  -- `_ensure_candidate`
  unfoldable pub ensure_candidate :
      HandoffDocument → UpdaterResultV2 → CandidatePreparation → M D String
  unfolding confirmed_candidate
  ensure_candidate document r preparation = do
    hook env "before:candidate_created"
    before ← observe_containers env document r preparation
    observation ←
        if is_identity before.candidate.status missing
        then call (env.engine.create_container document.candidate.name preparation.create_config)
          >>= (λ created. observe_containers env document r preparation)
        else return before
    id ← lift (confirmed_candidate observation)
    hook env "after_effect:candidate_created"
    return id

  -- `_start_candidate`
  unfoldable pub start_candidate : String → M D (Unit {0})
  start_candidate candidate_id = do
    hook env "before:candidate_started"
    c ← inspect env candidate_id
    refuse_if (not (has_state c)) "候选容器运行状态无效"
    if is_up c then return tt else call (env.engine.start_container candidate_id)
    confirmed ← inspect env candidate_id
    refuse_if (not (is_up confirmed)) "候选容器启动状态未确认"
    hook env "after_effect:candidate_started"

  -- `_require_candidate_identity`
  unfoldable pub require_candidate_identity :
      HandoffDocument → UpdaterResultV2 → CandidatePreparation → M D String
  require_candidate_identity document r preparation = do
    o ← observe_containers env document r preparation
    expected ← lift (require_candidate_id r)
    refuse_if (not (all_matched o && holds o.candidate.container_id expected)) "候选容器身份与 v2 检查点冲突"
    return expected

  -- The branch of `_cleanup_old` in which the old container is there.
  unfoldable pub remove_source : HandoffDocument → UpdaterResultV2 → M D (Unit {0})
  remove_source document r = do
    c ← inspect env document.current_container_id
    refuse_if (not (source_identity_matches c document r)) "成功清理前旧容器身份不匹配"
    call (env.engine.remove_container document.current_container_id)

  -- `_cleanup_old`
  unfoldable pub cleanup_old : HandoffDocument → UpdaterResultV2 → M D (Unit {0})
  unfolding remove_source
  cleanup_old document r = do
    hook env "before:old_removed"
    summaries ← ask env.engine.list_containers
    if lists document.current_container_id summaries then remove_source document r else return tt
    hook env "after_effect:old_removed"
