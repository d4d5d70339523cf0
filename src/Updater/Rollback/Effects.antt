-- ===== src/Updater/Rollback/Effects.antt =====
-- The effects of `UpdaterRollbackV2` (`services/updater_rollback_v2.py`). Each looks at the containers
-- first, does what is missing, and confirms it.
use media_sync.Prelude.{
  String, Bool, false, ◌&&◌, ◌||◌, not, none, some, ◌==◌, if◌then◌else◌, text_eq,
}
use media_sync.Updates.Recovery.{
  matched, conflict, missing, is_identity, DockerRecoveryObservation, is_running,
}
use media_sync.Updater.Errors.{state_machine_error, Result, ok, err}
use media_sync.Updater.Handoff.{RestartPolicy, HandoffDocument}
use media_sync.Updater.Docker.{Container, container_name}
use media_sync.Updater.Journal.Model.{UpdaterResultV2}
use media_sync.Updater.Candidate.{CandidatePreparation}
use media_sync.Updater.Identity.{source_identity_matches}
use media_sync.Updater.Forward.Effects.{is_up, has_state}
use media_sync.Updater.Machine.{
  Collaborators, M, ◌>>=◌, ◌>>◌, return, lift, refuse_if, ask, call, hook, observe_containers,
  inspect, previous_container_name,
}

-- `_require_safe_observation`: the test that it refuses.
abbrev pub is_unsafe : DockerRecoveryObservation → Bool
is_unsafe o =
    not (is_identity o.source.status matched)
    || not (is_identity o.coordinator.status matched)
    || is_identity o.candidate.status conflict

-- The candidate is there and runs.
abbrev pub candidate_runs : DockerRecoveryObservation → Bool
candidate_runs o = is_identity o.candidate.status matched && is_running o.candidate

-- `_require_candidate_id`
unfoldable pub observed_candidate_id : DockerRecoveryObservation → Result String
observed_candidate_id o = elim o.candidate.container_id [
  | none ↦ err (state_machine_error "回滚检查点缺少候选容器标识")
  | some id ↦ ok id
]

-- `_restart_policy(container) == policy`
abbrev pub has_policy : Container → RestartPolicy → Bool
has_policy c p = elim c.restart_policy [
  | none ↦ false
  | some q ↦ text_eq q.name p.name && (q.maximum_retry_count == p.maximum_retry_count)
]

module _ {D : Type 0} (env : Collaborators D) where
  abbrev pub stop_and_wait_for : String → M D (Unit {0})
  stop_and_wait_for id =
      call (env.engine.stop_container id env.stop_timeout_seconds)
      >> (call (env.engine.wait_container id) >>= λ code. return tt)

  -- `_observe` and `_require_safe_observation`
  unfoldable pub observe_safely :
      HandoffDocument → UpdaterResultV2 → CandidatePreparation → M D DockerRecoveryObservation
  observe_safely document r preparation = do
    o ← observe_containers env document r preparation
    refuse_if (is_unsafe o) "回滚容器身份无法安全确认"
    return o

  -- `_stop_candidate`
  unfoldable pub stop_candidate :
      HandoffDocument → UpdaterResultV2 → CandidatePreparation → M D (Unit {0})
  unfolding observe_safely observed_candidate_id
  stop_candidate document r preparation = do
    hook env "before:candidate_stopped"
    o ← observe_safely document r preparation
    if candidate_runs o then lift (observed_candidate_id o) >>= stop_and_wait_for else return tt
    confirmed ← observe_safely document r preparation
    refuse_if (candidate_runs confirmed) "候选容器停止状态未确认"
    hook env "after_effect:candidate_stopped"

  -- The removal of a candidate that was seen.
  unfoldable pub remove_seen : DockerRecoveryObservation → M D (Unit {0})
  unfolding observed_candidate_id
  remove_seen o = do
    refuse_if (is_running o.candidate) "运行中的候选容器不得删除"
    id ← lift (observed_candidate_id o)
    call (env.engine.remove_container id)

  -- `_remove_candidate`
  unfoldable pub remove_candidate :
      HandoffDocument → UpdaterResultV2 → CandidatePreparation → M D (Unit {0})
  unfolding observe_safely remove_seen
  remove_candidate document r preparation = do
    hook env "before:candidate_removed"
    o ← observe_safely document r preparation
    if is_identity o.candidate.status matched then remove_seen o else return tt
    confirmed ← observe_safely document r preparation
    refuse_if (not (is_identity confirmed.candidate.status missing)) "候选容器删除状态未确认"
    hook env "after_effect:candidate_removed"

  -- The snapshot is verified before and after it is restored.
  unfoldable pub restore_verified : String → M D (Unit {0})
  restore_verified k = do
    call (env.snapshots.verify k)
    call (env.snapshots.restore k)
    call (env.snapshots.verify k)

  -- `_restore_snapshot`
  unfoldable pub restore_snapshot : String → M D (Unit {0})
  unfolding restore_verified
  restore_snapshot k = do
    hook env "before:snapshot_restored"
    exists ← ask (λ d. ok (env.snapshots.exists k d || env.snapshots.is_symlink k d))
    if exists then restore_verified k else return tt
    hook env "after_effect:snapshot_restored"

  -- `_remove_candidate_evidence`
  unfoldable pub remove_candidate_evidence : String → M D (Unit {0})
  remove_candidate_evidence k = do
    hook env "before:candidate_evidence_removed"
    safe ← ask (λ d. ok (env.has_operations_directory d))
    refuse_if (not safe) "更新运行目录不安全"
    link ← ask (λ d. ok (env.is_evidence_symlink k d))
    refuse_if link "候选证据路径不安全"
    call (env.unlink_evidence k)
    hook env "after_effect:candidate_evidence_removed"

  -- `inspect_container` of the old container, whose identity has to match.
  unfoldable pub inspect_source : HandoffDocument → UpdaterResultV2 → M D Container
  inspect_source document r = do
    c ← inspect env document.current_container_id
    refuse_if (not (source_identity_matches c document r)) "旧容器身份与回滚结果不匹配"
    return c

  -- `_restore_old_name`
  unfoldable pub restore_old_name : HandoffDocument → UpdaterResultV2 → M D (Unit {0})
  unfolding inspect_source
  restore_old_name document r = do
    hook env "before:old_name_restored"
    c ← inspect_source document r
    previous ← lift (previous_container_name document.operation_id)
    if text_eq (container_name c) previous
        then call
            (env.engine.rename_container document.current_container_id document.candidate.name)
        else refuse_if (not (text_eq (container_name c) document.candidate.name)) "旧容器名称无法安全恢复"
    confirmed ← inspect env document.current_container_id
    refuse_if (not (text_eq (container_name confirmed) document.candidate.name)) "旧容器名称恢复状态未确认"
    hook env "after_effect:old_name_restored"

  -- `_restore_old_policy`
  unfoldable pub restore_old_policy : HandoffDocument → UpdaterResultV2 → M D (Unit {0})
  unfolding inspect_source
  restore_old_policy document r = do
    hook env "before:old_policy_restored"
    c ← inspect_source document r
    if has_policy c document.candidate.restart_policy
        then return tt
        else call (
            env.engine.update_restart_policy document.current_container_id
              document.candidate.restart_policy)
    confirmed ← inspect env document.current_container_id
    refuse_if (not (has_policy confirmed document.candidate.restart_policy)) "旧容器重启策略恢复状态未确认"
    hook env "after_effect:old_policy_restored"

  -- `_start_old`
  unfoldable pub start_old : HandoffDocument → UpdaterResultV2 → M D (Unit {0})
  unfolding inspect_source
  start_old document r = do
    hook env "before:old_started"
    c ← inspect_source document r
    refuse_if (not (has_state c)) "旧容器运行状态无效"
    if is_up c then return tt else call (env.engine.start_container document.current_container_id)
    confirmed ← inspect env document.current_container_id
    refuse_if (not (is_up confirmed)) "旧容器启动状态未确认"
    hook env "after_effect:old_started"

  -- The effect of the round at "old_started".
  unfoldable pub verify_old : HandoffDocument → M D (Unit {0})
  verify_old document = do
    hook env "before:old_verified"
    call (env.verify_previous document document.current_container_id)
    hook env "after_effect:old_verified"

  -- The round at "old_verified" has no effect.
  unfoldable pub publish : M D (Unit {0})
  publish = do hook env "before:rollback_published"; hook env "after_effect:rollback_published"
