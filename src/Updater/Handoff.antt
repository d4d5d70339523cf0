-- ===== src/Updater/Handoff.antt =====
-- The hand-off document, which the appliance writes for the updater: `HandoffDocument` and
-- `validate_handoff_document` of `services/update_snapshot_service.py`, and the official registries of
-- `services/image_target_service.py`. A restart policy is the pair that `extract_restart_policy`
-- builds.
mod Paths
use media_sync.Prelude.{
  ℕ, String, Bool, true, false, ◌&&◌, ◌||◌, not, Option, none, some, List, [], ◌∷◌, ◌++◌, ◌==◌, ltb,
  leb, if◌then◌else◌, length, select, text_eq,
}
use media_sync.Updater.Text.{
  Unicode, codes, same_codes, every, has_code, rpartition, is_container_id, is_container_name,
  is_digest, is_revision, is_version,
}
use Paths.{valid_handoff_device_path}
use media_sync.Updater.Errors.{snapshot_error, Result, ok, ◌>>◌, refuse}

pub data MountType : Type 0 where
  bind volume : MountType

pub record HandoffMount : Type 0 where
  pub type : MountType
  pub source : String
  pub target : String
  pub read_only : Bool

pub record HandoffDevice : Type 0 where
  pub path_on_host : String
  pub path_in_container : String
  pub cgroup_permissions : String

pub record RestartPolicy : Type 0 where
  pub name : String
  pub maximum_retry_count : ℕ

pub record HandoffCandidate : Type 0 where
  pub container_id : String
  pub name : String
  pub env : List String
  pub user : String
  pub labels : List (String × String)
  pub mounts : List HandoffMount
  pub exposed_ports : List String
  pub port_bindings : List (String × List (List (String × String)))
  pub restart_policy : RestartPolicy
  pub network_mode : String
  pub networks : List (String × List String)
  pub dns : List String
  pub group_add : List String
  pub readonly_rootfs : Bool
  pub devices : List HandoffDevice

pub record HandoffDocument : Type 0 where
  pub operation_id : String
  pub current_container_id : String
  pub source_image_id : String
  pub source_image_reference : String
  pub source_version : String
  pub source_digest : Option String
  pub target_version : String
  pub target_digest : String
  pub target_revision : String
  pub target_image : String
  pub candidate : HandoffCandidate

-- `registry.repository for registry in OFFICIAL_REGISTRIES.values()`
unfoldable pub is_official_repository : List ℕ → Bool
unfolding same_codes
is_official_repository cs =
    same_codes cs (codes "josephyjq/mediasync")
    || same_codes cs (codes "ghcr.io/josephyin/mediasync")

-- `len(set(text)) == len(text)`
unfoldable pub has_no_repeats : List ℕ → Bool
unfolding has_code
has_no_repeats [] = true
has_no_repeats (c ∷ cs) = not (has_code c cs) && has_no_repeats cs

unfoldable pub has_text : String → List String → Bool
has_text s [] = false
has_text s (t ∷ ts) = text_eq t s || has_text s ts

unfoldable pub valid_permissions : List ℕ → Bool
unfolding has_no_repeats every
valid_permissions cs =
    leb 1 (length cs)
    && has_no_repeats cs
    && every (λ c. (c == b'r') || (c == b'w') || (c == b'm')) cs

-- The devices in their order; `targets` are the paths that were seen.
unfoldable pub valid_devices : List String → List HandoffDevice → Bool
unfolding valid_handoff_device_path valid_permissions has_text
valid_devices targets [] = true
valid_devices targets (d ∷ ds) =
    valid_handoff_device_path (codes d.path_on_host)
    && valid_handoff_device_path (codes d.path_in_container)
    && valid_permissions (codes d.cgroup_permissions)
    && not (has_text d.path_in_container targets)
    && valid_devices (d.path_in_container ∷ targets) ds

abbrev pub is_data_mount : HandoffMount → Bool
is_data_mount m = text_eq m.target "/data"

unfoldable pub valid_data_mounts : List HandoffMount → Bool
valid_data_mounts (m ∷ []) = not m.read_only
valid_data_mounts _ = false

-- target_image == f"{target_image.rsplit('@', 1)[0]}@{target_digest}"
unfoldable pub ends_with_digest : List ℕ → List ℕ → Bool
unfolding rpartition same_codes
ends_with_digest image digest = elim (rpartition image) [
  | none ↦ false
  | some p ↦ same_codes p.1 digest
]

unfoldable pub has_official_repository : List ℕ → Bool
unfolding rpartition is_official_repository
has_official_repository image = elim (rpartition image) [
  | none ↦ false
  | some p ↦ is_official_repository p.0
]

unfoldable pub matches_patterns : Unicode → HandoffDocument → Bool
matches_patterns u d =
    is_container_id (codes d.current_container_id)
    && text_eq d.candidate.container_id d.current_container_id
    && is_container_name (codes d.candidate.name)
    && is_digest (codes d.source_image_id)
    && is_version u (codes d.source_version)
    && is_version u (codes d.target_version)
    && is_digest (codes d.target_digest)
    && is_revision (codes d.target_revision)
    && ends_with_digest (codes d.target_image) (codes d.target_digest)

abbrev pub is_source_digest : Option String → Bool
is_source_digest none = true
is_source_digest (some digest) = is_digest (codes digest)

-- `validate_handoff_document`
unfoldable pub validate_handoff_document : Unicode → HandoffDocument → Result (Unit {0})
unfolding matches_patterns valid_devices valid_data_mounts has_official_repository
validate_handoff_document u d = do
  refuse (not (matches_patterns u d)) (snapshot_error "updater handoff 不变量校验失败")
  refuse (not (has_official_repository (codes d.target_image)))
      (snapshot_error "updater handoff 目标镜像不属于官方仓库")
  refuse (not (is_source_digest d.source_digest)) (snapshot_error "updater handoff 源镜像 digest 无效")
  refuse (not (valid_devices [] d.candidate.devices)) (snapshot_error "updater handoff 设备映射无效")
  refuse (not (valid_data_mounts (select is_data_mount d.candidate.mounts)))
      (snapshot_error "updater handoff 数据挂载无效")
  ok tt
