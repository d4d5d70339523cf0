-- ===== src/Updater/Candidate.antt =====
-- `UpdaterCandidateService.prepare` and `build_candidate_create_config` of
-- `services/updater_candidate_service.py`. The pending marker is what `read_pending_marker` finds of
-- it; a marker is written whole, by a link that does not replace a file.
use Prim.Native.Char.{code}
use Prim.Native.String.{◌++◌ as append}
use media_sync.Prelude.{
  String, Bool, ◌&&◌, ◌||◌, not, Option, none, some, List, [], ◌∷◌, ◌++◌, ◌==◌, if◌then◌else◌,
  text_eq, select, map,
}
use media_sync.Updates.Gate.{PendingUpdateMarker, MarkerRead, no_marker, bad_marker, good_marker}
use media_sync.Updater.Text.{codes, is_candidate_token}
use media_sync.Updater.Errors.{candidate_error, Result, ok, err, ◌>>=◌, ◌>>◌, refuse}
use media_sync.Updater.Handoff.{HandoffDevice, HandoffDocument}
use media_sync.Updater.Docker.{CreateConfig}
use media_sync.Updater.Identity.{operation_label, role_label}

pub record CandidatePreparation : Type 0 where
  pub marker : PendingUpdateMarker
  pub create_config : CreateConfig

-- Whether the marker is of the document's operation and target.
unfoldable pub marker_matches : PendingUpdateMarker → HandoffDocument → Bool
marker_matches m document =
    text_eq m.operation_id document.operation_id
    && text_eq m.target_version document.target_version
    && text_eq m.target_digest document.target_digest
    && text_eq m.target_revision document.target_revision

-- `item.partition("=")[0]`
unfoldable pub before_equals : String → String
before_equals String.[] = ""
before_equals (String.◌∷◌ c s) =
    let rest = before_equals s in if code c == b'=' then "" else String.◌∷◌ c rest

-- INTERNAL_CANDIDATE_ENVIRONMENT
abbrev pub is_internal : String → Bool
is_internal name =
    text_eq name "MEDIASYNC_CANDIDATE_TOKEN"
    || text_eq name "MEDIASYNC_IMAGE_REVISION"
    || text_eq name "MEDIASYNC_IMAGE_DIGEST"

abbrev pub is_own_variable : String → Bool
is_own_variable item = not (is_internal (before_equals item))

-- `mapping[key] = value`, a key that is there keeps its place.
unfoldable pub set_label : String → String → List (String × String) → List (String × String)
set_label k v [] = (k, v) ∷ []
set_label k v ((j, w) ∷ rest) = if text_eq j k then (k, v) ∷ rest else (j, w) ∷ set_label k v rest

abbrev pub device_entry : HandoffDevice → String × String × String
device_entry d = (d.path_on_host, d.path_in_container, d.cgroup_permissions)

unfoldable pub candidate_config : HandoffDocument → PendingUpdateMarker → CreateConfig
unfolding before_equals set_label
candidate_config document m = record {
  image = document.target_image;
  env =
      select is_own_variable document.candidate.env
      ++ (append "MEDIASYNC_CANDIDATE_TOKEN=" m.candidate_token
          ∷ append "MEDIASYNC_IMAGE_REVISION=" m.target_revision
          ∷ append "MEDIASYNC_IMAGE_DIGEST=" m.target_digest
          ∷ []);
  user = document.candidate.user;
  labels =
      set_label operation_label document.operation_id
        (set_label role_label "candidate" document.candidate.labels);
  exposed_ports = document.candidate.exposed_ports;
  mounts = document.candidate.mounts;
  port_bindings = document.candidate.port_bindings;
  restart_policy = document.candidate.restart_policy;
  network_mode = document.candidate.network_mode;
  dns = document.candidate.dns;
  group_add = document.candidate.group_add;
  readonly_rootfs = document.candidate.readonly_rootfs;
  devices = map device_entry document.candidate.devices;
  endpoints = document.candidate.networks;
}

-- `build_candidate_create_config`
unfoldable pub build_candidate_create_config :
    HandoffDocument → PendingUpdateMarker → Result CreateConfig
unfolding marker_matches candidate_config
build_candidate_create_config document m = do
  refuse (not (marker_matches m document && is_candidate_token (codes m.candidate_token)))
      (candidate_error "候选创建配置与 handoff 不匹配")
  ok (candidate_config document m)

-- `_existing_marker`
unfoldable pub existing_marker : HandoffDocument → MarkerRead → Result (Option PendingUpdateMarker)
unfolding marker_matches
existing_marker document no_marker = ok none
existing_marker document (bad_marker reason) = err (candidate_error reason)
existing_marker document (good_marker m) =
    if marker_matches m document then ok (some m) else err (candidate_error "已有候选验证标记与 handoff 不匹配")

-- `_new_candidate_token`, with what the factory drew.
unfoldable pub new_candidate_token : String → Result String
new_candidate_token drawn =
    if is_candidate_token (codes drawn) then ok drawn else err (candidate_error "候选验证令牌生成失败")

-- The marker of `prepare`: the one that is there, or a new one.
unfoldable pub marker_for :
    HandoffDocument → String → Option PendingUpdateMarker → Result PendingUpdateMarker
unfolding new_candidate_token
marker_for document drawn (some m) = ok m
marker_for document drawn none = new_candidate_token drawn >>= λ token. ok (record {
  operation_id = document.operation_id;
  target_version = document.target_version;
  target_digest = document.target_digest;
  target_revision = document.target_revision;
  candidate_token = token;
})

-- `prepare`: what it returns, and the marker file after it.
unfoldable pub prepare :
    HandoffDocument → String → MarkerRead → Result CandidatePreparation × MarkerRead
unfolding existing_marker marker_for build_candidate_create_config
prepare document drawn pending =
    elim (existing_marker document pending >>= λ found. marker_for document drawn found) [
      | err e ↦ (err e, pending)
      | ok m ↦ (
        build_candidate_create_config document m >>= λ config.
            ok (record { marker = m; create_config = config }),
        good_marker m,
      )
    ]
