-- ===== src/Updater/Docker.antt =====
-- What the updater sees of the Docker engine: the fields that it reads of `list_containers` and
-- `inspect_container`, and the calls of `UpdaterForwardEngine` and `UpdaterRollbackEngine`
-- (`services/updater_forward_v2.py`, `updater_rollback_v2.py`). The engine itself is a parameter.
use Prim.Native.Char.{code}
use Prim.Native.String.{◌++◌ as append}
use media_sync.Prelude.{
  ℕ, String, Bool, false, ◌&&◌, not, Option, none, some, List, [], ◌∷◌, ◌==◌, if◌then◌else◌,
  text_eq, first, select, holds,
}
use media_sync.Updater.Errors.{Result}
use media_sync.Updater.Handoff.{
  MountType, bind, volume, HandoffMount, RestartPolicy, HandoffDocument,
}

-- An entry of `Mounts`; a field that is absent or of another type is none.
pub record ContainerMount : Type 0 where
  pub type : Option String
  pub name : Option String
  pub source : Option String
  pub destination : Option String
  pub rw : Option Bool

-- `inspect_container`: `image` is Image, `config_image` Config.Image, and `state` is State.Running
-- is True, none when there is no State.
pub record Container : Type 0 where
  pub id : Option String
  pub image : Option String
  pub name : Option String
  pub config_image : Option String
  pub cmd : Option (List String)
  pub env : Option (List String)
  pub labels : List (String × String)
  pub restart_policy : Option RestartPolicy
  pub network_mode : Option String
  pub readonly_rootfs : Bool
  pub cap_drop : Option (List String)
  pub cap_add : Option (List String)
  pub security_opt : Option (List String)
  pub mounts : Option (List ContainerMount)
  pub state : Option Bool

-- An entry of `list_containers`.
pub record Summary : Type 0 where
  pub id : Option String
  pub labels : List (String × String)

-- `mapping.get(key)`
unfoldable pub get_label : String → List (String × String) → Option String
get_label k [] = none
get_label k ((j, v) ∷ rest) = if text_eq j k then some v else get_label k rest

-- `value.removeprefix("/") if isinstance(value, str) else ""`
abbrev pub without_slash : String → String
without_slash String.[] = ""
without_slash (String.◌∷◌ c s) = if code c == b'/' then s else String.◌∷◌ c s

unfoldable pub container_name : Container → String
container_name c = elim c.name [ none ↦ "" | some name ↦ without_slash name ]

-- `text.split("-", 1)[0]`
unfoldable pub before_hyphen : String → String
before_hyphen String.[] = ""
before_hyphen (String.◌∷◌ c s) =
    let rest = before_hyphen s in if code c == b'-' then "" else String.◌∷◌ c rest

-- The name that the old container has while the new one runs.
unfoldable pub previous_name : String → String
unfolding before_hyphen
previous_name operation_id = append "mediasync-previous-" (before_hyphen operation_id)

abbrev pub type_text : MountType → String
type_text bind = "bind"
type_text volume = "volume"

-- `matched[0]` against the mount of the document.
unfoldable pub mount_agrees : HandoffMount → ContainerMount → Bool
mount_agrees m actual =
    holds actual.type (type_text m.type)
    && holds (elim m.type [ bind ↦ actual.source | volume ↦ actual.name ]) m.source
    && elim actual.rw [ none ↦ false | some rw ↦ if rw then not m.read_only else m.read_only ]

abbrev pub is_destination : String → ContainerMount → Bool
is_destination target m = holds m.destination target

unfoldable pub single_agrees : HandoffMount → List ContainerMount → Bool
unfolding mount_agrees
single_agrees m (actual ∷ []) = mount_agrees m actual
single_agrees m _ = false

-- `_mount_matches` of `services/updater_recovery_decision_service.py`, and the same test in
-- `UpdaterForwardV2._require_source_identity`.
unfoldable pub mount_matches : Container → HandoffDocument → String → Bool
unfolding single_agrees
mount_matches c document target =
    elim (first (λ (m : HandoffMount). text_eq m.target target) document.candidate.mounts) [
      | none ↦ false
      | some m ↦ elim c.mounts [
        | none ↦ false
        | some mounts ↦ single_agrees m (select (is_destination target) mounts)
      ]
    ]

-- A call that changes the engine: what it answers, and the engine after it.
abbrev pub Act : Type 0 → Type 0 → Type 0
Act D A = D → Result A × D

pub record CreateConfig : Type 0 where
  pub image : String
  pub env : List String
  pub user : String
  pub labels : List (String × String)
  pub exposed_ports : List String
  pub mounts : List HandoffMount
  pub port_bindings : List (String × List (List (String × String)))
  pub restart_policy : RestartPolicy
  pub network_mode : String
  pub dns : List String
  pub group_add : List String
  pub readonly_rootfs : Bool
  pub devices : List (String × String × String)
  pub endpoints : List (String × List String)

-- The engine over the states `D` of all that is outside the updater.
pub record Engine (D : Type 0) : Type 0 where
  pub list_containers : D → Result (List Summary)
  pub inspect_container : String → D → Result Container
  pub update_restart_policy : String → RestartPolicy → Act D (Unit {0})
  pub stop_container : String → ℕ → Act D (Unit {0})
  pub wait_container : String → Act D ℕ
  pub rename_container : String → String → Act D (Unit {0})
  pub create_container : String → CreateConfig → Act D String
  pub start_container : String → Act D (Unit {0})
  pub remove_container : String → Act D (Unit {0})
