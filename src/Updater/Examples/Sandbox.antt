-- ===== src/Updater/Examples/Sandbox.antt =====
-- A small engine to run the updater on: the old container, the candidate once it is created, and the
-- updater's own container. It does what Docker documents of each call.
use media_sync.Prelude.{
  String, Bool, true, false, Option, none, some, List, [], ◌∷◌, if◌then◌else◌, text_eq,
}
use Prim.Native.String.{◌++◌ as append}
use media_sync.Updates.Gate.{no_marker}
use media_sync.Updater.Text.{ascii}
use media_sync.Updater.Errors.{foreign_error, Result, ok, err}
use media_sync.Updater.Handoff.{bind, RestartPolicy, HandoffDocument}
use media_sync.Updater.Docker.{ContainerMount, Container, Summary, Act, CreateConfig, Engine}
use media_sync.Updater.Journal.System.{empty_directory}
use media_sync.Updater.Machine.{Collaborators, SnapshotService, World}

abbrev pub source_id : String
source_id = "aaaaaaaaaaaaaaaaaaaaaaaaaaaaaaaaaaaaaaaaaaaaaaaaaaaaaaaaaaaaaaaa"

abbrev pub candidate_id : String
candidate_id = "bbbbbbbbbbbbbbbbbbbbbbbbbbbbbbbbbbbbbbbbbbbbbbbbbbbbbbbbbbbbbbbb"

abbrev pub updater_id : String
updater_id = "cccccccccccccccccccccccccccccccccccccccccccccccccccccccccccccccc"

abbrev pub operation : String
operation = "3f2504e0-4f89-41d3-9a0c-0305e82c3301"

abbrev target : String
target =
    "ghcr.io/josephyin/mediasync@sha256:dddddddddddddddddddddddddddddddddddddddddddddddddddddddddddddddd"

abbrev policy : RestartPolicy
policy = record { name = "unless-stopped"; maximum_retry_count = 0 }

abbrev pub document : HandoffDocument
document = record {
  operation_id = operation;
  current_container_id = source_id;
  source_image_id = "sha256:dddddddddddddddddddddddddddddddddddddddddddddddddddddddddddddddd";
  source_image_reference = "ghcr.io/josephyin/mediasync:v1.0.0";
  source_version = "v1.0.0";
  source_digest = none;
  target_version = "v1.1.0";
  target_digest = "sha256:dddddddddddddddddddddddddddddddddddddddddddddddddddddddddddddddd";
  target_revision = "ffffffffffffffffffffffffffffffffffffffff";
  target_image = target;
  candidate = record {
    container_id = source_id;
    name = "mediasync";
    env = "TZ=UTC" ∷ [];
    user = "";
    labels = [];
    mounts = record { type = bind; source = "/srv/data"; target = "/data"; read_only = false } ∷ [];
    exposed_ports = [];
    port_bindings = [];
    restart_policy = policy;
    network_mode = "bridge";
    networks = [];
    dns = [];
    group_add = [];
    readonly_rootfs = false;
    devices = [];
  };
}

abbrev data_mount : ContainerMount
data_mount = record {
  type = some "bind";
  name = none;
  source = some "/srv/data";
  destination = some "/data";
  rw = some true;
}

abbrev socket_mount : ContainerMount
socket_mount = record {
  type = some "bind";
  name = none;
  source = some "/var/run/docker.sock";
  destination = some "/var/run/docker.sock";
  rw = some true;
}

abbrev pub source_container : Container
source_container = record {
  id = some source_id;
  image = some "sha256:dddddddddddddddddddddddddddddddddddddddddddddddddddddddddddddddd";
  name = some "/mediasync";
  config_image = some "ghcr.io/josephyin/mediasync:v1.0.0";
  cmd = some ("python" ∷ "-m" ∷ "app.appliance" ∷ []);
  env = some [];
  labels = [];
  restart_policy = some policy;
  network_mode = some "bridge";
  readonly_rootfs = false;
  cap_drop = none;
  cap_add = none;
  security_opt = none;
  mounts = some (data_mount ∷ []);
  state = some true;
}

abbrev updater_container : Container
updater_container = record {
  id = some updater_id;
  image = some "sha256:dddddddddddddddddddddddddddddddddddddddddddddddddddddddddddddddd";
  name = some "/mediasync-updater";
  config_image = some target;
  cmd = some ("python" ∷ "-m" ∷ "app.updater" ∷ []);
  env = some [];
  labels =
      ("io.mediasync.update.operation", operation) ∷ ("io.mediasync.update.role", "updater") ∷ [];
  restart_policy = some policy;
  network_mode = some "none";
  readonly_rootfs = true;
  cap_drop = some ("ALL" ∷ []);
  cap_add = some ("CAP_DAC_OVERRIDE" ∷ []);
  security_opt = some ("no-new-privileges:true" ∷ []);
  mounts = some (data_mount ∷ socket_mount ∷ []);
  state = some true;
}

pub record Docker : Type 0 where
  pub source : Option Container
  pub candidate : Option Container
  pub has_snapshot : Bool

abbrev listed : Option Container → List Container → List Container
listed none rest = rest
listed (some c) rest = c ∷ rest

abbrev containers : Docker → List Container
containers d = listed d.source (listed d.candidate (updater_container ∷ []))

abbrev summary : Container → Summary
summary c = record { id = c.id; labels = c.labels }

abbrev has_id : String → Container → Bool
has_id id c = elim c.id [ none ↦ false | some x ↦ text_eq x id ]

abbrev look_up : String → List Container → Result Container
look_up id [] = err (foreign_error "no such container")
look_up id (c ∷ cs) = if has_id id c then ok c else look_up id cs

abbrev pub change : String → (Container → Container) → Option Container → Option Container
change id f none = none
change id f (some c) = if has_id id c then some (f c) else some c

abbrev drop : String → Option Container → Option Container
drop id none = none
drop id (some c) = if has_id id c then none else some c

abbrev update : String → (Container → Container) → Act Docker (Unit {0})
update id f d =
    (ok tt, record d { source = change id f d.source; candidate = change id f d.candidate })

abbrev summaries : List Container → List Summary
summaries [] = []
summaries (c ∷ cs) = summary c ∷ summaries cs

abbrev created : String → CreateConfig → Container
created name c = record {
  id = some candidate_id;
  image = some "sha256:dddddddddddddddddddddddddddddddddddddddddddddddddddddddddddddddd";
  name = some (append "/" name);
  config_image = some c.image;
  cmd = some ("python" ∷ "-m" ∷ "app.appliance" ∷ []);
  env = some c.env;
  labels = c.labels;
  restart_policy = some c.restart_policy;
  network_mode = some c.network_mode;
  readonly_rootfs = c.readonly_rootfs;
  cap_drop = none;
  cap_add = none;
  security_opt = none;
  mounts = some (data_mount ∷ []);
  state = some false;
}

abbrev pub engine : Engine Docker
engine = record {
  list_containers = λ d. ok (summaries (containers d));
  inspect_container = λ id d. look_up id (containers d);
  update_restart_policy = λ id p. update id (λ c. record c { restart_policy = some p });
  stop_container = λ id n. update id (λ c. record c { state = some false });
  wait_container = λ id d. (ok 0, d);
  rename_container = λ id name. update id (λ c. record c { name = some (append "/" name) });
  create_container = λ name c d. (ok candidate_id, record d { candidate = some (created name c) });
  start_container = λ id. update id (λ c. record c { state = some true });
  remove_container =
      λ id d. (ok tt, record d { source = drop id d.source; candidate = drop id d.candidate });
}

abbrev pub pass : Act Docker (Unit {0})
pass d = (ok tt, d)

abbrev snapshots : SnapshotService Docker
snapshots = record {
  exists = λ k d. d.has_snapshot;
  is_symlink = λ k d. false;
  create = λ k d. (ok tt, record d { has_snapshot = true });
  verify = λ k d. ((if d.has_snapshot then ok tt else err (foreign_error "no snapshot")), d);
  restore = λ k. pass;
}

-- The collaborators, with an engine's own fault hook.
abbrev pub with_hook : (String → Result (Unit {0})) → Collaborators Docker
with_hook hook = record {
  unicode = ascii;
  hexdigest = λ token. "eeeeeeeeeeeeeeeeeeeeeeeeeeeeeeeeeeeeeeeeeeeeeeeeeeeeeeeeeeeeeeee";
  engine = engine;
  snapshots = snapshots;
  verify_candidate = λ d p id. pass;
  verify_previous = λ d id. pass;
  wait_commit = λ k. pass;
  has_operations_directory = λ d. true;
  is_evidence_symlink = λ k d. false;
  unlink_evidence = λ k. pass;
  handoff_file = λ k. ok document;
  fault_hook = hook;
  coordinator_container_id = updater_id;
  socket_path = "/var/run/docker.sock";
  stop_timeout_seconds = 90;
  drawn_token = "0123456789abcdef0123456789abcdef";
  now = λ d. 1000;
}

abbrev pub env : Collaborators Docker
env = with_hook (λ event. ok tt)

-- The collaborators with a fault at one event.
abbrev pub failing_at : String → Collaborators Docker
failing_at event =
    with_hook (λ e. if text_eq e event then err (foreign_error "injected") else ok tt)

abbrev pub start : World Docker
start = record {
  journal = empty_directory;
  pending = no_marker;
  outside = record { source = some source_container; candidate = none; has_snapshot = false };
}
