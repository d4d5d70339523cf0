-- ===== src/Updater/Journal/Writes.antt =====
-- The calls of the journal that the two machines make: `start_v2` on the way forward, `checkpoint_v2`
-- on both.
use media_sync.Prelude.{ℕ, String, ◌≡◌, Bool, true}
use media_sync.Updater.Text.{Unicode}
use media_sync.Updater.Errors.{ok}
use media_sync.Updater.Handoff.{HandoffDocument}
use media_sync.Updater.Journal.Model.{UpdaterResultV2}
use media_sync.Updater.Journal.{Directory, start_v2, CheckpointArgs, checkpoint_v2}
use media_sync.Updater.Journal.System.{Calls, done, next, starts_v2, checkpoints}

-- One of these calls that succeeds; a start only where `may_start` says so.
pub data Write (may_start : Bool) (u : Unicode) : Directory → Directory → Type 0 where
  begun :
      {d d' : Directory} {r : UpdaterResultV2} (document : HandoffDocument) (coordinator : String)
      (now : ℕ)
      → may_start ≡ true
      → start_v2 u document coordinator now d ≡ ok (r, d')
      → Write may_start u d d'
  recorded :
      {d d' : Directory} {r : UpdaterResultV2} (k : String) (a : CheckpointArgs) (now : ℕ)
      → checkpoint_v2 u k a now d ≡ ok (r, d')
      → Write may_start u d d'

pub data Writes (may_start : Bool) (u : Unicode) : Directory → Directory → Type 0 where
  none_yet : {d : Directory} → Writes may_start u d d
  then_one :
      {d e f : Directory} → Writes may_start u d e → Write may_start u e f → Writes may_start u d f

pub Writes-trans :
    {b : Bool} {u : Unicode} (d e f : Directory) → Writes b u d e → Writes b u e f → Writes b u d f
Writes-trans d e f p none_yet = p
Writes-trans d e f p (then_one ws w) = then_one (Writes-trans d _ _ p ws) w

-- They are calls of the journal.
pub Writes-Calls : {b : Bool} {u : Unicode} {d d' : Directory} → Writes b u d d' → Calls u d d'
Writes-Calls none_yet = done
Writes-Calls (then_one ws (begun document coordinator now m h)) =
    next (Writes-Calls ws) (starts_v2 document coordinator now h)
Writes-Calls (then_one ws (recorded k a now h)) = next (Writes-Calls ws) (checkpoints k a now h)
