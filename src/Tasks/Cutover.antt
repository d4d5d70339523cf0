-- ===== src/Tasks/Cutover.antt =====
-- `reconcile_legacy_orphan` on a database of the time before leases, where the invariant does not
-- hold yet.
use media_sync.Prelude.{ℕ, ◌≡◌, none, some, inl, inr, sym, ◌∙◌, ap}
use mathlib.Core.Option.{some-injective}
use media_sync.Tasks.Model.{Task, Store}
use media_sync.Tasks.Session.{ok, find_task}
use media_sync.Tasks.Repository.Legacy.{ReconciledLegacyTask, reconcile_legacy_orphan}
use media_sync.Tasks.Keys.{HasUniqueKeys}
use media_sync.Tasks.Frame.{Touches}
use media_sync.Tasks.Invariant.{IsSound}
use media_sync.Tasks.Invariant.Legacy.{reconcile-effect, reconcile-Touches, reconcile-IsSound}

-- When the cutover reconciles a legacy task whose blocked_at is empty, in tables where no two runs
-- share a primary key, the rows of that task are in order afterwards (nobody owns it, it is not
-- running, it has no running run, and its time stamps fit its status) and the rows of every other
-- task are as before.
pub reconcile-repairs :
    (to_ms : ℕ → ℕ) (i next now : ℕ) (s s' : Store) (t : Task) (x : ReconciledLegacyTask)
    → HasUniqueKeys s.runs
    → find_task i s.tasks ≡ some t
    → t.blocked_at ≡ none
    → reconcile_legacy_orphan to_ms i next now s ≡ ok (some x, s')
    → IsSound i s' × Touches i s s'
reconcile-repairs to_ms i next now s s' t x u found blank h =
    elim (reconcile-effect to_ms i next now s s' (some x) h) [
      | inl (no_task, _) ↦ absurd (cc)
      | inr e ↦
          let same = some-injective t e.old (sym found ∙ e.found) in
          (
            reconcile-IsSound to_ms i next now s s' e u
                (sym (ap (λ (z : Task). z.blocked_at) same) ∙ blank),
            reconcile-Touches to_ms i next now s s' e u,
          )
    ]
