-- ===== src/Enqueue/Examples.antt =====
-- The theorem on manual scans applied to a subscription whose scan is still to come.
use mathlib.Core.List.{Memᴰ}
use media_sync.Prelude.{All, [], ◌∷◌, ◌++◌, some, ◌≡◌, true, false, ◌⊎◌}
use media_sync.Tasks.Model.{Task, Store}
use media_sync.Tasks.Session.{ok}
use media_sync.Tasks.Invariant.{Inv}
use media_sync.Tasks.Status.{pending}
use media_sync.Tasks.Tests.{one_task}
use media_sync.Enqueue.Service.{Subscription, enqueue_manual_scan}
use media_sync.Enqueue.Single.{IsOpenScan, enqueue_manual_scan_single}

abbrev films : Subscription
films = record { id = 8; cloud_account_id = 1 }

enqueue_manual_scan_single_example :
    ((t : Task) × Memᴰ t one_task.tasks
      × IsOpenScan films t
      × (enqueue_manual_scan films true 70 one_task
          ≡ ok (record { task = t; created = false }, one_task)))
    ⊎ (All (λ u. ¬ IsOpenScan films u) one_task.tasks
        × (t : Task) × (s' : Store) × (enqueue_manual_scan films true 70 one_task
            ≡ ok (record { task = t; created = true }, s'))
        × IsOpenScan films t
        × (t.status ≡ pending)
        × (t.trigger_type ≡ "manual")
        × (t.account_id ≡ some films.cloud_account_id)
        × (s'.tasks ≡ one_task.tasks ++ t ∷ [])
        × (s'.runs ≡ one_task.runs)
        × (Inv one_task → Inv s'))
enqueue_manual_scan_single_example = enqueue_manual_scan_single films true 70 one_task
