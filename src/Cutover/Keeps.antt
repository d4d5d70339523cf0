-- ===== src/Cutover/Keeps.antt =====
-- The cutover leaves the tables in order.
use mathlib.Core.List.{Memᴰ}
use mathlib.Core.Option.{some-injective}
use media_sync.Prelude.{
  ℕ, ◌≡◌, refl, sym, not, some, List, [], ◌∷◌, ◌⊎◌, inl, inr, arith, All, All-imp, All-mem,
  Bool-cases, ◌==◌,
}
use media_sync.Prelude.Sorting.{sort, All-sort}
use media_sync.Tasks.Status.{running, status_eq}
use media_sync.Tasks.Model.{Task, Store, ownership_is_complete}
use media_sync.Tasks.Session.{ok, find_task}
use media_sync.Tasks.Checks.{Result-cases}
use media_sync.Tasks.Repository.Legacy.{reconcile_legacy_orphan}
use media_sync.Tasks.Rows.{find_task-id}
use media_sync.Tasks.Invariant.{IsSound, Inv}
use media_sync.Worker.Backoff.{ExponentialBackoff}
use media_sync.Cutover.Service.{
  LegacyTaskReconciliationResult, preserve, status_text, tally, retry_moment, reconcile_each,
  is_smaller, reconcile_legacy_tasks,
}
use media_sync.Cutover.Orphans.{Keyed, IsOrphan, LoopInv, finished-Inv, skip, reconcile-step}

loop-LoopInv :
    (to_ms : ℕ → ℕ) (b : ExponentialBackoff) (now : ℕ) (ts : List Task)
    (acc out : LegacyTaskReconciliationResult) (s s' : Store)
    → LoopInv ts s
    → reconcile_each to_ms b now ts acc s ≡ ok (out, s')
    → LoopInv [] s'
unfolding reconcile_each
loop-LoopInv to_ms b now [] acc out s s' v h = let same : s' ≡ s = ground arith in rw same v
loop-LoopInv to_ms b now (t ∷ ts) acc out s s' v h =
    elim (Bool-cases (not (status_eq t.status running))) [
      | inl other ↦
          loop-LoopInv to_ms b now ts (preserve (status_text t.status) acc) out s s'
            (skip t ts s (λ o. absurd (ground (arith, other, o.runs_on))) v) (ground arith)
      | inr runs_on ↦ elim (Bool-cases (ownership_is_complete t)) [
        | inl owned ↦
            loop-LoopInv to_ms b now ts (preserve "running_v2_owned" acc) out s s'
              (skip t ts s (λ o. absurd (ground (arith, owned, o.incomplete))) v) (ground arith)
        | inr free ↦
            elim (Result-cases (reconcile_legacy_orphan to_ms t.id (retry_moment b now t) now s)) [
              | inl (e, bad) ↦ absurd (ground arith)
              | inr ((x, u), done) ↦
                  loop-LoopInv to_ms b now ts (tally x acc) out u s'
                    (reconcile-step to_ms (retry_moment b now t) now t ts s u x done v)
                    (ground arith)
            ]
      ]
    ]

-- A database of the time before leases: its keys are unique, and the rows of every task are in order
-- but for orphans.
pub record IsLegacy (s : Store) : Type 0 where
  pub keyed : Keyed s
  pub each : (i : ℕ) → IsSound i s ⊎ ((t : Task) × (find_task i s.tasks ≡ some t) × IsOrphan t)

find-mem : (i : ℕ) (ts : List Task) (t : Task) → find_task i ts ≡ some t → Memᴰ t ts
unfolding find_task
find-mem i [] t h = absurd (cc)
find-mem i (q ∷ ts) t h = elim (Bool-cases (q.id == i)) [
  | inl hit ↦ Memᴰ.head (sym (some-injective q t (rw hit at h)))
  | inr miss ↦ Memᴰ.tail (find-mem i ts t (rw miss at h))
]

All-self : (ts : List Task) → All (λ t. Memᴰ t ts) ts
All-self [] = tt
All-self (t ∷ ts) = (Memᴰ.head refl, All-imp ts (λ q m. Memᴰ.tail m) (All-self ts))

mem-sorted : (t : Task) (ts : List Task) → Memᴰ t ts → Memᴰ t (sort is_smaller ts)
mem-sorted t ts m =
    All-mem (λ q. Memᴰ q (sort is_smaller ts)) t ts
      (All-sort is_smaller (λ q. Memᴰ q (sort is_smaller ts)) ts (All-self (sort is_smaller ts))) m

-- Where the cutover succeeds on a database of the time before leases, whose keys are unique and in
-- which every task is in order or is an orphan (it runs without a complete lease and is not blocked),
-- the tables are in order afterwards (`Inv`), as the task engine needs them.
pub reconcile_legacy_tasks-Inv :
    (to_ms : ℕ → ℕ) (b : ExponentialBackoff) (now : ℕ) (out : LegacyTaskReconciliationResult)
    (s s' : Store)
    → IsLegacy s
    → reconcile_legacy_tasks to_ms b now s ≡ ok (out, s')
    → Inv s'
unfolding reconcile_legacy_tasks
reconcile_legacy_tasks-Inv to_ms b now out s s' v h = finished-Inv s' (
    loop-LoopInv to_ms b now (sort is_smaller s.tasks) _ out s s'
      (record {
        keyed = v.keyed;
        each = λ i. elim (v.each i) [
          | inl sound ↦ inl sound
          | inr (t, found, orphan) ↦ inr (
            t,
            mem-sorted t s.tasks (find-mem i s.tasks t found),
            find_task-id i s.tasks t found,
            found,
            orphan,
          )
        ];
      })
      h)
