-- ===== src/Cutover/Orphans.antt =====
-- What the loop of the cutover keeps: each task is in order, or an orphan that is still to come.
use mathlib.Core.List.{Memᴰ}
use mathlib.Core.Option.{some-injective}
use native.Mathlib.Decide.{ℕ_discrete}
use media_sync.Prelude.{
  ℕ, ◌≤◌, ◌≡◌, sym, subst, ◌∙◌, ap, true, false, Option, none, some, List, [], ◌∷◌, ◌⊎◌, inl, inr,
  arith,
}
use media_sync.Tasks.Status.{running, status_eq}
use media_sync.Tasks.Model.{Task, Store, ownership_is_complete}
use media_sync.Tasks.Session.{ok, find_task, find_run}
use media_sync.Tasks.Repository.Legacy.{ReconciledLegacyTask, reconcile_legacy_orphan}
use media_sync.Tasks.Keys.{HasUniqueKeys, HasUniqueTasks}
use media_sync.Tasks.Ending.{IsSound-IsLinked}
use media_sync.Tasks.Frame.{Touches}
use media_sync.Tasks.Invariant.{IsSound, Inv}
use media_sync.Tasks.Invariant.Legacy.{
  orphan-effect, reconcile-effect, reconcile-Touches, reconcile-IsSound,
}
use media_sync.Tasks.System.{no-orphan}

-- What the database guarantees of keys.
pub record Keyed (s : Store) : Type 0 where
  pub fresh_task : (i : ℕ) → s.next_task_id ≤ i → find_task i s.tasks ≡ none
  pub fresh_run : (i : ℕ) → s.next_run_id ≤ i → find_run i s.runs ≡ none
  pub keys : HasUniqueKeys s.runs
  pub task_keys : HasUniqueTasks s.tasks

Touches-Keyed : {i : ℕ} {s s' : Store} → Touches i s s' → Keyed s → Keyed s'
Touches-Keyed p v = record {
  fresh_task = λ j h. let (h', f) = p.free_task j h in f (v.fresh_task j h');
  fresh_run = λ j h. let (h', f) = p.free_run j h in f (v.fresh_run j h');
  keys = p.keys v.keys v.fresh_run;
  task_keys = p.task_keys v.task_keys v.fresh_task;
}

-- A task that runs without a lease.
pub record IsOrphan (t : Task) : Type 0 where
  pub runs_on : status_eq t.status running ≡ true
  pub incomplete : ownership_is_complete t ≡ false
  pub unblocked : t.blocked_at ≡ none

-- An orphan on record that is still to come in the loop.
abbrev pub Waits : List Task → ℕ → Store → Type 0
Waits rest i s = (t : Task) × Memᴰ t rest × (t.id ≡ i) × (find_task i s.tasks ≡ some t) × IsOrphan t

pub record LoopInv (rest : List Task) (s : Store) : Type 0 where
  pub keyed : Keyed s
  pub each : (i : ℕ) → IsSound i s ⊎ Waits rest i s

pub finished-Inv : (s : Store) → LoopInv [] s → Inv s
finished-Inv s v = record {
  sound = λ i. elim (v.each i) [ inl done ↦ done | inr (t, m, _, _, _) ↦ elim m [ ] ];
  fresh_task = v.keyed.fresh_task;
  fresh_run = v.keyed.fresh_run;
  keys = v.keyed.keys;
  task_keys = v.keyed.task_keys;
}

-- A task that the loop passes by was no orphan.
pub skip :
    (t : Task) (rest : List Task) (s : Store)
    → (IsOrphan t → IsSound t.id s)
    → LoopInv (t ∷ rest) s
    → LoopInv rest s
skip t rest s calm v = record {
  keyed = v.keyed;
  each = λ i. elim (v.each i) [
    | inl done ↦ inl done
    | inr (q, Memᴰ.head e, key, _, orphan) ↦ inl (
        subst (λ k. IsSound k s) (ap (λ (x : Task). x.id) (sym e) ∙ key)
          (calm (subst IsOrphan e orphan)))
    | inr (q, Memᴰ.tail m, key, found, orphan) ↦ inr (q, m, key, found, orphan)
  ];
}

-- A call that puts the rows of the task in order and touches no others.
touched :
    (t : Task) (rest : List Task) (s s' : Store)
    → Touches t.id s s'
    → IsSound t.id s'
    → LoopInv (t ∷ rest) s
    → LoopInv rest s'
touched t rest s s' p sound v = record {
  keyed = Touches-Keyed p v.keyed;
  each = λ i. elim (ℕ_discrete t.id i) [
    | yes e ↦ inl (subst (λ k. IsSound k s') e sound)
    | no n ↦ elim (v.each i) [
      | inl done ↦ inl (rw (p.same_task i n, p.same_runs i n) done)
      | inr (q, Memᴰ.head e, key, _, _) ↦ absurd (n (ap (λ (x : Task). x.id) (sym e) ∙ key))
      | inr (q, Memᴰ.tail m, key, found, orphan) ↦ inr (q, m, key, p.same_task i n ∙ found, orphan)
    ]
  ];
}

module _ (to_ms : ℕ → ℕ) (next now : ℕ) (t : Task) (rest : List Task) (s s' : Store)
    (x : Option ReconciledLegacyTask)
    (h : reconcile_legacy_orphan to_ms t.id next now s ≡ ok (x, s')) where
  -- Where the rows are in order already, the call does nothing.
  step_sound : IsSound t.id s → LoopInv (t ∷ rest) s → LoopInv rest s'
  step_sound sound v = elim (reconcile-effect to_ms t.id next now s s' x h) [
    | inl idle ↦ rw idle.1 (skip t rest s (λ _. sound) v)
    | inr e ↦
        let owned = no-orphan e.old _ (IsSound-IsLinked t.id s e.old sound e.found) e.runs_on in
        absurd (ground (arith, owned, e.incomplete))
  ]

  step_orphan :
      (q : Task)
      → find_task t.id s.tasks ≡ some q
      → IsOrphan q
      → LoopInv (t ∷ rest) s
      → LoopInv rest s'
  step_orphan q found orphan v =
      let e =
        orphan-effect to_ms t.id next now s s' x q found
          (ground (arith, orphan.runs_on, orphan.incomplete)) h in
      let same = some-injective q e.old (sym found ∙ e.found) in
      touched t rest s s' (reconcile-Touches to_ms t.id next now s s' e v.keyed.keys)
        (reconcile-IsSound to_ms t.id next now s s' e v.keyed.keys
          (sym (ap (λ (z : Task). z.blocked_at) same) ∙ orphan.unblocked))
        v

  pub reconcile-step : LoopInv (t ∷ rest) s → LoopInv rest s'
  reconcile-step v = elim (v.each t.id) [
    | inl sound ↦ step_sound sound v
    | inr (q, _, _, found, orphan) ↦ step_orphan q found orphan v
  ]
