-- ===== src/Enqueue/Single.antt =====
-- One active scan for each subscription.
use mathlib.Core.List.{Memᴰ}
use mathlib.Core.Option.{some-injective}
use media_sync.Prelude.{
  ℕ, ◌+◌, ◌≡◌, refl, sym, Bool, true, false, none, some, List, [], ◌∷◌, ◌++◌, ◌⊎◌, inl, inr, arith,
  All, text_eq_iff, All-mem, select, select-All, mem-select, Bool-cases, Option-cases,
}
use media_sync.Prelude.Sorting.{sort, sort-All, mem-sort, sort-nil}
use media_sync.Tasks.Status.{
  TaskStatus, pending, running, retry, waiting_credential, cancel_requested, success, failed,
  cancelled, is_terminal,
}
use media_sync.Tasks.Model.{Task, Store}
use media_sync.Tasks.Session.{ok}
use media_sync.Tasks.Repository.Create.{create_task, insert_task}
use media_sync.Tasks.Invariant.{Inv}
use media_sync.Tasks.Invariant.Transition.{IsDraft, created, create_task-Inv}
use media_sync.Enqueue.Service.{
  Subscription, is_active_task, is_later, head_task, active_task, manual_scan, enqueue_manual_scan,
}

abbrev is_active_scan : Subscription → Task → Bool
is_active_scan sub t = is_active_task "scan" (some sub.id) none t

-- The statuses of a task that is still to end.
abbrev pub IsOpen : TaskStatus → Type 0
IsOpen x =
    (x ≡ pending) ⊎ (x ≡ running) ⊎ (x ≡ retry) ⊎ (x ≡ waiting_credential) ⊎ (x ≡ cancel_requested)

-- A scan of the subscription that is still to end.
pub record IsOpenScan (sub : Subscription) (t : Task) : Type 0 where
  pub scan : t.type ≡ "scan"
  pub subscribed : t.subscription_id ≡ some sub.id
  pub unended : IsOpen t.status

not_terminal-IsOpen : (x : TaskStatus) → is_terminal x ≡ false → IsOpen x
not_terminal-IsOpen pending h = inl refl
not_terminal-IsOpen running h = inr (inl refl)
not_terminal-IsOpen retry h = inr (inr (inl refl))
not_terminal-IsOpen waiting_credential h = inr (inr (inr (inl refl)))
not_terminal-IsOpen cancel_requested h = inr (inr (inr (inr refl)))
not_terminal-IsOpen success h = absurd (cc)
not_terminal-IsOpen failed h = absurd (cc)
not_terminal-IsOpen cancelled h = absurd (cc)

active-IsOpenScan : (sub : Subscription) (t : Task) → is_active_scan sub t ≡ true → IsOpenScan sub t
active-IsOpenScan sub t h = record {
  scan = ground (arith, text_eq_iff t.type "scan");
  subscribed = ground arith;
  unended = not_terminal-IsOpen t.status (ground arith);
}

IsOpenScan-active : (sub : Subscription) (t : Task) → IsOpenScan sub t → is_active_scan sub t ≡ true
IsOpenScan-active sub t h =
    ground (arith, h.scan, h.subscribed, h.unended, text_eq_iff t.type "scan")

select-nil :
    (sub : Subscription) (ts : List Task)
    → select (is_active_scan sub) ts ≡ []
    → All (λ t. ¬ IsOpenScan sub t) ts
select-nil sub [] h = tt
select-nil sub (t ∷ ts) h = elim (Bool-cases (is_active_scan sub t)) [
  | inl e ↦ absurd (ground arith)
  | inr e ↦
      (λ scan. let e' = IsOpenScan-active sub t scan in absurd (cc), select-nil sub ts (rw e at h))
]

head_task-mem : (l : List Task) (t : Task) → head_task l ≡ some t → Memᴰ t l
head_task-mem [] t h = absurd (cc)
head_task-mem (q ∷ l) t h = Memᴰ.head (sym (some-injective q t h))

head_task-none : (l : List Task) → head_task l ≡ none → l ≡ []
head_task-none [] h = refl
head_task-none (q ∷ l) h = absurd (cc)

manual_scan-IsDraft :
    (sub : Subscription) (force_full : Bool) (now : ℕ) → IsDraft (manual_scan sub force_full now)
unfolding manual_scan
manual_scan-IsDraft sub force_full now = record {
  clear = refl;
  open_ended = refl;
  unblocked = refl;
}

-- The tables after a new scan.
abbrev scan_added : Subscription → Bool → ℕ → Store → Store
scan_added sub force_full now s = record s {
  tasks = s.tasks ++ created (manual_scan sub force_full now) s ∷ [];
  next_task_id = s.next_task_id + 1;
}

create_scan :
    (sub : Subscription) (force_full : Bool) (now : ℕ) (s : Store)
    → create_task (some pending) (manual_scan sub force_full now) s
      ≡ ok (created (manual_scan sub force_full now) s, scan_added sub force_full now s)
unfolding create_task insert_task manual_scan
create_scan sub force_full now s = ground arith

-- A scan on request never fails: where a scan of the subscription is still to end, the call returns
-- such a scan and changes nothing; where there is none, it adds one pending scan, to be run on manual
-- request, behind the tasks that there are, and tables that were in order stay so.
pub enqueue_manual_scan_single :
    (sub : Subscription) (force_full : Bool) (now : ℕ) (s : Store)
    → ((t : Task) × Memᴰ t s.tasks
        × IsOpenScan sub t
        × (enqueue_manual_scan sub force_full now s ≡ ok (record { task = t; created = false }, s)))
      ⊎ (All (λ u. ¬ IsOpenScan sub u) s.tasks
          × (t : Task) × (s' : Store) × (enqueue_manual_scan sub force_full now s
              ≡ ok (record { task = t; created = true }, s'))
          × IsOpenScan sub t
          × (t.status ≡ pending)
          × (t.trigger_type ≡ "manual")
          × (t.account_id ≡ some sub.cloud_account_id)
          × (s'.tasks ≡ s.tasks ++ t ∷ [])
          × (s'.runs ≡ s.runs)
          × (Inv s → Inv s'))
unfolding enqueue_manual_scan active_task manual_scan
enqueue_manual_scan_single sub force_full now s =
    let query = select (is_active_scan sub) s.tasks in
    elim (Option-cases (head_task (sort is_later query))) [
      | inr (t, found) ↦
          let m = head_task-mem (sort is_later query) t found in
          inl (
            t,
            mem-select t (is_active_scan sub) s.tasks (mem-sort is_later t query m),
            active-IsOpenScan sub t (
                All-mem (λ u. is_active_scan sub u ≡ true) t (sort is_later query)
                  (sort-All is_later (λ u. is_active_scan sub u ≡ true) query
                    (select-All (is_active_scan sub) s.tasks))
                  m),
            ground (arith, found),
          )
      | inl absent ↦
          let idle = select-nil sub s.tasks (sort-nil is_later query (head_task-none _ absent)) in
          let new = create_scan sub force_full now s in
          inr (
            idle,
            created (manual_scan sub force_full now) s,
            scan_added sub force_full now s,
            ground (arith, absent, new),
            record { scan = refl; subscribed = refl; unended = inl refl },
            refl,
            refl,
            refl,
            refl,
            refl,
            λ v.
                create_task-Inv (some pending) (manual_scan sub force_full now) s _ _
                  (manual_scan-IsDraft sub force_full now) v new,
          )
    ]
