-- ===== src/Updater/Journal/Later.antt =====
-- Two results of one operation, the second written later: what stays as it was.
use media_sync.Prelude.{
  ◌≤◌, String, ◌≡◌, refl, sym, ap, ◌∙◌, subst, true, false, Option, some, arith, ◌⊎◌, inl, inr,
}
use media_sync.Updates.Recovery.{UpdaterStatus, commit_requested, success}
use media_sync.Updater.Text.{Unicode}
use media_sync.Updater.Checkpoint.{is_rollback, is_status, is_terminal, can_transition}
use media_sync.Updater.Journal.Model.{UpdaterResultV2}
use media_sync.Updater.Journal.{Entry, v1_entry, v2_entry, bad_entry, Directory}
use media_sync.Updater.Journal.Advance.{
  Kept, Moves, on, stays, turns, SameOperation, Advances, is_status_eq,
}
use media_sync.Updater.Journal.System.{
  Calls, done, next, Takes, Changes, first_v1, first_v2, moved, taken, advanced_to,
}
use media_sync.Updater.Journal.Effects.{Call-Changes}

-- The statuses after the commit was requested.
abbrev pub IsCommitted : UpdaterStatus → Type 0
IsCommitted s = (s ≡ commit_requested) ⊎ (s ≡ success)

pub record Later (c r : UpdaterResultV2) : Type 0 where
  pub order : c.sequence ≤ r.sequence
  pub generations : c.recovery_generation ≤ r.recovery_generation
  pub same : SameOperation c r
  pub token : Kept c.candidate_token_hash r.candidate_token_hash
  pub candidate : Kept c.candidate_container_id r.candidate_container_id
  pub back : is_rollback c.checkpoint ≡ true → is_rollback r.checkpoint ≡ true
  pub committed : IsCommitted c.status → IsCommitted r.status

SameOperation-trans :
    (a b c : UpdaterResultV2) → SameOperation a b → SameOperation b c → SameOperation a c
SameOperation-trans a b c p q = record {
  operation = q.operation ∙ p.operation;
  source = q.source ∙ p.source;
  image = q.image ∙ p.image;
  name = q.name ∙ p.name;
  target = q.target ∙ p.target;
  revision = q.revision ∙ p.revision;
}

Later-trans : (a b c : UpdaterResultV2) → Later a b → Later b c → Later a c
Later-trans a b c p q = record {
  order = omega (arith, p.order, q.order);
  generations = omega (arith, p.generations, q.generations);
  same = SameOperation-trans a b c p.same q.same;
  token = λ v e. q.token v (p.token v e);
  candidate = λ v e. q.candidate v (p.candidate v e);
  back = λ e. q.back (p.back e);
  committed = λ e. q.committed (p.committed e);
}

Later-refl : (a : UpdaterResultV2) → Later a a
Later-refl a = record {
  order = omega arith;
  generations = omega arith;
  same = record {
    operation = refl;
    source = refl;
    image = refl;
    name = refl;
    target = refl;
    revision = refl;
  };
  token = λ v e. e;
  candidate = λ v e. e;
  back = λ e. e;
  committed = λ e. e;
}

IsCommitted-next :
    (s t : UpdaterStatus)
    → is_terminal s ≡ false
    → (is_status t s ≡ true) ⊎ (can_transition s t ≡ true)
    → IsCommitted s
    → IsCommitted t
unfolding is_terminal is_status can_transition
IsCommitted-next s t live status (inl e) = ground (arith, is_status_eq t s)
IsCommitted-next s t live status (inr e) = ground arith

back_next :
    (c r : UpdaterResultV2)
    → Moves c r
    → is_rollback c.checkpoint ≡ true
    → is_rollback r.checkpoint ≡ true
back_next c r (on side i) e = side ∙ e
back_next c r (stays side i s) e = side ∙ e
back_next c r (turns f b i s) e = b

Takes-Later : (c r : UpdaterResultV2) → Takes c r → Later c r
Takes-Later c r t = record {
  order = omega (arith, t.next);
  generations = omega (arith, t.generation);
  same = t.same;
  token = λ v e. t.token ∙ e;
  candidate = λ v e. t.candidate ∙ e;
  back = λ e. ap is_rollback t.checkpoint ∙ e;
  committed = subst IsCommitted (sym t.status);
}

Advances-Later : (c r : UpdaterResultV2) → Advances c r → Later c r
Advances-Later c r a = record {
  order = omega (arith, a.next);
  generations = omega (arith, a.generation);
  same = a.same;
  token = a.token;
  candidate = a.candidate;
  back = back_next c r a.moves;
  committed = IsCommitted-next c.status r.status a.live a.status;
}

-- What a file with a result of version 2 holds after a change.
Changes-Later :
    {u : Unicode} {k : String} {o o' : Option Entry}
    → Changes u k o o'
    → (c : UpdaterResultV2) → o ≡ some (v2_entry c)
    → (r : UpdaterResultV2) × (o' ≡ some (v2_entry r)) × Later c r
Changes-Later (first_v1 a b) x e = cc
Changes-Later (first_v2 v n s g st cp) x e = cc
Changes-Later (moved l c s) x e = cc
Changes-Later (taken {c = c} {r = r} v t) x e =
    let same : c ≡ x = cc in (r, refl, subst (λ y. Later y r) same (Takes-Later c r t))
Changes-Later (advanced_to {c = c} {r = r} vc v a) x e =
    let same : c ≡ x = cc in (r, refl, subst (λ y. Later y r) same (Advances-Later c r a))

-- Whatever calls follow, the operation keeps its file, its sequence and generation do not fall, what
-- identifies it and the candidate never changes once it is set, a rollback is never left for the
-- forward path, and once the commit was requested only success can come.
pub Calls-Later :
    (u : Unicode) (d d' : Directory) (k : String) (c : UpdaterResultV2)
    → Calls u d d'
    → d k ≡ some (v2_entry c)
    → (r : UpdaterResultV2) × (d' k ≡ some (v2_entry r)) × Later c r
Calls-Later u d d' k c done e = (c, e, Later-refl c)
Calls-Later u d d' k c (next {e = m} cs call) e =
    let (b, there, before) = Calls-Later u d m k c cs e in
    elim (Call-Changes u m d' k call) [
      | inl same ↦ (b, same ∙ there, before)
      | inr change ↦
          let (r, here, after) = Changes-Later change b there in
          (r, here, Later-trans c b r before after)
    ]

abbrev pub IsTerminalEntry : Entry → Type 0
IsTerminalEntry (v1_entry r) = is_terminal r.status ≡ true
IsTerminalEntry (v2_entry r) = is_terminal r.status ≡ true
IsTerminalEntry (bad_entry m) = ⊥

Changes-live :
    {u : Unicode} {k : String} {o o' : Option Entry}
    → Changes u k o o'
    → (x : Entry) → o ≡ some x
    → IsTerminalEntry x
    → ⊥
Changes-live (first_v1 a b) x e t = cc
Changes-live (first_v2 v n s g st cp) x e t = cc
Changes-live (moved {c = c} live can s) x e t =
    let same : v1_entry c ≡ x = cc in let t' = subst IsTerminalEntry (sym same) t in cc
Changes-live (taken {c = c} v a) x e t =
    let same : v2_entry c ≡ x = cc in let t' = subst IsTerminalEntry (sym same) t in cc (a.live)
Changes-live (advanced_to {c = c} vc v a) x e t =
    let same : v2_entry c ≡ x = cc in let t' = subst IsTerminalEntry (sym same) t in cc (a.live)

-- A result with a terminal status stays as it is, of either version.
pub Calls-terminal :
    (u : Unicode) (d d' : Directory) (k : String) (x : Entry)
    → Calls u d d'
    → d k ≡ some x
    → IsTerminalEntry x
    → d' k ≡ some x
Calls-terminal u d d' k x done e t = e
Calls-terminal u d d' k x (next {e = m} cs call) e t =
    let there = Calls-terminal u d m k x cs e t in
    elim (Call-Changes u m d' k call) [
      | inl same ↦ same ∙ there
      | inr change ↦ absurd (Changes-live change x there t)
    ]
