-- ===== src/Updater/Journal/Sound.antt =====
-- What holds of every result of version 2 that the journal's calls leave in a directory.
use media_sync.Prelude.{
  ◌+◌, ◌≤◌, String, ◌≡◌, refl, sym, ◌∙◌, subst, true, Option, none, some, arith, inl, inr,
}
use media_sync.Updater.Text.{Unicode}
use media_sync.Updater.Journal.Model.{UpdaterResultV2, is_valid}
use media_sync.Updater.Journal.{Entry, v2_entry, Directory}
use media_sync.Updater.Journal.Potential.{potential, potential-Advances, potential-le}
use media_sync.Updater.Journal.System.{
  Call, Calls, done, next, empty_directory, Takes, Changes, first_v1, first_v2, moved, taken,
  advanced_to,
}
use media_sync.Updater.Journal.Effects.{Call-Changes}

pub record Sound (u : Unicode) (k : String) (r : UpdaterResultV2) : Type 0 where
  pub valid : is_valid u r ≡ true
  pub named : r.operation_id ≡ k
  pub counted : r.sequence ≤ 1 + potential r + r.recovery_generation

abbrev pub IsSoundEntry : Unicode → String → Option Entry → Type 0
IsSoundEntry u k none = Unit
IsSoundEntry u k (some (v2_entry r)) = Sound u k r
IsSoundEntry u k (some _) = Unit

potential-Takes : (c r : UpdaterResultV2) → Takes c r → potential r ≡ potential c
unfolding potential
potential-Takes c r t = rw (t.status, t.checkpoint) refl

Changes-Sound :
    {u : Unicode} {k : String} {o o' : Option Entry}
    → Changes u k o o'
    → IsSoundEntry u k o
    → IsSoundEntry u k o'
Changes-Sound (first_v1 a b) h = tt
Changes-Sound (first_v2 {r = r} v n s g st cp) h = record {
  valid = v;
  named = n;
  counted = omega (arith, s, g);
}
Changes-Sound (moved l c s) h = tt
Changes-Sound (taken {c = c} {r = r} v t) h = record {
  valid = v;
  named = t.same.operation ∙ h.named;
  counted = omega (arith, potential-Takes c r t, t.next, t.generation, h.counted);
}
Changes-Sound {u} (advanced_to {c = c} {r = r} vc v a) h = record {
  valid = v;
  named = a.same.operation ∙ h.named;
  counted = omega (arith, potential-Advances u c r vc v a, a.next, a.generation, h.counted);
}

Call-Sound :
    {u : Unicode} {d d' : Directory} (k : String)
    → Call u d d'
    → IsSoundEntry u k (d k)
    → IsSoundEntry u k (d' k)
Call-Sound {u} {d} {d'} k c h = elim (Call-Changes u d d' k c) [
  | inl e ↦ subst (IsSoundEntry u k) (sym e) h
  | inr change ↦ Changes-Sound change h
]

pub Calls-Sound :
    {u : Unicode} {d d' : Directory} (k : String)
    → Calls u d d'
    → IsSoundEntry u k (d k)
    → IsSoundEntry u k (d' k)
Calls-Sound k done h = h
Calls-Sound k (next cs c) h = Call-Sound k c (Calls-Sound k cs h)

-- From an empty directory, every result of version 2 that calls of the journal lead to is valid,
-- stands under its own operation, and was written at most 24 times: 21 times by checkpoints, and three
-- times by a coordinator that took the operation over.
pub Calls-IsSound :
    (u : Unicode) (d : Directory) (k : String) (r : UpdaterResultV2)
    → Calls u empty_directory d
    → d k ≡ some (v2_entry r)
    → Sound u k r × (r.sequence ≤ 24)
unfolding is_valid
Calls-IsSound u d k r cs e =
    let s : Sound u k r = subst (IsSoundEntry u k) e (Calls-Sound k cs tt) in
    (s, ground (arith, potential-le u r s.valid, s.valid, s.counted))
