-- ===== src/Updater/Machine/Tracks.antt =====
-- A computation that ends by recording a checkpoint: the journal then holds the result it returns,
-- which advances the result that the journal held before.
use media_sync.Prelude.{
  String, ◌≡◌, refl, sym, ap, ◌∙◌, subst, Bool, true, some, if◌then◌else◌, text_eq, text_eq_refl,
}
use media_sync.Updater.Text.{Unicode}
use media_sync.Updater.Errors.{Result, ok, err}
use media_sync.Updater.Checkpoint.{is_rollback}
use media_sync.Updater.Journal.Model.{UpdaterResultV2, is_valid}
use media_sync.Updater.Journal.{
  Entry, v2_entry, Directory, write, CheckpointArgs, advanced, checkpoint_v2,
}
use media_sync.Updater.Journal.Inversion.{read_v2_inv, checkpoint_v2_inv}
use media_sync.Updater.Journal.Advance.{Advances, check_advance_inv}
use media_sync.Updater.Machine.{
  Collaborators, World, M, proceed, ◌>>=◌, ◌>>◌, return, lift, commit, journal_call,
  write_checkpoint,
}
use media_sync.Updater.Machine.Keeps.{Keeps, IsPreorder, IsFrame}

pub same_entry : (c r : UpdaterResultV2) → some (v2_entry c) ≡ some (v2_entry r) → c ≡ r
same_entry c r h = cc

pub write_same : (k key : String) (e : Entry) (d : Directory) → key ≡ k → write key e d k ≡ some e
write_same k key e d h = ap (λ b. if b then some e else d k) (ap (text_eq k) h ∙ text_eq_refl k)

module _ {D : Type 0} where
  proceed_inv :
      {A B : Type 0} (p : Result A × World D) (f : A → M D B) {b : B} {w' : World D}
      → proceed p f ≡ (ok b, w')
      → (a : A) × (w : World D) × (p ≡ (ok a, w)) × (f a w ≡ (ok b, w'))
  proceed_inv (ok a, w) f h = (a, w, refl, h)
  proceed_inv (err e, w) f h = cc

  -- What the first part of a computation did that ended with a result.
  pub bind_done :
      {A B : Type 0} (m : M D A) (f : A → M D B) (w : World D) {b : B} {w' : World D}
      → (m >>= f) w ≡ (ok b, w')
      → (a : A) × (v : World D) × (m w ≡ (ok a, v)) × (f a v ≡ (ok b, w'))
  bind_done m f w h = proceed_inv (m w) f h

  pub then_done :
      {B : Type 0} (m : M D (Unit {0})) (k : M D B) (w : World D) {b : B} {w' : World D}
      → (m >> k) w ≡ (ok b, w')
      → (v : World D) × (m w ≡ (ok tt, v)) × (k v ≡ (ok b, w'))
  then_done m k w h = let (a, v, p, q) = proceed_inv (m w) (λ _. k) h in (v, p, q)

  commit_inv :
      {A : Type 0} (w : World D) (p : Result (A × Directory)) {a : A} {w' : World D}
      → commit w p ≡ (ok a, w')
      → (d : Directory) × (p ≡ ok (a, d)) × (w' ≡ record w { journal = d })
  commit_inv w (ok (a, d)) h = (d, cc, cc)
  commit_inv w (err e) h = cc

  pub journal_call_done :
      {A : Type 0} (f : Directory → Result (A × Directory)) (w : World D) {a : A} {w' : World D}
      → journal_call f w ≡ (ok a, w')
      → (d : Directory) × (f w.journal ≡ ok (a, d)) × (w' ≡ record w { journal = d })
  journal_call_done f w h = commit_inv w (f w.journal) h

  pub lift_done :
      {A : Type 0} (r : Result A) (w : World D) {a : A} {w' : World D}
      → lift r w ≡ (ok a, w')
      → (r ≡ ok a) × (w' ≡ w)
  lift_done r w h = (cc, cc)

  -- The journal has this result for the operation.
  abbrev pub Tracks : String → World D → UpdaterResultV2 → Type 0
  Tracks k w r = w.journal k ≡ some (v2_entry r)

  abbrev pub SameJournal : World D → World D → Type 0
  SameJournal w w' = w'.journal ≡ w.journal

  pub SameJournal-IsPreorder : IsPreorder SameJournal
  SameJournal-IsPreorder = record { stay = λ w. refl; chain = λ v w x p q. q ∙ p }

  -- No effect on the outside touches the journal.
  pub SameJournal-IsFrame : (env : Collaborators D) → IsFrame env SameJournal
  SameJournal-IsFrame env = record {
    order = SameJournal-IsPreorder;
    policy = λ id p w. refl;
    stop = λ id n w. refl;
    wait = λ id w. refl;
    rename = λ id name w. refl;
    create = λ name c w. refl;
    start = λ id w. refl;
    snapshot = λ k w. refl;
    check = λ k w. refl;
    restore = λ k w. refl;
    verify = λ document p id w. refl;
    verify_old = λ document id w. refl;
    commit = λ k w. refl;
    unlink = λ k w. refl;
    prepare = λ document w. refl;
  }

  -- What a step from the result `r` leaves in the journal.
  pub record Stepped (u : Unicode) (k : String) (r r' : UpdaterResultV2) (w' : World D)
      : Type 0 where
    pub tracks : Tracks k w' r'
    pub valid_before : is_valid u r ≡ true
    pub valid : is_valid u r' ≡ true
    pub advances : Advances r r'

  -- A computation that steps from `r`, to a checkpoint of the given direction.
  pub record Steps (u : Unicode) (k : String) (r : UpdaterResultV2) (back : Bool)
      (m : M D UpdaterResultV2) : Type 0 where
    pub step :
        (w w' : World D) (r' : UpdaterResultV2)
        → Tracks k w r
        → m w ≡ (ok r', w')
        → Stepped u k r r' w' × (is_rollback r'.checkpoint ≡ back)

  keeps_track :
      {A : Type 0} {k : String} {r : UpdaterResultV2} (m : M D A) (w : World D) {a : A}
      {v : World D}
      → Keeps SameJournal m
      → m w ≡ (ok a, v)
      → Tracks k w r
      → Tracks k v r
  keeps_track {k = k} m w h e t =
      ap (λ (x : World D). x.journal k) (sym (ap (λ (p : Result _ × World D). p.1) e))
      ∙ ap (λ (d : Directory). d k) (h w)
      ∙ t

  pub bind-Steps :
      {A : Type 0} {u : Unicode} {k : String} {r : UpdaterResultV2} {back : Bool} (m : M D A)
      (f : A → M D UpdaterResultV2)
      → Keeps SameJournal m
      → ((a : A) → Steps u k r back (f a))
      → Steps u k r back (m >>= f)
  bind-Steps m f h g = record {
    step = λ w w' r' t e.
        let (a, v, p, q) = bind_done m f w e in (g a).step v w' r' (keeps_track m w h p t) q;
  }

  pub then-Steps :
      {u : Unicode} {k : String} {r : UpdaterResultV2} {back : Bool} (m : M D (Unit {0}))
      (n : M D UpdaterResultV2)
      → Keeps SameJournal m
      → Steps u k r back n
      → Steps u k r back (m >> n)
  then-Steps m n h g = record {
    step = λ w w' r' t e.
        let (v, p, q) = then_done m n w e in g.step v w' r' (keeps_track m w h p t) q;
  }

  -- A hook after the step.
  pub Steps-hook :
      {u : Unicode} {k : String} {r : UpdaterResultV2} {back : Bool} (m : M D UpdaterResultV2)
      (e : Result (Unit {0}))
      → Steps u k r back m
      → Steps u k r back (m >>= λ x. (lift e >> return x))
  Steps-hook m e g = record {
    step = λ w w' r' t h.
        let (a, v, p, q) = bind_done m (λ x. (lift e >> return x)) w h in
        let (v', p', q') = then_done (lift e) (return a) v q in
        let (_, same) = lift_done e v p' in
        let end : (a ≡ r') × (v' ≡ w') = (cc, cc) in
        rw (sym end.0, sym end.1, same) (g.step w v a t p);
  }

  -- A write of a checkpoint.
  pub write-Steps :
      (env : Collaborators D) (k : String) (r : UpdaterResultV2) (a : CheckpointArgs)
      → Steps env.unicode k r (is_rollback a.checkpoint) (write_checkpoint env k a)
  unfolding write_checkpoint advanced
  write-Steps env k r a = record {
    step = λ w w' r' t h.
        let (d, e, after) =
          journal_call_done (checkpoint_v2 env.unicode k a (env.now w.outside)) w h in
        let (c, found, passed, same, wrote) =
          checkpoint_v2_inv env.unicode w.journal k a (env.now w.outside) e in
        let (there, valid, named) = read_v2_inv env.unicode k w.journal c found in
        let before : c ≡ r = same_entry c r (sym there ∙ t) in
        let step : Advances c r' =
          subst (Advances c) (sym same)
            (check_advance_inv env.unicode c a (env.now w.outside) passed) in
        (
          record {
            tracks =
                ap (λ (x : World D). x.journal k) after
                ∙ ap (λ (x : Directory). x k) wrote.written
                ∙ write_same k r'.operation_id (v2_entry r') w.journal
                    (step.same.operation ∙ named);
            valid_before = subst (λ x. is_valid env.unicode x ≡ true) before valid;
            valid = wrote.valid;
            advances = subst (λ x. Advances x r') before step;
          },
          ap (λ (x : UpdaterResultV2). is_rollback x.checkpoint) same,
        );
  }
