-- ===== src/Updates/Recovery/Examples.antt =====
-- The theorems on recovery applied to an interrupted switch.
use media_sync.Prelude.{◌≡◌, refl, true, false, none, some}
use media_sync.Updates.Recovery.{
  switching, v2, matched, missing, ContainerIdentityObservation, DockerRecoveryObservation,
  begin_rollback, decide_recovery,
}
use media_sync.Updates.Recovery.Justified.{
  Justified, switched, is_clear, decide_recovery-Justified, decide_recovery_complete,
}

abbrev known_container : ContainerIdentityObservation
known_container = record {
  status = matched;
  container_id = some "c0ffee";
  running = some false;
  reason_code = none;
}

abbrev no_candidate : ContainerIdentityObservation
no_candidate = record {
  status = missing;
  container_id = none;
  running = none;
  reason_code = some "candidate_missing";
}

abbrev after_crash : DockerRecoveryObservation
after_crash = record {
  source = known_container;
  candidate = no_candidate;
  coordinator = known_container;
}

rolls_back : (decide_recovery (some (v2 switching)) after_crash).automatic ≡ true
unfolding decide_recovery
rolls_back = refl

decide_recovery-Justified_example :
    (is_clear after_crash ≡ true)
    × Justified after_crash
        (some (v2 switching))
        (decide_recovery (some (v2 switching)) after_crash).action
decide_recovery-Justified_example =
    decide_recovery-Justified (some (v2 switching)) after_crash rolls_back

decide_recovery_complete_example :
    ((decide_recovery (some (v2 switching)) after_crash).automatic ≡ true)
    × ((decide_recovery (some (v2 switching)) after_crash).action ≡ begin_rollback)
decide_recovery_complete_example =
    decide_recovery_complete (some (v2 switching)) after_crash begin_rollback refl (switched refl)
