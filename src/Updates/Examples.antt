-- ===== src/Updates/Examples.antt =====
-- The theorems of the updates applied to one operation from its beginning to its end.
use media_sync.Prelude.{◌≡◌, refl, true, none, some, [], ◌∷◌, ◌⊎◌, ◌↔◌, inr}
use media_sync.Updates.Model.{draining, handoff, failed, UpdateOperation, Operations}
use media_sync.Updates.Repository.{
  find_operation, CreateArgs, new_operation, create, finish_operation, finish, move_operation,
  transition_active,
}
use media_sync.Updates.System.{
  IsOrderly, creates, finishes, transitions, UpdateReach, start, onward,
}
use media_sync.Updates.Orderly.{no_operations, Reach-IsOrderly}
use media_sync.Updates.History.{Advances, Later, Step-Later, Reach-Advances}
use media_sync.Updates.Gate.{no_marker, is_marked, evaluate, Gates, Names, evaluate-blocked}
use media_sync.Updates.Model.{is_over}
use media_sync.Updates.Model.{can_update}
use media_sync.Updates.Repository.{put_operation}

abbrev update_args : CreateArgs
update_args = record {
  source_version = "1.0.0";
  status = draining;
  target_version = some "1.1.0";
  target_digest = none;
  operation_id = none;
  drawn = "operation-a";
}

abbrev drained : UpdateOperation
drained = new_operation update_args 10 1

abbrev handed_off : UpdateOperation
handed_off = move_operation handoff drained

abbrev gave_up : UpdateOperation
gave_up = finish_operation failed 30 (some "HANDOFF_FAILED") none handed_off

abbrev at_start : Operations
at_start = record { rows = drained ∷ []; next_id = 2 }

abbrev at_handoff : Operations
at_handoff = record { rows = handed_off ∷ []; next_id = 2 }

abbrev at_end : Operations
at_end = record { rows = gave_up ∷ []; next_id = 2 }

created : create update_args 10 no_operations ≡ inr (drained, at_start)
unfolding create is_over
created = refl

moved : transition_active 1 handoff at_start ≡ inr at_handoff
unfolding transition_active find_operation is_over can_update put_operation
moved = refl

ended : finish 1 failed none (some "HANDOFF_FAILED") none 30 at_handoff ≡ inr at_end
unfolding finish find_operation is_over can_update put_operation
ended = refl

whole_life : UpdateReach no_operations at_end
whole_life =
    onward
      (onward (onward start (creates update_args 10 drained created)) (transitions 1 handoff moved))
      (finishes 1 failed none (some "HANDOFF_FAILED") none 30 ended)

Reach-IsOrderly_example : IsOrderly at_end
Reach-IsOrderly_example = Reach-IsOrderly at_end whole_life

handed_off-found : find_operation 1 at_handoff.rows ≡ some handed_off
unfolding find_operation
handed_off-found = refl

Step-Later_example : Later handed_off 1 at_end
Step-Later_example =
    Step-Later at_handoff at_end 1 handed_off
      (finishes 1 failed none (some "HANDOFF_FAILED") none 30 ended) handed_off-found

drained-found : find_operation 1 at_start.rows ≡ some drained
unfolding find_operation
drained-found = refl

Reach-Advances_example :
    (p : UpdateOperation) × (find_operation 1 at_end.rows ≡ some p) × Advances drained p
Reach-Advances_example =
    Reach-Advances 1 drained
      (onward (onward start (transitions 1 handoff moved))
        (finishes 1 failed none (some "HANDOFF_FAILED") none 30 ended))
      drained-found

at_start-IsOrderly : IsOrderly at_start
at_start-IsOrderly =
    Reach-IsOrderly at_start (onward start (creates update_args 10 drained created))

evaluate-blocked_example :
    (((evaluate no_marker at_start.rows).blocked ≡ true)
      ↔ ((is_marked no_marker ≡ true) ⊎ Gates at_start.rows))
    × (((evaluate no_marker at_start.rows).mode ≡ "candidate_validation")
        ↔ Names no_marker at_start.rows)
evaluate-blocked_example = evaluate-blocked no_marker at_start at_start-IsOrderly
