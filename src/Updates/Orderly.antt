-- ===== src/Updates/Orderly.antt =====
-- What holds of the operations on record between two transactions.
use media_sync.Prelude.{◌≡◌, true, [], arith}
use media_sync.Updates.Model.{Operations}
use media_sync.Updates.Repository.{new_operation}
use media_sync.Updates.System.{
  active_count, fits, IsOrderly, no-active, active_count-append, All-append, Write-IsOrderly,
  finish-effect, transition-effect, set_target-effect, create-effect, UpdateStep, creates, finishes,
  transitions, verifies, UpdateReach, start, onward, fitting-found,
}

abbrev pub no_operations : Operations
no_operations = record { rows = []; next_id = 1 }

Step-IsOrderly : (s s' : Operations) → UpdateStep s s' → IsOrderly s → IsOrderly s'
unfolding active_count
Step-IsOrderly s s' (creates a now o h) v =
    let (rows, under_way, free) = create-effect a now o s s' h in
    let new = new_operation a now s.next_id in
    record {
      single = rw rows (omega (arith, no-active s.rows free, active_count-append s.rows new));
      fitting =
          rw rows
            (All-append (λ o. fits o ≡ true) s.rows new v.fitting (ground (arith, under_way)));
    }
Step-IsOrderly s s' (finishes i status at code message now h) v =
    let (w, over, _) = finish-effect i status at code message now s s' h in
    Write-IsOrderly _ i s s' w (ground (arith, over)) v
Step-IsOrderly s s' (transitions i status h) v =
    let (w, under_way, _) = transition-effect i status s s' h in
    let good = fitting-found i s.rows w.old v.fitting w.found in
    Write-IsOrderly _ i s s' w (ground (arith, under_way, good, w.active)) v
Step-IsOrderly s s' (verifies i version digest h) v =
    let (w, _, _, _) = set_target-effect i version digest s s' h in
    let good = fitting-found i s.rows w.old v.fitting w.found in
    Write-IsOrderly _ i s s' w (ground (arith, good, w.active)) v

-- Whatever calls of the repository follow one another from an empty table, at most one operation
-- holds the global slot, and an operation holds it exactly while its status is not terminal and its
-- completed_at is empty.
pub Reach-IsOrderly : (s : Operations) → UpdateReach no_operations s → IsOrderly s
unfolding active_count
Reach-IsOrderly s start = record { single = omega arith; fitting = tt }
Reach-IsOrderly s (onward {t = t} r step) = Step-IsOrderly t s step (Reach-IsOrderly t r)
