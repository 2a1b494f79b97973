-- ===== src/Gate/Samples.antt =====
-- Small gates, and the theorems about gates applied to them.
use cicd_squabbler.Prelude.{◌≡◌, refl, ◌↔◌, ◌≢◌, some, [], ◌∷◌, All, Any, codes, str_eq, arith}
use cicd_squabbler.Gate.{
  missing, failed, skipped, passed, from_github, for_context, new_check, Gate, blocked, red, green,
  evaluate, with_cause, remedy, dead_action_pin, cause_remedy,
}
use cicd_squabbler.Gate.States.{Accepted, Failed, evaluate-green_iff, evaluate-red_iff}
use cicd_squabbler.Gate.Runs.{for_context-order, SameRuns}

abbrev stuck : Gate
stuck = record {
  checks =
      new_check (codes "build") passed
      ∷ new_check (codes "scan / gitleaks") missing
      ∷ new_check (codes "test") failed
      ∷ new_check (codes "docs") skipped
      ∷ [];
}

stuck-red : evaluate stuck ≡ red
unfolding evaluate
stuck-red = refl

evaluate-empty : evaluate (record { checks = [] }) ≡ blocked
unfolding evaluate
evaluate-empty = refl

for_context-masked : for_context (passed ∷ failed ∷ passed ∷ []) ≡ failed
unfolding for_context
for_context-masked = refl

from_github-unknown : from_github (some (codes "COMPLETED")) (some (codes "STALE")) ≡ failed
unfolding from_github str_eq
from_github-unknown = refl

remedy-dead_pin :
    remedy (with_cause (new_check (codes "a2ml") missing) dead_action_pin)
    ≡ some (cause_remedy dead_action_pin)
unfolding remedy with_cause
remedy-dead_pin = refl

evaluate-green_iff_example :
    (evaluate stuck ≡ green) ↔ ((stuck.checks ≢ []) × All Accepted stuck.checks)
evaluate-green_iff_example = evaluate-green_iff stuck

evaluate-red_iff_example : (evaluate stuck ≡ red) ↔ Any Failed stuck.checks
evaluate-red_iff_example = evaluate-red_iff stuck

twins : SameRuns (passed ∷ failed ∷ []) (failed ∷ passed ∷ failed ∷ [])
twins r = ground arith

for_context-order_example :
    for_context (passed ∷ failed ∷ []) ≡ for_context (failed ∷ passed ∷ failed ∷ [])
for_context-order_example =
    for_context-order (passed ∷ failed ∷ []) (failed ∷ passed ∷ failed ∷ []) twins
