-- ===== src/Diagnose/Samples.antt =====
-- A diagnosis with one hint, and the theorems about diagnoses applied to it.
use cicd_squabbler.Prelude.{
  ◌≡◌, refl, Option, none, some, [], ◌∷◌, Str, codes, str_eq, if◌then◌else◌,
}
use cicd_squabbler.Gate.{missing, failed, passed, new_check, Gate, unsatisfied}
use cicd_squabbler.Moves.{Move, flag_non_functional_gate, licence_policy_drift, needs_ground_truth}
use cicd_squabbler.Diagnose.{propose_for, diagnose_with_hints}

abbrev blocked_gate : Gate
blocked_gate = record {
  checks =
      new_check (codes "build") passed
      ∷ new_check (codes "Licence / SPDX") missing
      ∷ new_check (codes "baseline") failed
      ∷ [];
}

abbrev hints : Str → Option Move
hints c =
    if str_eq c (codes "baseline")
    then some (flag_non_functional_gate c (codes "main is red too"))
    else none

proposals :
    (diagnose_with_hints blocked_gate hints).proposed
    ≡ licence_policy_drift (codes "Licence / SPDX") needs_ground_truth
      ∷ flag_non_functional_gate (codes "baseline") (codes "main is red too")
      ∷ []
unfolding diagnose_with_hints unsatisfied propose_for str_eq
proposals = refl
