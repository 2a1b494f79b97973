-- ===== src/Outcome/Samples.antt =====
-- An escalation, an assignment, and the theorems about what a report shows applied to them.
use cicd_squabbler.Prelude.{ℕ, none, codes}
use cicd_squabbler.Moves.{Move, escalate_to_expert, gate_triage, assess_confidence, ownerless}
use cicd_squabbler.Polarity.{PolarityVerdict, vacuous, all_steps_skipped, make_it_great_in_practice}
use cicd_squabbler.Outcome.{Escalation, OwnerAssignment}

abbrev hand_off : Move
hand_off = escalate_to_expert (codes "lint") gate_triage assess_confidence (codes "red")

abbrev shown : Escalation
shown = record {
  check = codes "lint";
  group = gate_triage;
  obligation = assess_confidence;
  evidence = codes "red";
}

abbrev owned : OwnerAssignment
owned = record {
  check = codes "gov";
  owner = codes "octo";
  disposition = ownerless;
  rationale = codes "shared";
}

abbrev hollow : PolarityVerdict ℕ
hollow =
    vacuous all_steps_skipped make_it_great_in_practice
      (record { run_count = 3; stub_rate = 0; upstream_exists = none; target_tech_present = none })
