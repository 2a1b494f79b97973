-- ===== src/Execution/Samples.antt =====
-- Jobs that stopped in different places, and the theorems about classes applied to them.
use cicd_squabbler.Prelude.{◌≡◌, refl, some, List, [], ◌∷◌, Str, codes, str_eq, trim, mem, arith}
use cicd_squabbler.Gate.{failed, passed}
use cicd_squabbler.Polarity.{StepConclusion, success, failure, StepOutcome}
use cicd_squabbler.Execution.{
  PhaseSignatures, is_setup, is_prerequisite, is_post, is_policy_step, preflight_failed, verified,
  unclassified, failure_outside_policy_step, classify, handoff, provisioning,
}
use cicd_squabbler.Execution.Classes.{Explains, classify-Explains}

abbrev ran : Str → StepConclusion → StepOutcome
ran name conclusion = record { name = name; conclusion = conclusion }

abbrev signatures : PhaseSignatures
signatures = record {
  setup_steps = codes "Install Rust" ∷ [];
  prerequisite_steps = codes "Check token" ∷ [];
}

-- The setup failure stands behind the policy failure and still decides.
abbrev died : List StepOutcome
died = ran (codes "Cargo test") failure ∷ ran (codes " Install Rust") failure ∷ []

abbrev well : List StepOutcome
well =
    ran (codes "Set up job") success
    ∷ ran (codes "Cargo test") success
    ∷ ran (codes "Post job") success
    ∷ []

steps_opened : Unit {0}
unfolding classify is_policy_step is_setup is_prerequisite is_post trim str_eq mem
steps_opened = tt

classify-died : classify (some failed) died signatures ≡ preflight_failed (codes " Install Rust")
unfolding steps_opened
classify-died = refl

classify-well : classify (some passed) well signatures ≡ verified (codes "Cargo test")
unfolding steps_opened
classify-well = refl

classify-post :
    classify (some failed) (ran (codes "Post job") failure ∷ []) signatures
    ≡ unclassified failure_outside_policy_step
unfolding steps_opened
classify-post = refl

handoff-died : handoff (preflight_failed (codes "Install Rust")) ≡ provisioning
unfolding handoff
handoff-died = refl

classify-Explains_example : Explains signatures failed died (classify (some failed) died signatures)
classify-Explains_example = classify-Explains failed died signatures (ground arith) (ground arith)
