-- ===== src/Diagnose.antt =====
-- crates/squabble-core/src/lib.rs: what the engine proposes for a gate. A `HashMap` of hints is the
-- function that its `get` computes.
pub mod Proposals
mod Samples
use cicd_squabbler.Prelude.{
  ◌||◌, Option, List, ◌++◌, map, Str, codes, contains, to_ascii_lowercase, if◌then◌else◌, unwrap_or,
}
use cicd_squabbler.Gate.{RequiredCheck, Gate, GateState, evaluate, unsatisfied}
use cicd_squabbler.Moves.{Move, licence_policy_drift, needs_ground_truth, ground_truth_check_names}

pub record Diagnosis : Type 0 where
  pub state : GateState
  pub proposed : List Move

unfoldable pub propose_for : Str → Move
unfolding contains to_ascii_lowercase
propose_for required_context =
    let lc = to_ascii_lowercase required_context in
    if contains lc (codes "licence")
      || contains lc (codes "license")
      || contains lc (codes "spdx")
      || contains lc (codes "reuse")
    then licence_policy_drift required_context needs_ground_truth
    else ground_truth_check_names (codes "(emitting `" ++ required_context ++ codes "`)")

unfoldable pub diagnose : Gate → Diagnosis
diagnose gate = record {
  state = evaluate gate;
  proposed = map (λ c. propose_for c.required_context) (unsatisfied gate);
}

-- The map's answer for the context, or the default move.
abbrev pub hinted : (Str → Option Move) → RequiredCheck → Move
hinted hints c = unwrap_or (hints c.required_context) (propose_for c.required_context)

unfoldable pub diagnose_with_hints : Gate → (Str → Option Move) → Diagnosis
diagnose_with_hints gate hints = record {
  state = evaluate gate;
  proposed = map (hinted hints) (unsatisfied gate);
}
