-- ===== src/Polarity.antt =====
-- crates/squabble-core/src/polarity.rs: whether a check that concluded `success` did its job. The
-- stub rate is an `f64`: its type `F` and the text that `{:.2}` gives it are parameters.
pub mod Verdicts
pub mod Signatures
mod Samples
use cicd_squabbler.Prelude.{
  ℕ, Bool, true, false, not, ◌&&◌, ◌||◌, Option, none, some, List, [], ◌∷◌, ◌++◌, all, any, is_nil,
  find?, is_some, if◌then◌else◌, Str, codes, str_eq, trim, mem, join, decimal, is_lit, or_else,
  unwrap_or,
}
use cicd_squabbler.Moves.{Move, escalate_to_expert, gate_triage, assess_confidence}

pub data StepConclusion : Type 0 where
  success skipped failure cancelled other : StepConclusion

-- `StepConclusion::parse`
unfoldable pub parse_conclusion : Option Str → StepConclusion
parse_conclusion raw =
    if is_lit raw "success"
    then success
    else if is_lit raw "skipped"
    then skipped
    else if is_lit raw "failure"
    then failure
    else if is_lit raw "cancelled"
    then cancelled
    else other

-- The derived `==`.
abbrev pub conclusion_eq : StepConclusion → StepConclusion → Bool
conclusion_eq success success = true
conclusion_eq skipped skipped = true
conclusion_eq failure failure = true
conclusion_eq cancelled cancelled = true
conclusion_eq other other = true
conclusion_eq _ _ = false

pub record StepOutcome : Type 0 where
  pub name : Str
  pub conclusion : StepConclusion

pub record VacuitySignature : Type 0 where
  pub skipped_steps : List Str
  pub success_steps : List Str

-- `VacuitySignature::is_usable`
unfoldable pub is_usable : VacuitySignature → Bool
is_usable sig = not (is_nil sig.skipped_steps) && not (is_nil sig.success_steps)

unfoldable pub step_concluded : List StepOutcome → Str → StepConclusion → Bool
step_concluded steps name want =
    any (λ s. str_eq (trim s.name) (trim name) && conclusion_eq s.conclusion want) steps

-- `VacuitySignature::matches`
unfoldable pub matches : VacuitySignature → List StepOutcome → Bool
unfolding is_usable
matches sig steps =
    is_usable sig
    && all (λ n. step_concluded steps n skipped) sig.skipped_steps
    && all (λ n. step_concluded steps n success) sig.success_steps

pub record ScannerSignature : Type 0 where
  pub scanner : Str
  pub signature : VacuitySignature

pub record SignatureSet : Type 0 where
  pub signatures : List ScannerSignature

-- `SignatureSet::is_usable`
unfoldable pub set_is_usable : SignatureSet → Bool
set_is_usable set = any (λ s. is_usable s.signature) set.signatures

-- `SignatureSet::matching`, `SignatureSet::matches`
unfoldable pub matching : SignatureSet → List StepOutcome → Option ScannerSignature
matching set steps = find? (λ s. matches s.signature steps) set.signatures

unfoldable pub set_matches : SignatureSet → List StepOutcome → Bool
unfolding matching
set_matches set steps = is_some (matching set steps)

pub record Applicability : Type 0 where
  pub runs_for_operator_types : List Str
  pub runs_on_channels : List Str

unfoldable pub is_undeclared : Applicability → Bool
is_undeclared a = is_nil a.runs_for_operator_types && is_nil a.runs_on_channels

pub record RepoDeclaration : Type 0 where
  pub operator_type : Option Str
  pub channel : Option Str

pub record Evidence (F : Type 0) : Type 0 where
  pub run_count : ℕ
  pub stub_rate : F
  pub upstream_exists : Option Bool
  pub target_tech_present : Option Bool

unfoldable pub tri : Option Bool → Str
tri (some true) = codes "true"
tri (some false) = codes "false"
tri none = codes "unmeasured"

pub data VacuityCause : Type 0 where
  stubbed_after_skipped_scan all_steps_skipped : VacuityCause

-- `VacuityCause::label`
unfoldable pub cause_label : VacuityCause → Str
cause_label stubbed_after_skipped_scan = codes "stubbed after a skipped scan"
cause_label all_steps_skipped = codes "every step skipped"

pub data Recommendation : Type 0 where
  recommend_removal fix_the_declaration make_it_great_in_practice : Recommendation

-- `Recommendation::label`
unfoldable pub recommendation_label : Recommendation → Str
recommendation_label recommend_removal = codes "recommend-removal"
recommendation_label fix_the_declaration = codes "fix-the-declaration"
recommendation_label make_it_great_in_practice = codes "make-it-great-in-practice"

-- The `match` of `Recommendation::from_evidence` on (target_tech_present, upstream_exists).
unfoldable pub recommend : Option Bool → Option Bool → Recommendation
recommend (some false) _ = recommend_removal
recommend _ (some false) = fix_the_declaration
recommend _ _ = make_it_great_in_practice

unfoldable pub from_evidence : {F : Type 0} → Evidence F → Recommendation
unfolding recommend
from_evidence e = recommend e.target_tech_present e.upstream_exists

pub data PolarityVerdict (F : Type 0) : Type 0 where
  genuine : PolarityVerdict F
  not_applicable : (declaration : Str) → PolarityVerdict F
  vacuous :
      (cause : VacuityCause) (recommendation : Recommendation) (evidence : Evidence F)
      → PolarityVerdict F

module _ {F : Type 0} (two_decimals : F → Str) where
  -- `Evidence::describe`
  unfoldable pub describe_evidence : Evidence F → Str
  unfolding tri
  describe_evidence e =
      codes "run-count="
      ++ decimal e.run_count
      ++ codes " stub-rate="
      ++ two_decimals e.stub_rate
      ++ codes " upstream-exists="
      ++ tri e.upstream_exists
      ++ codes " target-tech-present="
      ++ tri e.target_tech_present

  unfoldable pub to_move : PolarityVerdict F → Str → Option Move
  unfolding describe_evidence
  to_move (vacuous cause recommendation evidence) check = some (
      escalate_to_expert check gate_triage assess_confidence (
        codes "green but vacuous ("
        ++ cause_label cause
        ++ codes ") — "
        ++ describe_evidence evidence
        ++ codes " ["
        ++ recommendation_label recommendation
        ++ codes "]"))
  to_move _ check = none

unfoldable pub vacuity_cause : List StepOutcome → SignatureSet → Option VacuityCause
vacuity_cause steps signature =
    if set_matches signature steps
    then some stubbed_after_skipped_scan
    else if all (λ s. conclusion_eq s.conclusion skipped) steps
    then some all_steps_skipped
    else none

module _ {F : Type 0} where
  -- One axis of `applicability_verdict`: the repo declares a value that the gate's list lacks.
  abbrev contradicts : Str → List Str → Option Str → Option (PolarityVerdict F)
  contradicts key allowed none = none
  contradicts key allowed (some value) =
      if not (is_nil allowed) && not (mem value allowed)
      then some (
          not_applicable
            (key ++ value ++ codes " not in [" ++ join (codes ", ") allowed ++ codes "]"))
      else none

  unfoldable pub applicability_verdict :
      Applicability → RepoDeclaration → Option (PolarityVerdict F)
  unfolding is_undeclared
  applicability_verdict applicability declared =
      if is_undeclared applicability
      then none
      else or_else
          (contradicts (codes "@gitforge_OperatorType=") applicability.runs_for_operator_types
            declared.operator_type)
          (contradicts (codes "@channel=") applicability.runs_on_channels declared.channel)

  verdict_for : Option VacuityCause → Evidence F → PolarityVerdict F
  verdict_for none evidence = genuine
  verdict_for (some cause) evidence = vacuous cause (from_evidence evidence) evidence

  -- `classify` behind the applicability axis.
  classify_steps : List StepOutcome → SignatureSet → Evidence F → PolarityVerdict F
  unfolding vacuity_cause verdict_for
  classify_steps steps signature evidence =
      if is_nil steps then genuine else verdict_for (vacuity_cause steps signature) evidence

  unfoldable pub classify :
      List StepOutcome
      → SignatureSet
      → Applicability
      → RepoDeclaration
      → Evidence F
      → PolarityVerdict F
  unfolding classify_steps
  classify steps signature applicability declared evidence =
      unwrap_or (applicability_verdict applicability declared)
        (classify_steps steps signature evidence)
