-- ===== src/Polarity/Verdicts.antt =====
-- What the three verdicts on a green check mean.
use cicd_squabbler.Prelude.{
  ◌≡◌, refl, ◌↔◌, ◌⊎◌, ◌≢◌, inl, Bool, true, false, Option, none, some, List, [], ◌∷◌, all, All,
  Any, In, arith, Str, codes, mem_iff,
}
use cicd_squabbler.Polarity.{
  skipped, conclusion_eq, StepOutcome, SignatureSet, Applicability, is_undeclared, RepoDeclaration,
  Evidence, VacuityCause, Recommendation, recommend_removal, from_evidence, PolarityVerdict,
  not_applicable, vacuous, contradicts, applicability_verdict, classify_steps, classify,
}
use cicd_squabbler.Polarity.Signatures.{conclusion_eq_iff, Matches, set_matches_iff}

-- The repo declares a value, and the gate's declared list lacks it.
abbrev pub Contradicts : List Str → Option Str → Type 0
Contradicts allowed none = ⊥
Contradicts allowed (some value) = (allowed ≢ []) × (¬ In value allowed)

abbrev pub IsInapplicable : Applicability → RepoDeclaration → Type 0
IsInapplicable a d =
    Contradicts a.runs_for_operator_types d.operator_type ⊎ Contradicts a.runs_on_channels d.channel

-- The job recorded steps, and they either match a scanner's signature or were all skipped.
abbrev pub IsHollow : List StepOutcome → SignatureSet → Type 0
IsHollow steps set =
    (steps ≢ [])
    × (Any (λ s. Matches steps s.signature) set.signatures
        ⊎ All (λ s. s.conclusion ≡ skipped) steps)

module _ {F : Type 0} where
  abbrev pub is_vacuous : PolarityVerdict F → Bool
  is_vacuous (vacuous _ _ _) = true
  is_vacuous _ = false

  abbrev pub is_not_applicable : PolarityVerdict F → Bool
  is_not_applicable (not_applicable _) = true
  is_not_applicable _ = false

  abbrev excluded : Option (PolarityVerdict F) → Bool
  excluded none = false
  excluded (some v) = is_not_applicable v

all-skipped_iff :
    (steps : List StepOutcome)
    → (all (λ s. conclusion_eq s.conclusion skipped) steps ≡ true)
      ↔ All (λ s. s.conclusion ≡ skipped) steps
all-skipped_iff [] = (λ _. tt, λ _. refl)
all-skipped_iff (s ∷ steps) =
    ground (arith, conclusion_eq_iff s.conclusion skipped, all-skipped_iff steps)

undeclared-applies :
    (a : Applicability) (d : RepoDeclaration) → is_undeclared a ≡ true → ¬ IsInapplicable a d
unfolding is_undeclared
undeclared-applies a d h = ground (arith, applies d.operator_type, applies d.channel)
  where
    applies : (value : Option Str) → ¬ Contradicts [] value
    applies none c = c
    applies (some v) c = c.0 refl

module _ {F : Type 0} where
  -- Either there is no objection, or the verdict is that the gate does not apply.
  abbrev Objects : Type 0 → Option (PolarityVerdict F) → Type 0
  Objects P o = ((o ≡ none) × (¬ P)) ⊎ ((excluded o ≡ true) × P)

  contradicts-Objects :
      (key : Str) (allowed : List Str) (value : Option Str)
      → Objects (Contradicts allowed value) (contradicts key allowed value)
  contradicts-Objects key allowed none = inl (refl, λ h. h)
  contradicts-Objects key allowed (some v) = ground (arith, mem_iff v allowed)

  applicability-Objects :
      (a : Applicability) (d : RepoDeclaration)
      → Objects (IsInapplicable a d) (applicability_verdict a d)
  unfolding applicability_verdict
  applicability-Objects a d = ground (
    arith,
    undeclared-applies a d,
    contradicts-Objects (codes "@gitforge_OperatorType=") a.runs_for_operator_types d.operator_type,
    contradicts-Objects (codes "@channel=") a.runs_on_channels d.channel,
  )

  steps-vacuous_iff :
      (steps : List StepOutcome) (set : SignatureSet) (e : Evidence F)
      → (is_vacuous (classify_steps steps set e) ≡ true) ↔ IsHollow steps set
  unfolding classify_steps
  steps-vacuous_iff steps set e = ground (arith, set_matches_iff set steps, all-skipped_iff steps)

  steps-applicable :
      (steps : List StepOutcome) (set : SignatureSet) (e : Evidence F)
      → is_not_applicable (classify_steps steps set e) ≡ false
  unfolding classify_steps
  steps-applicable steps set e = ground arith

  -- A green check is called inapplicable exactly when the repo declares an operator type or a channel
  -- that the gate's non-empty list lacks. It is called vacuous exactly when it is not inapplicable,
  -- the job recorded steps, and the steps match some scanner's signature in full or were all skipped.
  pub classify_iff :
      (steps : List StepOutcome) (set : SignatureSet) (a : Applicability) (d : RepoDeclaration)
      (e : Evidence F)
      → ((is_not_applicable (classify steps set a d e) ≡ true) ↔ IsInapplicable a d)
        × ((is_vacuous (classify steps set a d e) ≡ true)
            ↔ ((¬ IsInapplicable a d) × IsHollow steps set))
  unfolding classify
  classify_iff steps set a d e = ground (
    arith,
    applicability-Objects a d,
    steps-vacuous_iff steps set e,
    steps-applicable steps set e,
  )

  steps-evidence :
      (steps : List StepOutcome) (set : SignatureSet) (e e' : Evidence F) {c : VacuityCause}
      {r : Recommendation}
      → classify_steps steps set e ≡ vacuous c r e'
      → (e' ≡ e) × (r ≡ from_evidence e)
  unfolding classify_steps
  steps-evidence steps set e e' h = ground arith

  -- A vacuous verdict carries the evidence that it was given, and recommends removal exactly when the
  -- gate's technology was measured and found absent: neither the stub rate, nor the number of runs,
  -- nor an unmeasured fact can recommend it.
  pub classify-removal_iff :
      (steps : List StepOutcome) (set : SignatureSet) (a : Applicability) (d : RepoDeclaration)
      (e e' : Evidence F) (c : VacuityCause) (r : Recommendation)
      → classify steps set a d e ≡ vacuous c r e'
      → (e' ≡ e) × ((r ≡ recommend_removal) ↔ (e.target_tech_present ≡ some false))
  unfolding classify from_evidence
  classify-removal_iff steps set a d e e' c r h =
      ground (arith, applicability-Objects a d, steps-evidence steps set e e')
