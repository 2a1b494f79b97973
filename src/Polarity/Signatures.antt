-- ===== src/Polarity/Signatures.antt =====
-- What it takes for a scanner's signature to match a job's steps.
use cicd_squabbler.Prelude.{
  ◌≡◌, refl, ◌↔◌, ◌≢◌, Bool, true, false, List, [], ◌∷◌, ◌++◌, all, any, find?, is_some, All, Any,
  arith, Str, str_eq_iff, trim,
}
use cicd_squabbler.Polarity.{
  StepConclusion, success, skipped, failure, cancelled, other, conclusion_eq, StepOutcome,
  VacuitySignature, is_usable, step_concluded, matches, ScannerSignature, SignatureSet, set_matches,
}

pub conclusion_eq_iff : (a b : StepConclusion) → (conclusion_eq a b ≡ true) ↔ (a ≡ b)
conclusion_eq_iff success b = ground arith
conclusion_eq_iff skipped b = ground arith
conclusion_eq_iff failure b = ground arith
conclusion_eq_iff cancelled b = ground arith
conclusion_eq_iff other b = ground arith

-- A step of that name, blanks at the ends aside, concluded so.
abbrev pub Concluded : List StepOutcome → StepConclusion → Str → Type 0
Concluded steps want name = Any (λ s. (trim s.name ≡ trim name) × (s.conclusion ≡ want)) steps

pub step_concluded_iff :
    (steps : List StepOutcome) (name : Str) (want : StepConclusion)
    → (step_concluded steps name want ≡ true) ↔ Concluded steps want name
unfolding step_concluded
step_concluded_iff [] name want = (λ h. cc, λ h. absurd h)
step_concluded_iff (s ∷ steps) name want = ground (
  arith,
  str_eq_iff (trim s.name) (trim name),
  conclusion_eq_iff s.conclusion want,
  step_concluded_iff steps name want,
)

all-Concluded_iff :
    (steps : List StepOutcome) (want : StepConclusion) (names : List Str)
    → (all (λ n. step_concluded steps n want) names ≡ true) ↔ All (Concluded steps want) names
all-Concluded_iff steps want [] = (λ _. tt, λ _. refl)
all-Concluded_iff steps want (n ∷ names) =
    ground (arith, step_concluded_iff steps n want, all-Concluded_iff steps want names)

-- Both halves name a step, every step of the first half was skipped, and every step of the second
-- succeeded.
pub record Matches (steps : List StepOutcome) (sig : VacuitySignature) : Type 0 where
  pub some_skipped : sig.skipped_steps ≢ []
  pub some_success : sig.success_steps ≢ []
  pub all_skipped : All (Concluded steps skipped) sig.skipped_steps
  pub all_success : All (Concluded steps success) sig.success_steps

pub matches_iff :
    (sig : VacuitySignature) (steps : List StepOutcome)
    → (matches sig steps ≡ true) ↔ Matches steps sig
unfolding matches
matches_iff sig steps = ground (
  arith,
  all-Concluded_iff steps skipped sig.skipped_steps,
  all-Concluded_iff steps success sig.success_steps,
)

any-matches_iff :
    (steps : List StepOutcome) (sigs : List ScannerSignature)
    → (any (λ s. matches s.signature steps) sigs ≡ true) ↔ Any (λ s. Matches steps s.signature) sigs
any-matches_iff steps [] = (λ h. cc, λ h. absurd h)
any-matches_iff steps (s ∷ sigs) =
    ground (arith, matches_iff s.signature steps, any-matches_iff steps sigs)

is_some-find? : {A : Type 0} (p : A → Bool) (xs : List A) → is_some (find? p xs) ≡ any p xs
is_some-find? p [] = refl
is_some-find? p (x ∷ xs) = ground (arith, is_some-find? p xs)

-- A set of signatures matches exactly when one member's conjunction holds in full.
pub set_matches_iff :
    (set : SignatureSet) (steps : List StepOutcome)
    → (set_matches set steps ≡ true) ↔ Any (λ s. Matches steps s.signature) set.signatures
unfolding set_matches
set_matches_iff set steps =
    rw (is_some-find? (λ (s : ScannerSignature). matches s.signature steps) set.signatures)
      (any-matches_iff steps set.signatures)

-- A member that is not usable is inert: wherever it stands in a set, the set matches what it matches
-- without it.
pub set_matches-unusable :
    (before after : List ScannerSignature) (s : ScannerSignature) (steps : List StepOutcome)
    → is_usable s.signature ≡ false
    → set_matches (record { signatures = before ++ s ∷ after }) steps
      ≡ set_matches (record { signatures = before ++ after }) steps
unfolding set_matches matches
set_matches-unusable [] after s steps h = rw h
set_matches-unusable (b ∷ before) after s steps h =
    ground (arith, set_matches-unusable before after s steps h)
