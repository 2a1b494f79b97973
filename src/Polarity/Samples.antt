-- ===== src/Polarity/Samples.antt =====
-- A stubbed job and one scanner's signature, and the theorems about polarity applied to them. The
-- stub rate is a number of hundredths.
use cicd_squabbler.Prelude.{
  ℕ, ◌≡◌, refl, ◌↔◌, none, some, true, false, List, [], ◌∷◌, Str, codes, str_eq, trim,
}
use cicd_squabbler.Polarity.{
  StepConclusion, success, skipped, StepOutcome, step_concluded, matches, ScannerSignature,
  SignatureSet, set_matches, Applicability, RepoDeclaration, Evidence, vacuous,
  stubbed_after_skipped_scan, recommend_removal, make_it_great_in_practice, from_evidence, classify,
  vacuity_cause, applicability_verdict,
}
use cicd_squabbler.Polarity.Verdicts.{
  is_vacuous, is_not_applicable, IsInapplicable, IsHollow, classify_iff, classify-removal_iff,
}

abbrev ran : Str → StepConclusion → StepOutcome
ran name conclusion = record { name = name; conclusion = conclusion }

abbrev stubbed : List StepOutcome
stubbed =
    ran (codes "Set up job") success
    ∷ ran (codes "Run scan ") skipped
    ∷ ran (codes "Write empty findings") success
    ∷ []

abbrev scanner : ScannerSignature
scanner = record {
  scanner = codes "scan";
  signature = record {
    skipped_steps = codes "Run scan" ∷ [];
    success_steps = codes "Write empty findings" ∷ [];
  };
}

abbrev fumbled : ScannerSignature
fumbled = record {
  scanner = codes "half";
  signature = record { skipped_steps = codes "Run scan" ∷ []; success_steps = [] };
}

abbrev set : SignatureSet
set = record { signatures = scanner ∷ [] }

abbrev undeclared : Applicability
undeclared = record { runs_for_operator_types = []; runs_on_channels = [] }

abbrev silent : RepoDeclaration
silent = record { operator_type = none; channel = none }

abbrev evidence : Evidence ℕ
evidence = record {
  run_count = 1;
  stub_rate = 100;
  upstream_exists = none;
  target_tech_present = none;
}

stubbed-vacuous :
    classify stubbed set undeclared silent evidence
    ≡ vacuous stubbed_after_skipped_scan make_it_great_in_practice evidence
unfolding classify vacuity_cause applicability_verdict set_matches matches step_concluded trim
    str_eq from_evidence
stubbed-vacuous = refl

classify_iff_example :
    ((is_not_applicable (classify stubbed set undeclared silent evidence) ≡ true)
      ↔ IsInapplicable undeclared silent)
    × ((is_vacuous (classify stubbed set undeclared silent evidence) ≡ true)
        ↔ ((¬ IsInapplicable undeclared silent) × IsHollow stubbed set))
classify_iff_example = classify_iff stubbed set undeclared silent evidence

classify-removal_iff_example :
    (evidence ≡ evidence)
    × ((make_it_great_in_practice ≡ recommend_removal)
        ↔ (evidence.target_tech_present ≡ some false))
classify-removal_iff_example =
    classify-removal_iff stubbed set undeclared silent evidence evidence stubbed_after_skipped_scan
      make_it_great_in_practice stubbed-vacuous
