-- ===== src/Workflows/Samples.antt =====
-- A lint workflow with a path filter, a posture of selected actions, and the theorems about reading
-- and classifying workflows applied to them.
use cicd_squabbler.Prelude.{
  split, rsplit_once, starts_with, trim_end_matches, trim_matches, mem, trim_end, trim_start,
  split_whitespace, trim, is_whitespace, strip_prefix, ◌≡◌, refl, ◌↔◌, true, false, Option, none,
  some, [], ◌∷◌, All, Str, codes, str_eq,
}
use cicd_squabbler.Gate.{missing, new_check}
use cicd_squabbler.Moves.{inject_path_filter_pass_through}
use cicd_squabbler.Workflows.{WorkflowInfo, hygiene, ActionsPolicyFacts, classify_found}
use cicd_squabbler.Workflows.Classified.{PostureExplains, classify_found-inject_iff}
use cicd_squabbler.Workflows.Policy.{
  is_retired_path, check_target, command_has_retired_policy, has_retired_descriptile_policy,
}
use cicd_squabbler.Workflows.Policy.Slices.{has_retired_descriptile_policy-panic}
use cicd_squabbler.Workflows.Tokens.{owner_repo, uses_target, normalize_external_use}

abbrev lint : WorkflowInfo
lint = record {
  file = codes "lint.yml";
  name = some (codes "Lint");
  job_ids = codes "lint" ∷ [];
  job_names = [];
  reusable_repos = codes "octo/app" ∷ [];
  external_uses = codes "octo/act@v1" ∷ codes "other/tool@v2" ∷ [];
  tag_pinned_uses = codes "octo/act@v1" ∷ codes "other/tool@v2" ∷ [];
  path_filtered = true;
  retired_descriptile_policy = false;
  empty_jobs = false;
  kind = hygiene;
}

abbrev selected_only : ActionsPolicyFacts
selected_only = record {
  allowed_actions = codes "selected";
  sha_pinning_required = true;
  github_owned_allowed = true;
  verified_allowed = false;
  patterns_allowed = [];
}

classify_found-inject_iff_example :
    (classify_found
        (new_check (codes "lint") missing)
        (codes "octo/app")
        (some selected_only)
        false
        lint
      ≡ some (inject_path_filter_pass_through (codes "lint") (codes "lint.yml")))
    ↔ ((¬ PostureExplains (some selected_only) false lint)
        × ((false ≡ false)
            × ((false ≡ false)
                × (All (λ r. r ≡ codes "octo/app") (codes "octo/app" ∷ [])
                    × ((true ≡ true)
                        × ((missing ≡ missing)
                            × ((codes "lint" ≡ codes "lint")
                                × (codes "lint.yml" ≡ codes "lint.yml"))))))))
classify_found-inject_iff_example =
    classify_found-inject_iff (new_check (codes "lint") missing) (codes "octo/app") (codes "lint")
      (codes "lint.yml") (some selected_only) false lint

-- A text that is read.
abbrev text : Str
text =
    codes
      "name: Lint\njobs:\n  lint:\n    steps:\n      - uses: 'octo/act/sub@v1' # pinned\n      - uses: ./local\n"

abbrev unread : Str → Option Str
unread s = none

uses_target-read :
    (uses_target (codes "uses: 'octo/act/sub@v1' # pinned") ≡ some (codes "octo/act/sub@v1"))
    × (normalize_external_use (codes "octo/act/sub@v1") ≡ some (codes "octo/act@v1"))
unfolding uses_target normalize_external_use strip_prefix trim trim_start trim_end is_whitespace
    split_whitespace trim_matches starts_with rsplit_once owner_repo split
uses_target-read = (refl, refl)

command_has_retired_policy-read :
    command_has_retired_policy (codes "if [ ! -f '.machine_readable/STATE.a2ml' ]; then") ≡ true
unfolding command_has_retired_policy check_target is_retired_path split_whitespace mem str_eq
    trim_matches trim_end_matches is_whitespace
command_has_retired_policy-read = refl

has_retired_descriptile_policy-panic_example :
    has_retired_descriptile_policy unread (0xa0 ∷ b'o' ∷ codes "n: push\n") ≡ none
unfolding is_whitespace
has_retired_descriptile_policy-panic_example =
    has_retired_descriptile_policy-panic unread b'o' (codes "n: push\n") refl
