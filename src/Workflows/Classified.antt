-- ===== src/Workflows/Classified.antt =====
-- Which moves a red check is given, and why.
use cicd_squabbler.Prelude.{
  not, ◌>>=◌, ◌≡◌, ◌↔◌, ◌≢◌, Bool, true, false, Option, none, some, List, [], ◌∷◌, All, find?,
  arith, Str, str_eq_iff, str_eq,
}
use cicd_squabbler.Gate.{missing, RequiredCheck}
use cicd_squabbler.Moves.{inject_path_filter_pass_through}
use cicd_squabbler.Workflows.{
  WorkflowInfo, WorkflowKind, ActionsPolicyFacts, policy_move, lane_of, lane_move, workflow_move,
  classify_found,
}

-- Whether the posture explains an observed startup failure of the workflow.
abbrev pub PostureExplains : Option ActionsPolicyFacts → Bool → WorkflowInfo → Type 0
PostureExplains none startup_failed w = ⊥
PostureExplains (some p) startup_failed w = (startup_failed ≡ true) × (policy_move p w ≢ none)

find?-own_iff :
    (slug : Str) (repos : List Str)
    → (find? (λ r. not (str_eq r slug)) repos ≡ none) ↔ All (λ r. r ≡ slug) repos
find?-own_iff slug [] = ground arith
find?-own_iff slug (r ∷ repos) = ground (arith, find?-own_iff slug repos, str_eq_iff r slug)

lane_move-not_inject :
    (name check file workflow : Str) (kind : WorkflowKind)
    → lane_move name kind file ≢ some (inject_path_filter_pass_through check workflow)
unfolding lane_move lane_of
lane_move-not_inject name check file workflow kind = ground arith

policy_move-not_inject :
    (name file : Str) (p : ActionsPolicyFacts) (w : WorkflowInfo)
    → policy_move p w ≢ some (inject_path_filter_pass_through name file)
unfolding policy_move
policy_move-not_inject name file p w = ground arith

not-inject :
    (name file : Str) (policy : Option ActionsPolicyFacts) (w : WorkflowInfo)
    → (policy >>= λ p. policy_move p w) ≢ some (inject_path_filter_pass_through name file)
not-inject name file none w = ground arith
not-inject name file (some p) w = policy_move-not_inject name file p w

workflow_move-inject_iff :
    (check : RequiredCheck) (slug name file : Str) (w : WorkflowInfo)
    → (workflow_move check slug w ≡ some (inject_path_filter_pass_through name file)) ↔ (
        (w.retired_descriptile_policy ≡ false)
        × ((w.empty_jobs ≡ false)
            × (All (λ r. r ≡ slug) w.reusable_repos
                × ((w.path_filtered ≡ true)
                    × ((check.run ≡ missing)
                        × ((name ≡ check.required_context) × (file ≡ w.file)))))))
unfolding workflow_move
workflow_move-inject_iff check slug name file w = ground (
  arith,
  find?-own_iff slug w.reusable_repos,
  lane_move-not_inject check.required_context name w.file file w.kind,
)

-- The pass-through, the one move that edits a file, is proposed exactly when the posture does not
-- explain a startup failure, the workflow is a live gate whose reusable workflows are all of this
-- repository, it filters on paths, and its required check is missing.
pub classify_found-inject_iff :
    (check : RequiredCheck) (slug name file : Str) (policy : Option ActionsPolicyFacts)
    (startup_failed : Bool) (w : WorkflowInfo)
    → (classify_found check slug policy startup_failed w
        ≡ some (inject_path_filter_pass_through name file))
      ↔ ((¬ PostureExplains policy startup_failed w)
          × ((w.retired_descriptile_policy ≡ false)
              × ((w.empty_jobs ≡ false)
                  × (All (λ r. r ≡ slug) w.reusable_repos
                      × ((w.path_filtered ≡ true)
                          × ((check.run ≡ missing)
                              × ((name ≡ check.required_context) × (file ≡ w.file))))))))
unfolding classify_found
classify_found-inject_iff check slug name file policy startup_failed w =
    ground (arith, workflow_move-inject_iff check slug name file w, not-inject name file policy w)
