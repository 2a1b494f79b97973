-- ===== src/Fight/Probeless.antt =====
-- A plan without a posture, whatever startup failures were observed.
use cicd_squabbler.Prelude.{◌≡◌, ap, Bool, false, Option, none, some, ◌>>=◌, arith, List, Str}
use mathlib.Core.Path.{fun_ext}
use cicd_squabbler.Gate.{RequiredCheck, Gate, unsatisfied}
use cicd_squabbler.Moves.{Move}
use cicd_squabbler.Diagnose.{diagnose_with_hints}
use cicd_squabbler.Workflows.{WorkflowInfo, classify_found, classify_with_policy, find_emitting}
use cicd_squabbler.Fight.{RepoContext, Tree, hints_from, bucket}
use cicd_squabbler.Fight.Scan.{report_of, plan_with_policy, plan}

classify_found-none :
    (check : RequiredCheck) (slug : Str) (failed : Bool) (w : WorkflowInfo)
    → classify_found check slug none failed w ≡ classify_found check slug none false w
unfolding classify_found
classify_found-none check slug failed w = ground arith

classify_with_policy-none :
    (workflows : List WorkflowInfo) (check : RequiredCheck) (slug : Str) (failed : Bool)
    → classify_with_policy workflows check slug none failed
      ≡ classify_with_policy workflows check slug none false
unfolding classify_with_policy
classify_with_policy-none workflows check slug failed =
    ap (λ found. find_emitting workflows check.required_context >>= found)
      (fun_ext (λ w. classify_found-none check slug failed w))

-- Without a posture the plan is the one of `plan`, whichever startup failures were observed.
pub plan_with_policy-none :
    (gate : Gate) (slug : Str) (tree : Tree) (context : RepoContext) (workflows : List WorkflowInfo)
    (startup_failed : Str → Bool)
    → plan_with_policy gate slug tree context workflows none startup_failed
      ≡ plan gate slug tree context workflows
unfolding plan plan_with_policy
plan_with_policy-none gate slug tree context workflows startup_failed =
    let reds = unsatisfied gate in
    ap
      (λ (classified : RequiredCheck → Option Move).
        let d = diagnose_with_hints gate (hints_from classified (λ _. none) reds) in
        bucket reds d.proposed >>= λ b. some (report_of gate slug tree context workflows none d b))
      (fun_ext (λ (c : RequiredCheck).
        classify_with_policy-none workflows c slug (startup_failed c.required_context)))
