-- ===== src/Startup/Texts.antt =====
-- crates/squabble-core/src/startup.rs, `attribute_zero_job`: the texts of its evidence and of its next
-- steps.
use cicd_squabbler.Prelude.{Bool, Option, List, [], ◌∷◌, ◌++◌, if_let, if◌then◌else◌, Str, codes}
use cicd_squabbler.Chains.{EdgeKind, action, pin_str}
use cicd_squabbler.Startup.{Coordinate, rewritten, CanonicalResolution, moved, unverified}

quoted : Str → Str
quoted s = codes "`" ++ (s ++ codes "`")

unfoldable pub dead_evidence : Str → Str
unfolding quoted
dead_evidence written =
    quoted written
    ++ codes
        " does not resolve (404): the coordinate is dead, so there is no canonical name to repoint to. A dead upstream creates no check run at all — see `squabble chains`' dead-upstream finding."

unfoldable pub moved_evidence : Str → Str → Str
unfolding quoted
moved_evidence written target =
    quoted written
    ++ (codes " resolves to canonical "
        ++ (quoted target
            ++ codes
                " (renamed or transferred). Reusable coordinates are resolved before any job exists, so the stale name is a zero-job `startup_failure` (\"workflow was not found\") that no PR check list shows."))

unfoldable pub verified_evidence : Str → Str
unfolding quoted
verified_evidence written =
    quoted written
    ++ codes
        " is not covered by any allow-list pattern, but the caller's `selected` posture also sets `verified_allowed`, which admits actions from verified Marketplace creators without one. Whether this coordinate is verified is not resolvable from here, so its admission is unknown — the cause is outside this taxonomy, and no policy change should be made on a guess."

unfoldable pub named : CanonicalResolution → Str → Str
unfolding quoted
named (moved _) effective = codes "resolves to canonical " ++ quoted effective
named (unverified _) effective =
    codes "is named "
    ++ (quoted effective
        ++ codes
            " (its canonical name could not be checked, so the name as written is the only one this report can vouch for)")
named _ effective = codes "resolves to " ++ quoted effective

unfoldable pub refused_evidence : Str → Str → Str
unfolding quoted
refused_evidence written name =
    quoted written
    ++ (codes " "
        ++ (name
            ++ codes
                ", but the caller's `selected` actions allow-list has no pattern covering it. GitHub refuses the run at startup with zero jobs, so nothing reports on the PR."))

unfoldable pub open_evidence : Str → EdgeKind → CanonicalResolution → Str
unfolding quoted
open_evidence written action (moved _) =
    quoted written
    ++ codes
        " names a moved action repo; a moved action fails its own job rather than preventing workflow startup, so it is not a zero-job class."
open_evidence written kind (unverified reason) =
    quoted written
    ++ (codes
          " is admitted by the live allow-list (or none applies), and its canonical name could not be checked ("
        ++ (reason
            ++ codes
                "). The cause is outside this taxonomy — diagnose from the run's own workflow before changing anything."))
open_evidence written kind _ =
    quoted written
    ++ codes
        " resolves canonically and the live allow-list admits it (or no `selected` posture applies). The cause is outside this taxonomy — diagnose from the run's own workflow before changing anything."

unfoldable pub moved_steps : Str → Option Coordinate → Str → Option Str → List Str
unfolding quoted
moved_steps written parsed target required =
    let pin = if_let parsed (λ c. pin_str c.pin) [] in
    (codes "repoint "
      ++ (quoted written
          ++ (codes " to "
              ++ (quoted (if_let parsed (λ c. rewritten c target) (target ++ (codes "@" ++ pin)))
                  ++ (codes " — the pin "
                      ++ (quoted pin
                          ++ codes " is carried unchanged; repointing is not re-pinning"))))))
    ∷ (if_let required
          (λ p.
            (codes "then admit "
              ++ (quoted p
                  ++ codes
                      " in the caller's selected-actions allow-list — a repoint alone can still be refused at startup"))
            ∷ [])
          []
        ++ (codes "re-run the workflow afterwards; nothing here makes the check green" ∷ []))

unfoldable pub admission_steps : Str → Str → Str → Bool → Bool → List Str
unfolding quoted
admission_steps pattern effective written_repo empty was_moved =
    (if was_moved
      then (codes "the pattern must name the canonical target "
          ++ (quoted effective ++ (codes ", not the moved coordinate " ++ quoted written_repo)))
        ∷ []
      else [])
    ++ (((codes "admit "
            ++ (quoted pattern
                ++ (codes " to the caller's `selected` actions allow-list"
                    ++ ((if empty
                          then codes " (the list is EMPTY, so every external `uses:` is refused)"
                          else [])
                        ++ codes "; no workflow edit can make this run start"))))
          ∷ [])
        ++ ((if empty
              then codes
                  "the estate posture of record is `allowed_actions=all` with `sha_pinning_required=true` KEPT — adopt that, or enumerate every needed `owner/repo@*` pattern"
                ∷ []
              else [])
            ++ (codes "re-run the workflow afterwards; admission only lets the check start" ∷ [])))
