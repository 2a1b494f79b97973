-- ===== src/Board/Places.antt =====
-- Which pull requests an agent may arm, which land alone, and which wait for a human.
use cicd_squabbler.Prelude.{
  inr, sym, inl, ap, Bool-cases, ◌∙◌, ◌≡◌, refl, Bool, true, false, not, ◌&&◌, ◌||◌, ◌==◌, ltb,
  is_lit, arith, codes, str_eq, if◌then◌else◌, List, [], ◌∷◌,
}
use cicd_squabbler.Prelude.Int.{ℤ}
use cicd_squabbler.Board.{
  RepoGate, PrFacts, Reason, is_red, is_conflicting, is_unknown, is_old, mergeable_reason, classify,
  no_required_gate, approval_required, clean_merge_by_hand, draft, conflict, changes_requested,
  checks_red, behind, arm_automerge, mergeability_unknown, armed_waiting, stale_red_or_conflicting,
}

-- Whether a reason's own condition holds, whatever the others say.
abbrev applies : PrFacts → RepoGate → ℤ → ℤ → Reason → Bool
applies pr gate today stale_days stale_red_or_conflicting =
    (is_red pr || is_conflicting pr.mergeable_state) && is_old pr today stale_days
applies pr gate today stale_days no_required_gate = gate.required_contexts == 0
applies pr gate today stale_days draft = pr.is_draft
applies pr gate today stale_days conflict = is_conflicting pr.mergeable_state
applies pr gate today stale_days changes_requested = is_lit pr.review_decision "CHANGES_REQUESTED"
applies pr gate today stale_days approval_required =
    is_lit pr.review_decision "REVIEW_REQUIRED" && ltb 0 gate.required_approvals
applies pr gate today stale_days checks_red = is_red pr
applies pr gate today stale_days behind = str_eq pr.merge_state (codes "BEHIND")
applies pr gate today stale_days armed_waiting = pr.auto_merge_armed
applies pr gate today stale_days clean_merge_by_hand = str_eq pr.merge_state (codes "CLEAN")
applies pr gate today stale_days mergeability_unknown =
    is_unknown pr.mergeable_state || str_eq pr.merge_state (codes "UNKNOWN")
applies pr gate today stale_days arm_automerge = true

-- The reasons by their rank; the last one asks for nothing.
abbrev conditional : List Reason
conditional =
    stale_red_or_conflicting ∷ no_required_gate ∷ draft ∷ conflict ∷ changes_requested
    ∷ approval_required ∷ checks_red ∷ behind ∷ armed_waiting ∷ clean_merge_by_hand
    ∷ mergeability_unknown ∷ []

-- The first of some reasons that applies, or a last one.
pick : (Reason → Bool) → List Reason → Reason → Reason
pick p [] last = last
pick p (r ∷ rs) last = let rest = pick p rs last in if p r then r else rest

classify-pick :
    (pr : PrFacts) (gate : RepoGate) (today stale_days : ℤ)
    → pick (applies pr gate today stale_days) conditional arm_automerge
      ≡ classify pr gate today stale_days
unfolding classify mergeable_reason pick
classify-pick pr gate today stale_days = refl

-- It lands by itself, or an agent may arm it.
abbrev pub lands : Reason → Bool
lands armed_waiting = true
lands arm_automerge = true
lands _ = false

picks_landing : (Reason → Bool) → List Reason → Reason → Bool
picks_landing p [] last = lands last
picks_landing p (r ∷ rs) last = let rest = picks_landing p rs last in if p r then lands r else rest

lands-pick :
    (p : Reason → Bool) (rs : List Reason) (last : Reason)
    → lands (pick p rs last) ≡ picks_landing p rs last
unfolding pick picks_landing
lands-pick p [] last = refl
lands-pick p (r ∷ rs) last = elim (Bool-cases (p r)) [
  | inl e ↦ rw e refl
  | inr e ↦ rw e (lands-pick p rs last)
]

landing_tests :
    (old none_required is_draft conflicts changes approval red is_behind armed clean
      unknown_state : Bool)
    → (if (red || conflicts) && old
        then false
        else if none_required
        then false
        else if is_draft
        then false
        else if conflicts
        then false
        else if changes
        then false
        else if approval
        then false
        else if red
        then false
        else if is_behind
        then false
        else if armed
        then true
        else if clean
        then false
        else if unknown_state
        then false
        else true)
      ≡ (not none_required
          && (not is_draft
              && (not conflicts
                  && (not changes
                      && (not approval
                          && (not red
                              && (not is_behind && (armed || not (clean || unknown_state)))))))))
landing_tests old none_required is_draft conflicts changes approval red is_behind armed clean
      unknown_state =
    ground arith

-- A pull request lands by itself or may be armed exactly when its repository requires some check, it
-- is no draft, merges without a conflict, has no reviewer and no required approval against it, a
-- head that is not red and not behind, and is armed already, or not clean and of known mergeability.
pub lands-classify :
    (pr : PrFacts) (gate : RepoGate) (today stale_days : ℤ)
    → lands (classify pr gate today stale_days) ≡ (
        not (gate.required_contexts == 0)
        && (not pr.is_draft
            && (not (is_conflicting pr.mergeable_state)
                && (not (is_lit pr.review_decision "CHANGES_REQUESTED")
                    && (not (
                          is_lit pr.review_decision "REVIEW_REQUIRED"
                          && ltb 0 gate.required_approvals)
                        && (not (is_red pr)
                            && (not (str_eq pr.merge_state (codes "BEHIND"))
                                && (pr.auto_merge_armed
                                    || not (
                                        str_eq pr.merge_state (codes "CLEAN")
                                        || (is_unknown pr.mergeable_state
                                            || str_eq pr.merge_state (codes "UNKNOWN")))))))))))
unfolding picks_landing
lands-classify pr gate today stale_days =
    ap lands (sym (classify-pick pr gate today stale_days))
    ∙ (lands-pick (applies pr gate today stale_days) conditional arm_automerge
        ∙ landing_tests (is_old pr today stale_days) (gate.required_contexts == 0) pr.is_draft
            (is_conflicting pr.mergeable_state) (is_lit pr.review_decision "CHANGES_REQUESTED")
            (is_lit pr.review_decision "REVIEW_REQUIRED" && ltb 0 gate.required_approvals)
            (is_red pr) (str_eq pr.merge_state (codes "BEHIND")) pr.auto_merge_armed
            (str_eq pr.merge_state (codes "CLEAN"))
            (is_unknown pr.mergeable_state || str_eq pr.merge_state (codes "UNKNOWN")))
