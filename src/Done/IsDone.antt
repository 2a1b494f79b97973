-- ===== src/Done/IsDone.antt =====
-- When a pull request is done, and what being done says about its required checks.
use cicd_squabbler.Prelude.{
  ◌≡◌, refl, ◌↔◌, ◌⊎◌, ◌≢◌, true, false, List, [], ◌∷◌, map, is_nil, All, Any, In, arith, Str,
  codes, str_eq_iff, mem_iff,
}
use mathlib.Core.Path.{subst}
use cicd_squabbler.Gate
use cicd_squabbler.Gate.{
  CheckRun, missing, pending, failed, skipped, passed, RequiredCheck, new_check, Gate, GateState,
  red, green, is_pending,
}
use cicd_squabbler.Gate.States.{Failed, Accepted, evaluate-red_iff, evaluate-green_iff}
use cicd_squabbler.Done.Facts.{PrState, opened, merged, closed, mergeable, PrFacts, is_done}
use cicd_squabbler.Done.{
  required_pending, required_gate, context_run, agent_items_of, evaluate, evaluate_state,
}
use cicd_squabbler.Done.Steps.{
  is_nil-append, is_nil_iff, is_nil-map, mergeable_items_iff, NotStuck, required_items_iff,
  IsAnswered, red_items_iff, HasReported, bot_items_iff, IsArmed, merge_agent_items_iff,
}

-- What an open pull request must meet for the agent to have nothing left to do.
pub record IsSettled (facts : PrFacts) (review_apps : List Str) : Type 0 where
  pub no_conflict : facts.mergeable ≡ mergeable
  pub ready : facts.is_draft ≡ false
  pub up_to_date : facts.merge_state ≢ codes "BEHIND"
  pub checks : All (λ c. NotStuck c.run) (required_gate facts).checks
  pub reds : All (IsAnswered facts) facts.observed
  pub threads : facts.unresolved_threads ≡ []
  pub changes : facts.changes_requested_by ≡ []
  pub bots : All (HasReported review_apps) facts.observed
  pub no_queue : ¬ In (codes "merge_queue") facts.rule_types
  pub signed :
      (¬ In (codes "required_signatures") facts.rule_types) ⊎ (facts.unverified_commits ≡ [])
  pub armed :
      IsArmed facts.auto_merge facts.merge_state (required_pending (required_gate facts).checks)

agent_items-nil_iff :
    (facts : PrFacts) (review_apps : List Str)
    → (is_nil (agent_items_of facts review_apps (required_gate facts).checks) ≡ true)
      ↔ IsSettled facts review_apps
unfolding agent_items_of
agent_items-nil_iff facts review_apps =
    let cs = (required_gate facts).checks in
    simp (is_nil-append, is_nil-map)
      (ground (
        arith,
        mergeable_items_iff facts.mergeable,
        str_eq_iff facts.merge_state (codes "BEHIND"),
        required_items_iff cs,
        red_items_iff facts facts.observed,
        is_nil_iff facts.unresolved_threads,
        is_nil_iff facts.changes_requested_by,
        is_nil_iff facts.unverified_commits,
        bot_items_iff review_apps facts.observed,
        mem_iff (codes "merge_queue") facts.rule_types,
        mem_iff (codes "required_signatures") facts.rule_types,
        merge_agent_items_iff facts facts.auto_merge (required_pending cs),
      ))

abbrev pub Settles : PrState → PrFacts → List Str → Type 0
Settles closed facts review_apps = Unit
Settles merged facts review_apps = facts.unresolved_threads ≡ []
Settles opened facts review_apps = IsSettled facts review_apps

evaluate_state-Settles_iff :
    (state : PrState) (facts : PrFacts) (review_apps free : List Str)
    → (is_done (evaluate_state facts review_apps state (required_gate facts) free) ≡ true)
      ↔ Settles state facts review_apps
unfolding evaluate_state is_done
evaluate_state-Settles_iff closed facts review_apps free = (λ _. tt, λ _. refl)
evaluate_state-Settles_iff merged facts review_apps free =
    rw is_nil-map (is_nil_iff facts.unresolved_threads)
evaluate_state-Settles_iff opened facts review_apps free = agent_items-nil_iff facts review_apps

-- A closed pull request is done; a merged one is done exactly when no review thread is left
-- unresolved (changes that were requested do not count); an open one is done exactly when every
-- condition of `IsSettled` holds. Missing approvals and deployments are not among the conditions. A
-- required check that is pending is one only where automerge is not armed.
pub is_done_iff :
    (facts : PrFacts) (review_apps : List Str)
    → (is_done (evaluate facts review_apps) ≡ true) ↔ Settles facts.state facts review_apps
unfolding evaluate
is_done_iff facts review_apps = evaluate_state-Settles_iff facts.state facts review_apps _

not-stuck_iff :
    (cs : List RequiredCheck)
    → All (λ c. NotStuck c.run) cs
    → (¬ Any Failed cs) × (All Accepted cs ↔ (required_pending cs ≡ false))
unfolding required_pending
not-stuck_iff [] h = ground arith
not-stuck_iff (c ∷ cs) h = ground (arith, not-stuck_iff cs)

checks-nil_iff :
    (facts : PrFacts) → ((required_gate facts).checks ≡ []) ↔ (facts.required_contexts ≡ [])
unfolding required_gate
checks-nil_iff facts = go facts.required_contexts
  where
    go :
        (cs : List Str)
        → (map (λ c. new_check c (context_run facts.observed c)) cs ≡ []) ↔ (cs ≡ [])
    go [] = (λ _. refl, λ _. refl)
    go (c ∷ cs) = ground arith

-- The required gate of an open pull request that is done is never Red, and it is Green exactly when
-- the ruleset requires something and no required check is pending.
pub is_done-gate :
    (facts : PrFacts) (review_apps : List Str)
    → facts.state ≡ opened
    → is_done (evaluate facts review_apps) ≡ true
    → (Gate.evaluate (required_gate facts) ≢ red)
      × ((Gate.evaluate (required_gate facts) ≡ green) ↔ (
          (facts.required_contexts ≢ []) × (required_pending (required_gate facts).checks ≡ false)))
is_done-gate facts review_apps e d =
    let settled =
      subst (λ s. Settles s facts review_apps) e ((is_done_iff facts review_apps).0 d) in
    let gate = required_gate facts in
    ground (
      arith,
      not-stuck_iff gate.checks settled.checks,
      evaluate-red_iff gate,
      evaluate-green_iff gate,
      checks-nil_iff facts,
    )
