-- ===== src/Fight/Planned.antt =====
-- What a plan reports of the unsatisfied checks.
use cicd_squabbler.Prelude.{
  ◌+◌, ◌≡◌, refl, ◌≢◌, Bool, true, Option, none, some, ◌>>=◌, Option-cases, inl, inr, List, [],
  length-append, ◌∷◌, ◌++◌, length, map, filter, not, ◌&&◌, ap, ◌∙◌, All, arith, Str, starts_with,
}
use mathlib.Core.List.{map-append}
use cicd_squabbler.Gate.{RequiredCheck, Gate, unsatisfied}
use cicd_squabbler.Moves.{Move}
use cicd_squabbler.Moves.Describe.{describe, quoted}
use cicd_squabbler.Outcome.{Outcome, Report, escalation_from_move, owner_assignment_from_move}
use cicd_squabbler.Diagnose.{Diagnosis, hinted, diagnose_with_hints}
use cicd_squabbler.Workflows.{WorkflowInfo, ActionsPolicyFacts, classify_with_policy}
use cicd_squabbler.Fight.{
  RepoContext, Tree, hints_from, Buckets, bucket_one, bucket, selfwon, ungrounded,
}
use cicd_squabbler.Fight.Placed.{
  asks_expert, asks_owner, as_expert, as_owner, PlacesIn, bucket-PlacesIn,
}
use cicd_squabbler.Fight.Scan.{wellknown_escalations, scan_assignments, report_of, plan_with_policy}
use cicd_squabbler.Fight.Described.{
  classify_with_policy-IsDescribed, hints_from-IsDescribed, hinted-described,
}

-- Line by line, a blocker that begins with the check's name.
abbrev pub Names : List RequiredCheck → List Str → Type 0
Names [] ls = Unit
Names (c ∷ cs) [] = ⊥
Names (c ∷ cs) (l ∷ ls) = (starts_with (quoted c.required_context) l ≡ true) × Names cs ls

-- Each check is in one of the three sections, and named by a blocker.
abbrev BucketsFor : List RequiredCheck → Option Buckets → Type 0
BucketsFor cs none = ⊥
BucketsFor cs (some b) =
    (length b.moves_attempted + (length b.escalations + length b.owner_assignments) ≡ length cs)
    × Names cs b.blockers

starts_with-append : (s t : Str) → starts_with s (s ++ t) ≡ true
unfolding starts_with
starts_with-append [] t = refl
starts_with-append (c ∷ s) t = ground (arith, starts_with-append s t)

bucket_one-BucketsFor :
    (c : RequiredCheck) (cs : List RequiredCheck) (m : Move) (b : Buckets)
    → describe m ≢ none
    → BucketsFor cs (some b)
    → BucketsFor (c ∷ cs) (bucket_one c.required_context m b)
unfolding bucket_one
bucket_one-BucketsFor c cs m b h k =
    let named = λ (t : Str). starts_with-append (quoted c.required_context) t in
    elim (Option-cases (escalation_from_move m)) [
      | inl none_escalated ↦ elim (Option-cases (owner_assignment_from_move m)) [
        | inl none_assigned ↦ elim (Option-cases (describe m)) [
          | inl silent ↦ absurd (h silent)
          | inr (text, e) ↦
              rw (none_escalated, none_assigned, e) (omega (arith, k.0), (named _, k.1))
        ]
        | inr (o, e) ↦ rw (none_escalated, e) (omega (arith, k.0), (named _, k.1))
      ]
      | inr (x, e) ↦ rw e (omega (arith, k.0), (named _, k.1))
    ]

bucket-BucketsFor :
    (cs : List RequiredCheck) (hints : Str → Option Move)
    → All (λ m. describe m ≢ none) (map (hinted hints) cs)
    → BucketsFor cs (bucket cs (map (hinted hints) cs))
unfolding bucket
bucket-BucketsFor [] hints h = (omega arith, tt)
bucket-BucketsFor (c ∷ cs) hints h =
    step (bucket cs (map (hinted hints) cs)) (bucket-BucketsFor cs hints h.1)
  where
    step :
        (o : Option Buckets)
        → BucketsFor cs o
        → BucketsFor (c ∷ cs) (o >>= λ b. bucket_one c.required_context (hinted hints c) b)
    step none k = absurd k
    step (some b) k = bucket_one-BucketsFor c cs (hinted hints c) b h.0 k

Names-append : (cs : List RequiredCheck) (ls ms : List Str) → Names cs ls → Names cs (ls ++ ms)
Names-append [] ls ms h = tt
Names-append (c ∷ cs) [] ms h = absurd h
Names-append (c ∷ cs) (l ∷ ls) ms h = (h.0, Names-append cs ls ms h.1)

-- The move that each unsatisfied check is given: the one that the workflows and the posture explain,
-- or the one that its name suggests.
abbrev pub planned_moves :
    Gate → Str → List WorkflowInfo → Option ActionsPolicyFacts → (Str → Bool) → List Move
planned_moves gate slug workflows policy startup_failed =
    map
      (hinted (
        hints_from
          (λ c. classify_with_policy workflows c slug policy (startup_failed c.required_context))
          (λ _. none) (unsatisfied gate)))
      (unsatisfied gate)

-- The report lists the unsatisfied checks, and puts the move of each into the one section of its
-- kind, with all that the move says, before the latent issues that the scan found; it names each check
-- at the head of its own blocker, and claims no edit.
abbrev pub Accounts :
    Gate
    → Str
    → Tree
    → RepoContext
    → List WorkflowInfo
    → Option ActionsPolicyFacts
    → List Move
    → Report
    → Type 0
Accounts gate slug tree context workflows policy ms r =
    (r.unsatisfied ≡ unsatisfied gate)
    × (((map as_expert r.escalations
            ≡ filter asks_expert ms
              ++ map as_expert (wellknown_escalations (unsatisfied gate) tree))
          × ((map as_owner r.owner_assignments
                ≡ filter asks_owner ms
                  ++ map as_owner (
                      scan_assignments tree slug context workflows (selfwon r.moves_attempted)
                        policy))
              × (r.moves_attempted ≡ filter (λ m. not (asks_expert m) && not (asks_owner m)) ms)))
        × ((length r.moves_attempted + (length r.escalations + length r.owner_assignments)
              ≡ length (unsatisfied gate)
                + (length (wellknown_escalations (unsatisfied gate) tree)
                    + length (
                        scan_assignments tree slug context workflows (selfwon r.moves_attempted)
                          policy)))
            × (Names (unsatisfied gate) r.blockers × (r.applied ≡ []))))

-- A plan is a report of a red gate that was not won, or the panic of a description.
abbrev pub PlansRed : (Report → Type 0) → Option Outcome → Type 0
PlansRed P (some (Outcome.red r)) = P r
PlansRed P _ = ⊥

report_of-Accounts :
    (gate : Gate) (slug : Str) (tree : Tree) (context : RepoContext) (workflows : List WorkflowInfo)
    (policy : Option ActionsPolicyFacts) (ms : List Move) (d : Diagnosis) (o : Option Buckets)
    → BucketsFor (unsatisfied gate) o
    → PlacesIn ms o
    → PlansRed
        (Accounts gate slug tree context workflows policy ms)
        (o >>= λ b. some (report_of gate slug tree context workflows policy d b))
unfolding report_of
report_of-Accounts gate slug tree context workflows policy ms d none h k = absurd h
report_of-Accounts gate slug tree context workflows policy ms d (some b) h k = (
  refl,
  (
    (
      map-append as_expert b.escalations _
          ∙ ap (λ es. es ++ map as_expert (wellknown_escalations (unsatisfied gate) tree)) k.0,
      (
        map-append as_owner b.owner_assignments _
            ∙ ap
                (λ es.
                  es
                  ++ map as_owner (
                      scan_assignments tree slug context workflows (selfwon b.moves_attempted)
                        policy))
                k.1.0,
        k.1.1,
      ),
    ),
    (
      omega (
        arith,
        h.0,
        length-append b.escalations (wellknown_escalations (unsatisfied gate) tree),
        length-append b.owner_assignments
            (scan_assignments tree slug context workflows (selfwon b.moves_attempted) policy),
      ),
      (Names-append (unsatisfied gate) b.blockers (ungrounded context workflows tree) h.1, refl),
    ),
  ),
)

-- For every gate and all that is known of the repository, planning ends without a panic in a `Red`
-- outcome, also for a green gate. Its report puts the move that each unsatisfied check is given, as
-- it is, into the one section of its kind, and names each check in a blocker of its own.
pub plan_with_policy-Accounts :
    (gate : Gate) (slug : Str) (tree : Tree) (context : RepoContext) (workflows : List WorkflowInfo)
    (policy : Option ActionsPolicyFacts) (startup_failed : Str → Bool)
    → PlansRed
        (Accounts gate slug tree context workflows policy
          (planned_moves gate slug workflows policy startup_failed))
        (plan_with_policy gate slug tree context workflows policy startup_failed)
unfolding plan_with_policy diagnose_with_hints
plan_with_policy-Accounts gate slug tree context workflows policy startup_failed =
    let reds = unsatisfied gate in
    let classified = λ (c : RequiredCheck).
      classify_with_policy workflows c slug policy (startup_failed c.required_context) in
    let hints = hints_from classified (λ _. none) reds in
    report_of-Accounts gate slug tree context workflows policy (map (hinted hints) reds)
      (diagnose_with_hints gate hints) (bucket reds (map (hinted hints) reds))
      (bucket-BucketsFor reds hints (
        hinted-described hints reds (
          hints_from-IsDescribed classified reds (λ _. none)
            (λ c.
              classify_with_policy-IsDescribed workflows c slug policy
                (startup_failed c.required_context))
            (λ _. tt))))
      (bucket-PlacesIn reds (hinted hints))
