-- ===== src/Fight/Described.antt =====
-- Every move that a plan gives a check has a description.
use cicd_squabbler.Prelude.{
  Bool-cases, ◌≢◌, Bool, Option, none, some, ◌>>=◌, inl, inr, List, [], ◌∷◌, map, if_let,
  if◌then◌else◌, All, arith, Str, str_eq, unwrap_or,
}
use cicd_squabbler.Gate.{RequiredCheck}
use cicd_squabbler.Moves.{Move}
use cicd_squabbler.Moves.Describe.{describe}
use cicd_squabbler.Diagnose.{propose_for, hinted}
use cicd_squabbler.Workflows.{
  find_emitting, WorkflowInfo, ActionsPolicyFacts, policy_move, lane_of, lane_move, workflow_move,
  classify_found, classify_with_policy,
}
use cicd_squabbler.Fight.{hints_from}

-- Every move that a check is given has a description.
abbrev pub IsDescribed : Option Move → Type 0
IsDescribed none = Unit
IsDescribed (some m) = describe m ≢ none

policy_move-IsDescribed :
    (p : ActionsPolicyFacts) (w : WorkflowInfo) → IsDescribed (policy_move p w)
unfolding policy_move describe
policy_move-IsDescribed p w = ground arith

workflow_move-IsDescribed :
    (c : RequiredCheck) (slug : Str) (w : WorkflowInfo) → IsDescribed (workflow_move c slug w)
unfolding workflow_move lane_move lane_of describe
workflow_move-IsDescribed c slug w = ground arith

classify_found-IsDescribed :
    (c : RequiredCheck) (slug : Str) (policy : Option ActionsPolicyFacts) (failed : Bool)
    (w : WorkflowInfo)
    → IsDescribed (classify_found c slug policy failed w)
unfolding classify_found
classify_found-IsDescribed c slug none failed w = ground (arith, workflow_move-IsDescribed c slug w)
classify_found-IsDescribed c slug (some p) failed w =
    ground (arith, workflow_move-IsDescribed c slug w, policy_move-IsDescribed p w)

>>=-IsDescribed :
    (o : Option WorkflowInfo) (f : WorkflowInfo → Option Move)
    → ((w : WorkflowInfo) → IsDescribed (f w))
    → IsDescribed (o >>= f)
>>=-IsDescribed none f h = tt
>>=-IsDescribed (some w) f h = h w

pub classify_with_policy-IsDescribed :
    (workflows : List WorkflowInfo) (c : RequiredCheck) (slug : Str)
    (policy : Option ActionsPolicyFacts) (failed : Bool)
    → IsDescribed (classify_with_policy workflows c slug policy failed)
unfolding classify_with_policy
classify_with_policy-IsDescribed workflows c slug policy failed =
    >>=-IsDescribed (find_emitting workflows c.required_context) _
      (classify_found-IsDescribed c slug policy failed)

hint-IsDescribed :
    (hints : Str → Option Move) (name context : Str) (o : Option Move)
    → IsDescribed o
    → ((k : Str) → IsDescribed (hints k))
    → IsDescribed ((if_let o (λ m k. if str_eq name k then some m else hints k) hints) context)
hint-IsDescribed hints name context none h k = k context
hint-IsDescribed hints name context (some m) h k = elim (Bool-cases (str_eq name context)) [
  | inl same ↦ rw same h
  | inr other ↦ rw other (k context)
]

pub hints_from-IsDescribed :
    (classified : RequiredCheck → Option Move) (cs : List RequiredCheck) (hints : Str → Option Move)
    → ((c : RequiredCheck) → IsDescribed (classified c))
    → ((k : Str) → IsDescribed (hints k))
    → (k : Str) → IsDescribed (hints_from classified hints cs k)
unfolding hints_from
hints_from-IsDescribed classified [] hints h k context = k context
hints_from-IsDescribed classified (c ∷ cs) hints h k context =
    hints_from-IsDescribed classified cs _ h
      (λ name. hint-IsDescribed hints c.required_context name (classified c) (h c) k) context

propose_for-described : (name : Str) → describe (propose_for name) ≢ none
unfolding propose_for describe
propose_for-described name = ground arith

pub hinted-described :
    (hints : Str → Option Move) (cs : List RequiredCheck)
    → ((k : Str) → IsDescribed (hints k))
    → All (λ m. describe m ≢ none) (map (hinted hints) cs)
hinted-described hints [] h = tt
hinted-described hints (c ∷ cs) h =
    (own (hints c.required_context) (h c.required_context), hinted-described hints cs h)
  where
    own :
        (o : Option Move)
        → IsDescribed o
        → describe (unwrap_or o (propose_for c.required_context)) ≢ none
    own none k = propose_for-described c.required_context
    own (some m) k = k
