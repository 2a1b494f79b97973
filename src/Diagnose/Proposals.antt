-- ===== src/Diagnose/Proposals.antt =====
-- One proposal for each unsatisfied check, with and without hints.
use cicd_squabbler.Prelude.{
  ℕ, zero, suc, ◌≡◌, refl, ◌↔◌, Option, some, List, [], ◌∷◌, map, length, length-map, All, arith,
  Str, get_elem?, unwrap_or,
}
use cicd_squabbler.Gate.{RequiredCheck, Gate, evaluate, unsatisfied}
use cicd_squabbler.Gate.States.{Accepted, unsatisfied-eq-nil_iff}
use cicd_squabbler.Moves.{Move}
use cicd_squabbler.Diagnose.{propose_for, hinted, diagnose, diagnose_with_hints}

map-eq-nil_iff : (f : RequiredCheck → Move) (cs : List RequiredCheck) → (map f cs ≡ []) ↔ (cs ≡ [])
map-eq-nil_iff f [] = (λ _. refl, λ _. refl)
map-eq-nil_iff f (c ∷ cs) = ground arith

get_elem?-map :
    (f : RequiredCheck → Move) (cs : List RequiredCheck) (i : ℕ) (c : RequiredCheck)
    → get_elem? cs i ≡ some c
    → get_elem? (map f cs) i ≡ some (f c)
get_elem?-map f [] i c h = cc
get_elem?-map f (x ∷ cs) zero c h = cc
get_elem?-map f (x ∷ cs) (suc i) c h = get_elem?-map f cs i c h

-- Whatever the hints are, the diagnosis carries the state that the runs give, proposes one move for
-- each unsatisfied check, and proposes nothing exactly when every required check is accepted.
pub diagnose_with_hints_complete :
    (g : Gate) (hints : Str → Option Move)
    → ((diagnose_with_hints g hints).state ≡ evaluate g)
      × (length (diagnose_with_hints g hints).proposed ≡ length (unsatisfied g))
      × (((diagnose_with_hints g hints).proposed ≡ []) ↔ All Accepted g.checks)
unfolding diagnose_with_hints
diagnose_with_hints_complete g hints = (
  refl,
  length-map (hinted hints) (unsatisfied g),
  ground (arith, map-eq-nil_iff (hinted hints) (unsatisfied g), unsatisfied-eq-nil_iff g),
)

-- The i-th move is for the i-th unsatisfied check: the hint for its context where the host gave one,
-- and otherwise the move that the diagnosis without hints has at that place.
pub diagnose_with_hints-get_elem? :
    (g : Gate) (hints : Str → Option Move) (i : ℕ) (c : RequiredCheck)
    → get_elem? (unsatisfied g) i ≡ some c
    → (get_elem? (diagnose_with_hints g hints).proposed i
        ≡ some (unwrap_or (hints c.required_context) (propose_for c.required_context)))
      × (get_elem? (diagnose g).proposed i ≡ some (propose_for c.required_context))
unfolding diagnose_with_hints diagnose
diagnose_with_hints-get_elem? g hints i c h = (
  get_elem?-map (hinted hints) (unsatisfied g) i c h,
  get_elem?-map (λ c. propose_for c.required_context) (unsatisfied g) i c h,
)
