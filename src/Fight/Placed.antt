-- ===== src/Fight/Placed.antt =====
-- Into which section of a report a move goes, told by the moves that are read back out of it.
use cicd_squabbler.Prelude.{
  ◌≡◌, refl, Bool, true, false, not, ◌&&◌, Option, none, some, ◌>>=◌, Option-cases, inl, inr, List,
  [], ◌∷◌, map, filter, arith, Str,
}
use cicd_squabbler.Gate.{RequiredCheck}
use cicd_squabbler.Moves.{Move, escalate_to_expert, assign_gate_owner}
use cicd_squabbler.Moves.Describe.{describe}
use cicd_squabbler.Outcome.{
  Escalation, OwnerAssignment, escalation_from_move, owner_assignment_from_move,
}
use cicd_squabbler.Fight.{Buckets, bucket_one, bucket}

abbrev pub asks_expert : Move → Bool
asks_expert (escalate_to_expert _ _ _ _) = true
asks_expert _ = false

abbrev pub asks_owner : Move → Bool
asks_owner (assign_gate_owner _ _ _ _) = true
asks_owner _ = false

-- The move that an entry of the report stands for.
abbrev pub as_expert : Escalation → Move
as_expert e = escalate_to_expert e.check e.group e.obligation e.evidence

abbrev pub as_owner : OwnerAssignment → Move
as_owner a = assign_gate_owner a.check a.owner a.disposition a.rationale

-- Each section stands for the moves of its kind, in their order, with all that they say.
abbrev pub Places : List Move → List Escalation → List OwnerAssignment → List Move → Type 0
Places ms escalations assignments attempted =
    (map as_expert escalations ≡ filter asks_expert ms)
    × ((map as_owner assignments ≡ filter asks_owner ms)
        × (attempted ≡ filter (λ m. not (asks_expert m) && not (asks_owner m)) ms))

abbrev pub PlacesIn : List Move → Option Buckets → Type 0
PlacesIn ms none = Unit
PlacesIn ms (some b) = Places ms b.escalations b.owner_assignments b.moves_attempted

expert :
    (m : Move) (e : Escalation)
    → escalation_from_move m ≡ some e
    → (m ≡ as_expert e) × ((asks_expert m ≡ true) × (asks_owner m ≡ false))
unfolding escalation_from_move
expert m e h = ground arith

not_expert : (m : Move) → escalation_from_move m ≡ none → asks_expert m ≡ false
unfolding escalation_from_move
not_expert m h = ground arith

owner :
    (m : Move) (a : OwnerAssignment)
    → owner_assignment_from_move m ≡ some a
    → (m ≡ as_owner a) × (asks_owner m ≡ true)
unfolding owner_assignment_from_move
owner m a h = ground arith

not_owner : (m : Move) → owner_assignment_from_move m ≡ none → asks_owner m ≡ false
unfolding owner_assignment_from_move
not_owner m h = ground arith

bucket_one-PlacesIn :
    (context : Str) (m : Move) (ms : List Move) (b : Buckets)
    → PlacesIn ms (some b)
    → PlacesIn (m ∷ ms) (bucket_one context m b)
unfolding bucket_one
bucket_one-PlacesIn context m ms b h = elim (Option-cases (escalation_from_move m)) [
  | inr (e, k) ↦ let is = expert m e k in rw (k, is.1.0, is.1.1) (cc (is.0, h.0), (h.1.0, h.1.1))
  | inl k ↦ elim (Option-cases (owner_assignment_from_move m)) [
    | inr (a, l) ↦
        let is = owner m a l in rw (k, l, not_expert m k, is.1) (h.0, (cc (is.0, h.1.0), h.1.1))
    | inl l ↦ elim (Option-cases (describe m)) [
      | inl silent ↦ rw (k, l, silent) tt
      | inr (text, t) ↦ rw (k, l, t, not_expert m k, not_owner m l) (h.0, (h.1.0, cc h.1.1))
    ]
  ]
]

pub bucket-PlacesIn :
    (cs : List RequiredCheck) (move_of : RequiredCheck → Move)
    → PlacesIn (map move_of cs) (bucket cs (map move_of cs))
unfolding bucket
bucket-PlacesIn [] move_of = (refl, (refl, refl))
bucket-PlacesIn (c ∷ cs) move_of = step (bucket cs (map move_of cs)) (bucket-PlacesIn cs move_of)
  where
    step :
        (o : Option Buckets)
        → PlacesIn (map move_of cs) o
        → PlacesIn
            (move_of c ∷ map move_of cs)
            (o >>= λ b. bucket_one c.required_context (move_of c) b)
    step none k = tt
    step (some b) k = bucket_one-PlacesIn c.required_context (move_of c) (map move_of cs) b k
