-- ===== src/Gate/States.antt =====
-- What each state of the gate means (`Gate::evaluate`), and the lists that go with it.
use cicd_squabbler.Prelude.{
  ◌≡◌, refl, ◌↔◌, ◌⊎◌, ◌≢◌, true, false, not, List, [], ◌∷◌, all, any, filter, All, Any, arith,
  if◌then◌else◌, length, ℕ, suc, ◌+◌,
}
use cicd_squabbler.Gate.{
  failed, skipped, passed, RequiredCheck, is_satisfied, is_failed, is_skipped, is_passed, blocked,
  red, green, Gate, evaluate, unsatisfied, evidence_free,
}

-- A run that the ruleset accepts.
abbrev pub Accepted : RequiredCheck → Type 0
Accepted c = (c.run ≡ passed) ⊎ (c.run ≡ skipped)

abbrev pub Failed : RequiredCheck → Type 0
Failed c = c.run ≡ failed

is_satisfied_iff : (c : RequiredCheck) → (is_satisfied c ≡ true) ↔ Accepted c
unfolding is_satisfied
is_satisfied_iff c = ground arith

is_failed_iff : (c : RequiredCheck) → (is_failed c.run ≡ true) ↔ Failed c
is_failed_iff c = ground arith

all-satisfied_iff : (cs : List RequiredCheck) → (all is_satisfied cs ≡ true) ↔ All Accepted cs
all-satisfied_iff [] = (λ _. tt, λ _. refl)
all-satisfied_iff (c ∷ cs) = ground (arith, is_satisfied_iff c, all-satisfied_iff cs)

any-Failed_iff : (cs : List RequiredCheck) → (any (λ c. is_failed c.run) cs ≡ true) ↔ Any Failed cs
any-Failed_iff [] = (λ h. cc, λ h. absurd h)
any-Failed_iff (c ∷ cs) = ground (arith, is_failed_iff c, any-Failed_iff cs)

-- The gate is Green exactly when it requires something and every required check passed or was
-- skipped.
pub evaluate-green_iff :
    (g : Gate) → (evaluate g ≡ green) ↔ ((g.checks ≢ []) × All Accepted g.checks)
unfolding evaluate
evaluate-green_iff g = ground (arith, all-satisfied_iff g.checks)

failed-unsatisfied :
    (cs : List RequiredCheck) → any (λ c. is_failed c.run) cs ≡ true → all is_satisfied cs ≡ false
unfolding is_satisfied
failed-unsatisfied [] h = cc
failed-unsatisfied (c ∷ cs) h = ground (arith, failed-unsatisfied cs)

-- The gate is Red exactly when some required check failed, whatever the other checks are: a missing
-- or pending check beside it does not make the gate Blocked.
pub evaluate-red_iff : (g : Gate) → (evaluate g ≡ red) ↔ Any Failed g.checks
unfolding evaluate
evaluate-red_iff g = ground (arith, any-Failed_iff g.checks, failed-unsatisfied g.checks)

pub unsatisfied-eq-nil_iff : (g : Gate) → (unsatisfied g ≡ []) ↔ All Accepted g.checks
unfolding unsatisfied
unsatisfied-eq-nil_iff g = go g.checks
  where
    go : (cs : List RequiredCheck) → (filter (λ c. not (is_satisfied c)) cs ≡ []) ↔ All Accepted cs
    go [] = (λ _. tt, λ _. refl)
    go (c ∷ cs) = ground (arith, go cs, is_satisfied_iff c)

-- A gate is Green exactly when it requires something and its work list is empty; the gate that
-- requires nothing is Blocked.
pub evaluate-unsatisfied :
    (g : Gate)
    → ((evaluate g ≡ green) ↔ ((g.checks ≢ []) × (unsatisfied g ≡ [])))
      × (evaluate (record { checks = [] }) ≡ blocked)
unfolding evaluate
evaluate-unsatisfied g =
    ground (arith, evaluate-green_iff g, unsatisfied-eq-nil_iff g, all-satisfied_iff g.checks)

abbrev pub count_passed : List RequiredCheck → ℕ
count_passed [] = 0
count_passed (c ∷ cs) = let n = count_passed cs in if is_passed c.run then suc n else n

-- The unsatisfied checks, the checks met without evidence and the passed checks add up to all of the
-- required checks.
pub length-evidence_free :
    (g : Gate)
    → length (unsatisfied g) + length (evidence_free g) + count_passed g.checks ≡ length g.checks
unfolding unsatisfied evidence_free
length-evidence_free g = go g.checks
  where
    go :
        (cs : List RequiredCheck)
        → length (filter (λ c. not (is_satisfied c)) cs)
            + length (filter (λ c. is_skipped c.run) cs)
            + count_passed cs
          ≡ length cs
    go [] = omega arith
    go (c ∷ cs) = ground (arith, go cs)
