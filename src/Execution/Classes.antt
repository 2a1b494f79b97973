-- ===== src/Execution/Classes.antt =====
-- What each class of `classify` says about the job and its steps.
use cicd_squabbler.Prelude.{
  ◌≡◌, refl, ◌↔◌, ◌≢◌, Bool, true, false, Option, none, some, List, [], ◌∷◌, any, find?, arith, Str,
  IsFirst, find?-IsFirst, find?-eq-none_iff, if_let-elim, any_of_IsFirst, any-reverse,
}
use mathlib.Core.List.{reverse}
use cicd_squabbler.Gate.{CheckRun, missing, pending, failed, skipped, passed}
use cicd_squabbler.Polarity.{StepOutcome}
use cicd_squabbler.Execution.{
  PhaseSignatures, is_post, is_policy_step, ExecutionClass, preflight_failed, prerequisite_missing,
  policy_step_failed, verified, unclassified, no_failing_step, failure_outside_policy_step,
  no_step_evidence, no_successful_step, is_failure, setup_failure, prerequisite_failure,
  policy_failure, policy_success, classify, classify_clean, classify_failures,
  is_evidence_bearing_success,
}

module _ (p : PhaseSignatures) where
  abbrev First : (StepOutcome → Bool) → List StepOutcome → Str → Type 0
  First q steps name = (s : StepOutcome) × (s.name ≡ name) × IsFirst q steps s

  -- What a class states of a concluded job: the failures that outrank the class are absent, and the
  -- step that it names is the first (for a success, the last) of its kind.
  abbrev pub Explains : CheckRun → List StepOutcome → ExecutionClass → Type 0
  Explains job steps (preflight_failed name) = First (setup_failure p) steps name
  Explains job steps (prerequisite_missing name) =
      (any (setup_failure p) steps ≡ false) × First (prerequisite_failure p) steps name
  Explains job steps (policy_step_failed name) =
      (any (setup_failure p) steps ≡ false)
      × (any (prerequisite_failure p) steps ≡ false)
      × First (policy_failure p) steps name
  Explains job steps (verified name) =
      (job ≡ passed)
      × (any is_failure steps ≡ false)
      × First (policy_success p) (reverse steps) name
  Explains job steps (unclassified failure_outside_policy_step) =
      (any (setup_failure p) steps ≡ false)
      × (any (prerequisite_failure p) steps ≡ false)
      × (any (policy_failure p) steps ≡ false)
      × (any is_failure steps ≡ true)
  Explains job steps (unclassified no_successful_step) =
      (job ≡ passed)
      × (any is_failure steps ≡ false)
      × (any (policy_success p) (reverse steps) ≡ false)
      × (steps ≢ [])
  Explains job steps (unclassified no_failing_step) =
      (job ≢ passed) × (any is_failure steps ≡ false) × (steps ≢ [])
  Explains job steps (unclassified no_step_evidence) = steps ≡ []
  Explains job steps _ = ⊥

  -- A failure that is neither setup, nor prerequisite, nor policy is a cleanup step's.
  other-failure-post :
      (s : StepOutcome)
      → is_failure s ≡ true
      → setup_failure p s ≡ false
      → prerequisite_failure p s ≡ false
      → policy_failure p s ≡ false
      → is_post s.name ≡ true
  unfolding is_policy_step
  other-failure-post s a b c d = ground arith

  first :
      (q : StepOutcome → Bool) (steps : List StepOutcome) (s : StepOutcome)
      → find? q steps ≡ some s
      → First q steps s.name
  first q steps s e = (s, refl, find?-IsFirst q steps e)

  absent :
      (q : StepOutcome → Bool) (steps : List StepOutcome)
      → find? q steps ≡ none
      → any q steps ≡ false
  absent q steps e = (find?-eq-none_iff q steps).0 e

  clean-Explains :
      (job : CheckRun) (steps : List StepOutcome)
      → steps ≢ []
      → any is_failure steps ≡ false
      → Explains job steps (classify_clean p job steps)
  unfolding classify_clean
  clean-Explains passed steps n f =
      if_let-elim (Explains passed steps) (find? (policy_success p) (reverse steps))
        (λ s e. (refl, f, first _ (reverse steps) s e))
        (λ e. (refl, f, absent _ (reverse steps) e, n))
  clean-Explains _ steps n f = ground arith

  -- The first failure of any kind is a cleanup step's where no failure is of another kind.
  at-first-failure :
      (steps : List StepOutcome) (s : StepOutcome)
      → any (setup_failure p) steps ≡ false
      → any (prerequisite_failure p) steps ≡ false
      → any (policy_failure p) steps ≡ false
      → find? is_failure steps ≡ some s
      → (is_post s.name ≡ true) × (any is_failure steps ≡ true)
  at-first-failure [] s a b c e = cc
  at-first-failure (t ∷ steps) s a b c e =
      ground (arith, other-failure-post t, at-first-failure steps s)

  failures-Explains :
      (job : CheckRun) (steps : List StepOutcome)
      → steps ≢ []
      → Explains job steps (classify_failures p job steps)
  unfolding classify_failures
  failures-Explains job steps n =
      if_let-elim E (find? (setup_failure p) steps) (λ s e. first _ steps s e)
        λ e₁.
          if_let-elim E (find? (prerequisite_failure p) steps)
            (λ s e. (absent _ steps e₁, first _ steps s e))
            λ e₂.
              if_let-elim E (find? (policy_failure p) steps)
                (λ s e. (absent _ steps e₁, absent _ steps e₂, first _ steps s e))
                λ e₃.
                  if_let-elim E (find? is_failure steps)
                    (λ s e.
                      let (post, failing) =
                        at-first-failure steps s (absent _ steps e₁) (absent _ steps e₂)
                          (absent _ steps e₃) e in
                      rw post (absent _ steps e₁, absent _ steps e₂, absent _ steps e₃, failing))
                    (λ e. clean-Explains job steps n (absent _ steps e))
    where
      E : ExecutionClass → Type 0
      E = Explains job steps

-- Every job that exists and concluded gets a class that its steps bear out: `Explains` states for
-- each class which failures are absent and which step is named.
pub classify-Explains :
    (job : CheckRun) (steps : List StepOutcome) (p : PhaseSignatures)
    → job ≢ missing
    → job ≢ pending
    → Explains p job steps (classify (some job) steps p)
unfolding classify
classify-Explains missing steps p m q = absurd (m refl)
classify-Explains pending steps p m q = absurd (q refl)
classify-Explains failed [] p m q = refl
classify-Explains skipped [] p m q = refl
classify-Explains passed [] p m q = refl
classify-Explains failed (s ∷ steps) p m q = failures-Explains p failed (s ∷ steps) (λ e. cc)
classify-Explains skipped (s ∷ steps) p m q = failures-Explains p skipped (s ∷ steps) (λ e. cc)
classify-Explains passed (s ∷ steps) p m q = failures-Explains p passed (s ∷ steps) (λ e. cc)

any-weaken :
    (q r : StepOutcome → Bool) (steps : List StepOutcome)
    → ((s : StepOutcome) → q s ≡ true → r s ≡ true)
    → any q steps ≡ true
    → any r steps ≡ true
any-weaken q r [] imp h = h
any-weaken q r (s ∷ steps) imp h = ground (arith, imp s, any-weaken q r steps imp)

module _ (p : PhaseSignatures) (job : CheckRun) (steps : List StepOutcome) where
  abbrev Succeeds : Type 0
  Succeeds = (job ≡ passed) × (any is_failure steps ≡ false) × (any (policy_success p) steps ≡ true)

  failing :
      (q : StepOutcome → Bool) {name : Str}
      → ((s : StepOutcome) → q s ≡ true → is_failure s ≡ true)
      → First p q steps name
      → any is_failure steps ≡ true
  failing q imp (s, _, f) = any-weaken q is_failure steps imp (any_of_IsFirst q steps f)

  verified-iff_of_Explains :
      (c : ExecutionClass)
      → Explains p job steps c
      → (is_evidence_bearing_success c ≡ true) ↔ Succeeds
  unfolding is_evidence_bearing_success
  verified-iff_of_Explains (preflight_failed name) e =
      ground (arith, failing (setup_failure p) (λ s h. ground arith) e)
  verified-iff_of_Explains (prerequisite_missing name) e =
      ground (arith, failing (prerequisite_failure p) (λ s h. ground arith) e.1)
  verified-iff_of_Explains (policy_step_failed name) e =
      ground (arith, failing (policy_failure p) (λ s h. ground arith) e.2)
  verified-iff_of_Explains (verified name) e =
      let (s, _, f) = e.2 in
      ground (
        arith,
        any_of_IsFirst (policy_success p) (reverse steps) f,
        any-reverse (policy_success p) steps,
      )
  verified-iff_of_Explains (unclassified no_successful_step) e =
      ground (arith, any-reverse (policy_success p) steps)
  verified-iff_of_Explains (unclassified no_step_evidence) e = (λ h. cc, λ h. rw e at (h.2))
  verified-iff_of_Explains _ e = ground arith

-- A job is an evidence-bearing success exactly when it exists and passed, none of its steps failed,
-- and some step that is neither setup, prerequisite nor cleanup succeeded.
pub is_evidence_bearing_success_iff :
    (job : Option CheckRun) (steps : List StepOutcome) (p : PhaseSignatures)
    → (is_evidence_bearing_success (classify job steps p) ≡ true) ↔ (
        (job ≡ some passed)
        × (any is_failure steps ≡ false)
        × (any (policy_success p) steps ≡ true))
unfolding classify is_evidence_bearing_success
is_evidence_bearing_success_iff none steps p = ground arith
is_evidence_bearing_success_iff (some missing) steps p = ground arith
is_evidence_bearing_success_iff (some pending) steps p = ground arith
is_evidence_bearing_success_iff (some passed) steps p = ground (
  arith,
  verified-iff_of_Explains p passed steps (classify (some passed) steps p)
      (classify-Explains passed steps p (λ e. cc) (λ e. cc)),
)
is_evidence_bearing_success_iff (some failed) steps p = ground (
  arith,
  verified-iff_of_Explains p failed steps (classify (some failed) steps p)
      (classify-Explains failed steps p (λ e. cc) (λ e. cc)),
)
is_evidence_bearing_success_iff (some skipped) steps p = ground (
  arith,
  verified-iff_of_Explains p skipped steps (classify (some skipped) steps p)
      (classify-Explains skipped steps p (λ e. cc) (λ e. cc)),
)
