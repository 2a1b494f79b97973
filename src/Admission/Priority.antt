-- ===== src/Admission/Priority.antt =====
-- The order of the checks: evidence before policy before load.
use cicd_squabbler.Prelude.{
  ℕ, ◌+◌, ◌≡◌, ◌↔◌, ◌⊎◌, inl, inr, Bool, true, false, Option, none, some, arith, str_eq_iff,
  Bool-cases, Option-cases,
}
use cicd_squabbler.Admission.{
  AdmissionPolicy, AdmissionRequest, BudgetSnapshot, known, AdmissionDecision, queue, quarantine,
  deny, reserved_minutes, evaluate_admission, admit_by_capacity, admit_known, admit_by_topology,
  admit_by_cost, admit_by_evidence, TopologyKnowledge,
}
use cicd_squabbler.Admission.Sound.{
  HasRoom, IsAllowed, IsEvidenced, valid_sha_iff, reserved_minutes-eq-some_iff,
}

abbrev pub is_deny : AdmissionDecision → Bool
is_deny (deny _) = true
is_deny _ = false

abbrev pub is_quarantine : AdmissionDecision → Bool
is_quarantine (quarantine _) = true
is_quarantine _ = false

abbrev pub is_queue : AdmissionDecision → Bool
is_queue (queue _) = true
is_queue _ = false

module _ (p : AdmissionPolicy) (r : AdmissionRequest) (s : BudgetSnapshot) where
  capacity-kinds :
      (m : ℕ)
      → let d = admit_by_capacity p r s m (s.reserved_minutes_today + m) in
        (is_deny d ≡ false) × (is_quarantine d ≡ false) × ((is_queue d ≡ true) ↔ ¬ HasRoom p r s m)
  unfolding admit_by_capacity
  capacity-kinds m = ground arith

  known-kinds :
      (m d : ℕ)
      → (IsAllowed p r × (admit_known p r s m d ≡ admit_by_capacity p r s m d))
        ⊎ ((¬ IsAllowed p r) × (is_quarantine (admit_known p r s m d) ≡ true))
  unfolding admit_known
  known-kinds m d = ground arith

  topology-kinds :
      (t : TopologyKnowledge) (m : ℕ)
      → let d = admit_by_topology p r s t m (s.reserved_minutes_today + m) in
        (is_deny d ≡ false)
        × ((is_quarantine d ≡ true) ↔ ¬ ((t ≡ known) × IsAllowed p r))
        × ((is_queue d ≡ true) ↔ ((t ≡ known) × IsAllowed p r × (¬ HasRoom p r s m)))
  unfolding admit_by_topology
  topology-kinds known m =
      ground (arith, known-kinds m (s.reserved_minutes_today + m), capacity-kinds m)
  topology-kinds _ m = ground arith

  evidence-step :
      (now m : ℕ)
      → IsEvidenced p r s now m
      → admit_by_evidence p r s now
        ≡ admit_by_topology p r s r.projected.topology m (s.reserved_minutes_today + m)
  unfolding admit_by_evidence admit_by_cost
  evidence-step now m e = ground (
    arith,
    reserved_minutes-eq-some_iff r.projected m,
    str_eq_iff r.head_sha s.observed_head_sha,
    valid_sha_iff r.head_sha,
  )

  evidence-cases :
      (now : ℕ)
      → (is_deny (admit_by_evidence p r s now) ≡ true) ⊎ ((m : ℕ) × IsEvidenced p r s now m)
  unfolding admit_by_evidence admit_by_cost
  evidence-cases now = elim (Option-cases (reserved_minutes r.projected)) [
    | inl e ↦ inl (rw e (ground arith))
    | inr (m, e) ↦ elim (Bool-cases (is_deny (admit_by_evidence p r s now))) [
      | inl d ↦ inl d
      | inr d ↦ inr (
        m,
        ground (
          arith,
          reserved_minutes-eq-some_iff r.projected m,
          str_eq_iff r.head_sha s.observed_head_sha,
          valid_sha_iff r.head_sha,
        ),
      )
    ]
  ]

-- The broker has evidence for some reservation.
abbrev pub HasEvidence :
    Option AdmissionPolicy → AdmissionRequest → Option BudgetSnapshot → ℕ → Type 0
HasEvidence (some p) r (some s) now = (m : ℕ) × IsEvidenced p r s now m
HasEvidence _ r _ now = ⊥

-- A request is denied exactly when the evidence is absent, incomplete, stale, about another head or
-- unsafe to add up, whatever the load and the rest of the policy are.
pub evaluate_admission-deny_iff :
    (policy : Option AdmissionPolicy) (r : AdmissionRequest) (snapshot : Option BudgetSnapshot)
    (now : ℕ)
    → (is_deny (evaluate_admission policy r snapshot now) ≡ true)
      ↔ ¬ HasEvidence policy r snapshot now
unfolding evaluate_admission
evaluate_admission-deny_iff none r snapshot now = ground arith
evaluate_admission-deny_iff (some p) r none now = ground arith
evaluate_admission-deny_iff (some p) r (some s) now = (
  λ d e. cc (
    rw (evidence-step p r s now e.0 e.1) at d,
    (topology-kinds p r s r.projected.topology e.0).0,
  ),
  λ n. elim (evidence-cases p r s now) [ inl d ↦ d | inr e ↦ absurd (n e) ],
)

-- With evidence for `m` minutes, a request is quarantined exactly when its topology is not known or
-- the change is outside the policy, and it is queued exactly when both are in order and there is no
-- room: a request that the policy refuses never waits for a queue to drain.
pub evaluate_admission-kinds :
    (p : AdmissionPolicy) (r : AdmissionRequest) (s : BudgetSnapshot) (now m : ℕ)
    → IsEvidenced p r s now m
    → ((is_quarantine (evaluate_admission (some p) r (some s) now) ≡ true)
        ↔ ¬ ((r.projected.topology ≡ known) × IsAllowed p r))
      × ((is_queue (evaluate_admission (some p) r (some s) now) ≡ true)
          ↔ ((r.projected.topology ≡ known) × IsAllowed p r × (¬ HasRoom p r s m)))
unfolding evaluate_admission
evaluate_admission-kinds p r s now m e =
    rw (evidence-step p r s now m e)
      (let k = topology-kinds p r s r.projected.topology m in (k.1, k.2))
