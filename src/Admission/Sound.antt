-- ===== src/Admission/Sound.antt =====
-- When a request is admitted.
use cicd_squabbler.Prelude.{
  ℕ, ◌+◌, ◌*◌, ◌≤◌, ◌<◌, ◌≡◌, refl, ◌↔◌, ◌⊎◌, ◌≢◌, true, false, Option, none, some, [], ◌∷◌, length,
  all, All, Any, all_iff, arith, ◌==◌, Str, str_eq_iff, str_len, is_hexdigit,
}
use cicd_squabbler.Admission.{
  AdmissionPolicy, AdmissionRequest, BudgetSnapshot, ProjectedCost, known, human_approved,
  create_pull_request, release, deployment, admit, u64_end, reserved_minutes, valid_sha,
  evaluate_admission, admit_by_capacity, admit_known, admit_by_topology, admit_by_cost,
  admit_by_evidence, TopologyKnowledge,
}

-- The reservation is jobs * timeout + fixed minutes, computed exactly when it fits a `u64`.
pub reserved_minutes-eq-some_iff :
    (c : ProjectedCost) (m : ℕ)
    → (reserved_minutes c ≡ some m)
      ↔ ((c.runner_jobs * c.max_job_timeout_minutes + c.fixed_runner_minutes ≡ m) × (m < u64_end))
unfolding reserved_minutes
reserved_minutes-eq-some_iff c m = ground arith

-- A full object ID: forty hexadecimal digits, not all of them zero.
pub record IsSha (sha : Str) : Type 0 where
  pub digits : length sha ≡ 40
  pub hex : All (λ c. is_hexdigit c ≡ true) sha
  pub nonzero : Any (λ c. c ≢ b'0') sha

str_len_of_hex : (s : Str) → all is_hexdigit s ≡ true → str_len s ≡ length s
unfolding str_len is_hexdigit
str_len_of_hex [] h = refl
str_len_of_hex (c ∷ s) h = ground (arith, str_len_of_hex s)

not-all-zero_iff : (s : Str) → (all (λ b. b == b'0') s ≡ false) ↔ Any (λ c. c ≢ b'0') s
not-all-zero_iff [] = (λ h. cc, λ h. absurd h)
not-all-zero_iff (c ∷ s) = ground (arith, not-all-zero_iff s)

pub valid_sha_iff : (sha : Str) → (valid_sha sha ≡ true) ↔ IsSha sha
unfolding valid_sha
valid_sha_iff sha =
    ground (arith, str_len_of_hex sha, not-all-zero_iff sha, all_iff is_hexdigit sha)

module _ (p : AdmissionPolicy) (r : AdmissionRequest) where
  -- The change itself is within the policy, whatever the load is.
  pub record IsAllowed : Type 0 where
    pub files : (r.projected.new_workflow_files ≡ 0) ⊎ (p.allow_new_workflow_files ≡ true)
    pub triggers : (r.projected.trigger_expansions ≡ 0) ⊎ (p.allow_trigger_expansion ≡ true)
    pub approval :
        ((r.operation ≢ release) × (r.operation ≢ deployment)) ⊎ (r.approval ≡ human_approved)
    pub workflows : r.projected.automatic_workflows ≤ p.max_automatic_workflows_per_change
    pub jobs : r.projected.runner_jobs ≤ p.max_runner_jobs_per_change

module _ (p : AdmissionPolicy) (r : AdmissionRequest) (s : BudgetSnapshot) where
  -- There is room for `m` more minutes and for one more unit of work.
  pub record HasRoom (m : ℕ) : Type 0 where
    pub per_change : m ≤ p.max_reserved_minutes_per_change
    pub per_day : s.reserved_minutes_today + m ≤ p.max_reserved_minutes_per_day
    pub estate : s.estate_inflight < p.max_inflight_estate
    pub repository : s.repository_inflight < p.max_inflight_repository
    pub estate_prs :
        (r.operation ≢ create_pull_request)
        ⊎ (s.estate_open_automation_prs < p.max_open_automation_prs_estate)
    pub repository_prs :
        (r.operation ≢ create_pull_request)
        ⊎ (s.repository_open_automation_prs < p.max_open_automation_prs_repository)

  -- The snapshot is complete, recent and about the requested head, and no sum overflows.
  pub record IsEvidenced (now m : ℕ) : Type 0 where
    pub complete : s.data_complete ≡ true
    pub past : s.captured_at_unix_seconds ≤ now
    pub recent : now ≤ s.captured_at_unix_seconds + p.max_snapshot_age_seconds
    pub sha : IsSha r.head_sha
    pub same_head : r.head_sha ≡ s.observed_head_sha
    pub cost :
        r.projected.runner_jobs * r.projected.max_job_timeout_minutes
          + r.projected.fixed_runner_minutes
        ≡ m
    pub fits : s.reserved_minutes_today + m < u64_end

  capacity_iff :
      (m m' : ℕ)
      → (admit_by_capacity p r s m (s.reserved_minutes_today + m) ≡ admit m')
        ↔ ((m ≡ m') × HasRoom m)
  unfolding admit_by_capacity
  capacity_iff m m' = ground arith

  known_iff :
      (m d m' : ℕ)
      → (admit_known p r s m d ≡ admit m')
        ↔ (IsAllowed p r × (admit_by_capacity p r s m d ≡ admit m'))
  unfolding admit_known
  known_iff m d m' = ground arith

  topology_iff :
      (t : TopologyKnowledge) (m m' : ℕ)
      → (admit_by_topology p r s t m (s.reserved_minutes_today + m) ≡ admit m')
        ↔ ((m ≡ m') × (t ≡ known) × IsAllowed p r × HasRoom m)
  unfolding admit_by_topology
  topology_iff known m m' =
      ground (arith, known_iff m (s.reserved_minutes_today + m) m', capacity_iff m m')
  topology_iff _ m m' = ground arith

  cost_iff :
      (o : Option ℕ) (m' : ℕ)
      → (admit_by_cost p r s o ≡ admit m') ↔ (
          (o ≡ some m')
          × (s.reserved_minutes_today + m' < u64_end)
          × (r.projected.topology ≡ known)
          × IsAllowed p r
          × HasRoom m')
  unfolding admit_by_cost
  cost_iff none m' = ground arith
  cost_iff (some m) m' = ground (arith, topology_iff r.projected.topology m m')

  evidence_iff :
      (now m' : ℕ)
      → (admit_by_evidence p r s now ≡ admit m')
        ↔ (IsEvidenced now m' × (r.projected.topology ≡ known) × IsAllowed p r × HasRoom m')
  unfolding admit_by_evidence
  evidence_iff now m' = ground (
    arith,
    cost_iff (reserved_minutes r.projected) m',
    reserved_minutes-eq-some_iff r.projected m',
    str_eq_iff r.head_sha s.observed_head_sha,
    valid_sha_iff r.head_sha,
  )

-- Everything that an admission rests on: a policy, a snapshot, sound evidence for a reservation of
-- `m` minutes, a change within the policy, and room for it.
abbrev pub IsAdmissible :
    Option AdmissionPolicy → AdmissionRequest → Option BudgetSnapshot → ℕ → ℕ → Type 0
IsAdmissible (some p) r (some s) now m =
    IsEvidenced p r s now m × (r.projected.topology ≡ known) × IsAllowed p r × HasRoom p r s m
IsAdmissible _ r _ now m = ⊥

-- A request is admitted with `m` reserved minutes exactly when policy and snapshot are there, the
-- snapshot is complete, recent and about the requested head, the reservation and the day's total are
-- computed without overflow, the change is within the policy, and no ceiling is reached.
pub evaluate_admission-admit_iff :
    (policy : Option AdmissionPolicy) (r : AdmissionRequest) (snapshot : Option BudgetSnapshot)
    (now m : ℕ)
    → (evaluate_admission policy r snapshot now ≡ admit m) ↔ IsAdmissible policy r snapshot now m
unfolding evaluate_admission
evaluate_admission-admit_iff none r snapshot now m = ground arith
evaluate_admission-admit_iff (some p) r none now m = ground arith
evaluate_admission-admit_iff (some p) r (some s) now m = evidence_iff p r s now m
