-- ===== src/Startup/Reports.antt =====
-- crates/squabble-core/src/startup.rs: the one-line texts of a resolution and of an attribution, and
-- the records of the report that a host fills.
use cicd_squabbler.Prelude.{
  ◌≡◌, refl, ℕ, Bool, not, Option, none, some, if_let, List, [], ◌++◌, is_nil, Str, codes,
}
use cicd_squabbler.Prelude.Int.{ℤ}
use cicd_squabbler.Startup.{CanonicalResolution, canonical, moved, not_found, unverified}
use cicd_squabbler.Startup.Attribution.{
  StartupFailureClass, moved_coordinate, allow_list_admission_required, invalid_actions_lock,
  actions_lock_mismatch, unattributed, ZeroJobAttribution,
}

unfoldable pub describe_resolution : CanonicalResolution → Option Str
describe_resolution canonical = none
describe_resolution (moved target) =
    some
      (codes "resolves to `" ++ (target ++ codes "` (renamed or transferred) — repoint, same pin"))
describe_resolution not_found = some (codes "does not resolve (404) — dead for this reader")
describe_resolution (unverified reason) = some (codes "unverified — " ++ reason)

unfoldable pub failure_label : StartupFailureClass → Str
failure_label moved_coordinate = codes "moved coordinate"
failure_label allow_list_admission_required = codes "allow-list admission required"
failure_label invalid_actions_lock = codes "invalid native Actions lock"
failure_label actions_lock_mismatch = codes "Actions lock/workflow mismatch"
failure_label unattributed = codes "unattributed"

unfoldable pub describe_attribution : ZeroJobAttribution → Str
unfolding failure_label
describe_attribution a =
    failure_label a.class
    ++ (codes ": `"
        ++ (a.coordinate
            ++ (codes "`"
                ++ (if_let a.canonical (λ c. codes " → canonical `" ++ (c ++ codes "`")) []
                    ++ (codes " in `"
                        ++ (a.workflow
                            ++ (codes "`"
                                ++ (if_let a.required_allow_list_pattern
                                      (λ p. codes " (needs allow-list `" ++ (p ++ codes "`)")) []
                                    ++ (codes " — " ++ a.evidence)))))))))

pub data NativeLockStatus : Type 0 where
  verified malformed coverage_mismatch lock_unverified : NativeLockStatus

pub record NativeLockVerification : Type 0 where
  pub head_sha : Str
  pub verifier : Str
  pub tool_version : Str
  pub exit_code : Option ℤ
  pub status : NativeLockStatus
  pub stdout : Str
  pub stderr : Str
  pub reason : Str

pub record ZeroJobRun : Type 0 where
  pub id : ℕ
  pub conclusion : Str
  pub head_sha : Option Str
  pub workflow_file : Str
  pub workflow_name : Option Str
  pub jobs : Option ℕ

pub record ZeroJobRunAttribution : Type 0 where
  pub run_id : ℕ
  pub head_sha : Option Str
  pub workflow : Str
  pub jobs : Option ℕ
  pub attributions : List ZeroJobAttribution

pub record ZeroJobReport : Type 0 where
  pub repo : Str
  pub checkout_head_sha : Option Str
  pub lock_verification : Option NativeLockVerification
  pub runs : List ZeroJobRunAttribution
  pub notes : List Str

unfoldable pub has_findings : ZeroJobReport → Bool
has_findings report = not (is_nil report.runs)

described :
    describe_resolution (unverified (codes "rate limit")) ≡ some (codes "unverified — rate limit")
unfolding describe_resolution
described = refl
