-- ===== src/Chains/Findings.antt =====
-- crates/squabble-core/src/chains.rs, `Finding`, its severity and its text, and the records of a
-- report. The count `{}` of an integer is `decimal`.
use cicd_squabbler.Prelude.{
  ℕ, Bool, true, false, if◌then◌else◌, Option, List, [], ◌++◌, map, any, is_nil, length, Str,
  str_eq, str_lt, codes, decimal, join,
}
use cicd_squabbler.Chains.{RepoId, Pin, pin_str, Edge, ScanStatus}
use cicd_squabbler.Chains.Keys.{insert_keys}
use cicd_squabbler.Chains.Routes.{scanned_revision_only, Route, basis_eq}

pub record PinUse : Type 0 where
  pub pin : Pin
  pub version_hints : List Str
  pub consumers : List Edge

pub data Severity : Type 0 where
  warning blocking : Severity

pub data Finding : Type 0 where
  cycle : (repos : List RepoId) → Finding
  dead_upstream : (target : RepoId) (consumers : List Edge) → Finding
  moved_upstream :
      (written canonical : RepoId) (consumers unconfirmed_consumers : List Edge) → Finding
  diamond : (consumer target : RepoId) (routes : List Route) → Finding
  pin_skew : (target : RepoId) (pins : List PinUse) → Finding
  mutable_pins : (consumer : RepoId) (uses : List Edge) → Finding

unfoldable pub severity : Finding → Severity
severity (cycle repos) = blocking
severity (dead_upstream target consumers) = blocking
severity (moved_upstream written canonical consumers unconfirmed) =
    if is_nil consumers then warning else blocking
severity (diamond consumer target routes) = warning
severity (pin_skew target pins) = warning
severity (mutable_pins consumer uses) = warning

unfoldable pub join_repos : List RepoId → Str
join_repos repos = join (codes " ↔ ") (map (λ r. r.slug) repos)

unfoldable pub describe_moved : RepoId → RepoId → List Edge → List Edge → Str
describe_moved written canonical consumers unconfirmed =
    codes "moved upstream `"
    ++ (written.slug
        ++ (codes "` → canonical `"
            ++ (canonical.slug
                ++ (codes "`: "
                    ++ ((if is_nil consumers
                          then codes
                              "no reference is confirmed in a requested subject or its pinned dependencies"
                          else decimal (length consumers)
                            ++ codes
                                " confirmed reference(s) still name the old coordinate. Actions does not redirect `uses:`; a moved reusable can cause a zero-job `startup_failure`. Review repointing while retaining the pin")
                        ++ (if is_nil unconfirmed
                            then []
                            else codes "; "
                              ++ (decimal (length unconfirmed)
                                  ++ codes
                                      " reference(s) were observed only at an unconfirmed upstream revision and require inspection at the caller's exact pin")))))))

-- The distinct texts of the pins, in order.
unfoldable pub pin_texts : List Route → List Str
pin_texts routes = insert_keys str_eq str_lt [] (map (λ r. pin_str r.pin) routes)

unfoldable pub describe_diamond : RepoId → RepoId → List Route → Str
describe_diamond consumer target routes =
    codes "diamond: `"
    ++ (consumer.slug
        ++ (codes "` receives `"
            ++ (target.slug
                ++ (codes "` at "
                    ++ (decimal (length (pin_texts routes))
                        ++ (codes " pins ("
                            ++ (join (codes ", ") (pin_texts routes)
                                ++ (codes ")"
                                    ++ (if any (λ r. basis_eq r.basis scanned_revision_only) routes
                                        then codes
                                            " — partly read at a revision other than the one pinned"
                                        else [])))))))))

unfoldable pub describe_finding : Finding → Str
describe_finding (cycle repos) =
    codes "cycle: " ++ (join_repos repos ++ codes " depend on each other; no landing order exists")
describe_finding (dead_upstream target consumers) =
    codes "dead upstream `"
    ++ (target.slug
        ++ (codes "`: "
            ++ (decimal (length consumers)
                ++ codes " reference(s) cannot resolve, so their jobs never run")))
describe_finding (moved_upstream written canonical consumers unconfirmed) =
    describe_moved written canonical consumers unconfirmed
describe_finding (diamond consumer target routes) = describe_diamond consumer target routes
describe_finding (pin_skew target pins) =
    codes "pin skew: `"
    ++ (target.slug
        ++ (codes "` pinned at "
            ++ (decimal (length pins) ++ codes " different refs across consumers")))
describe_finding (mutable_pins consumer uses) =
    codes "`"
    ++ (consumer.slug
        ++ (codes "` pins "
            ++ (decimal (length uses) ++ codes " upstream ref(s) by tag/branch instead of SHA")))

pub record SourceCost : Type 0 where
  pub queries : ℕ
  pub points_used : ℕ
  pub points_remaining : Option ℕ
  pub resets_at : Option Str
  pub rest_calls : ℕ

pub record ChainsReport : Type 0 where
  pub summary : Str
  pub scans : List (RepoId × ScanStatus)
  pub edge_count : ℕ
  pub findings : List Finding
  pub frontier : List RepoId
  pub landing_order : Option (List RepoId)
  pub critical_chain : List RepoId
  pub notes : List Str
  pub canonical : List (RepoId × RepoId)
  pub cost : Option SourceCost

-- `f.severity() == Severity::Blocking`
unfoldable pub is_blocking : Finding → Bool
unfolding severity
is_blocking f = elim (severity f) [ blocking ↦ true | warning ↦ false ]

unfoldable pub has_blocking : ChainsReport → Bool
unfolding is_blocking
has_blocking report = any is_blocking report.findings
