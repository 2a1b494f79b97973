-- ===== src/Startup/Attribution.antt =====
-- crates/squabble-core/src/startup.rs, second half: which cause a run without jobs is attributed to,
-- and which move follows. `attribute` is `attribute_zero_job` on a parsed coordinate.
use cicd_squabbler.Prelude.{
  Bool, true, false, ◌&&◌, ◌==◌, Option, none, some, or_else, unwrap_or, ◌>>=◌, List, [], all,
  if_let, if◌then◌else◌, Str, str_len, is_hexdigit, eq_ignore_ascii_case,
}
use cicd_squabbler.Gate
use cicd_squabbler.Gate.{MissingCause, moved_upstream_coordinate}
use cicd_squabbler.Moves
use cicd_squabbler.Moves.{Move, repoint_to_canonical}
use cicd_squabbler.Chains.{EdgeKind, reusable_workflow, action, pin_str}
use cicd_squabbler.Startup.Texts.{
  dead_evidence, moved_evidence, verified_evidence, named, refused_evidence, open_evidence,
  moved_steps, admission_steps,
}
use cicd_squabbler.Startup.{
  AllowList, missing_pattern, admission_unknown, is_empty, parse, CanonicalResolution, canonical,
  moved, not_found, unverified, target_of, is_moved,
}

pub data StartupFailureClass : Type 0 where
  moved_coordinate allow_list_admission_required invalid_actions_lock : StartupFailureClass
  actions_lock_mismatch unattributed : StartupFailureClass

pub record ZeroJobAttribution : Type 0 where
  pub repo : Str
  pub workflow : Str
  pub coordinate : Str
  pub canonical : Option Str
  pub required_allow_list_pattern : Option Str
  pub class : StartupFailureClass
  pub evidence : Str
  pub sequencing : List Str

repoint : Str → Option Str → Option Move
repoint written none = none
repoint written (some target) =
    parse written >>= λ c. some (repoint_to_canonical written target (pin_str c.pin))

admit : Str → Option Str → Option Str → Option Move
admit written target none = none
admit written target (some pattern) = some (
    Moves.allow_list_admission_required written
      (unwrap_or (or_else target (parse written >>= λ c. some c.owner_repo)) written) pattern)

move_for : StartupFailureClass → Str → Option Str → Option Str → Option Move
unfolding repoint admit
move_for moved_coordinate written target pattern = repoint written target
move_for allow_list_admission_required written target pattern = admit written target pattern
move_for _ written target pattern = none

unfoldable pub proposed_move : ZeroJobAttribution → Option Move
unfolding move_for
proposed_move a = move_for a.class a.coordinate a.canonical a.required_allow_list_pattern

cause_for : StartupFailureClass → Option MissingCause
cause_for moved_coordinate = some moved_upstream_coordinate
cause_for allow_list_admission_required = some Gate.allow_list_admission_required
cause_for _ = none

unfoldable pub missing_cause : ZeroJobAttribution → Option MissingCause
unfolding cause_for
missing_cause a = cause_for a.class

abbrev pub is_action : EdgeKind → Bool
is_action action = true
is_action reusable_workflow = false

-- `written_repo` and `effective` of `attribute_zero_job`.
abbrev pub written_repo : Str → Str
written_repo written = if_let (parse written) (λ c. c.owner_repo) written

abbrev pub effective : Str → CanonicalResolution → Str
effective written resolution = unwrap_or (target_of resolution) (written_repo written)

module _ (repo workflow written : Str) (kind : EdgeKind) (resolution : CanonicalResolution)
    (allow_list : Option AllowList) where
  found : Option Str → Option Str → StartupFailureClass → Str → List Str → ZeroJobAttribution
  found target pattern class evidence sequencing = record {
    repo = repo;
    workflow = workflow;
    coordinate = written;
    canonical = target;
    required_allow_list_pattern = pattern;
    class = class;
    evidence = evidence;
    sequencing = sequencing;
  }

  -- (b) and the fail-closed end.
  attribute_pattern : Option Str → ZeroJobAttribution
  unfolding found named refused_evidence open_evidence admission_steps
  attribute_pattern (some pattern) =
      let empty = if_let allow_list is_empty false in
      found (target_of resolution) (some pattern) allow_list_admission_required
        (refused_evidence written (named resolution (effective written resolution)))
        (admission_steps pattern (effective written resolution) (written_repo written) empty
          (is_moved resolution))
  attribute_pattern none =
      found (target_of resolution) none unattributed (open_evidence written kind resolution) []

  -- (b0)
  attribute_admission : Option Str → Bool → ZeroJobAttribution
  unfolding attribute_pattern found verified_evidence
  attribute_admission required unknown =
      if unknown
      then found (target_of resolution) none unattributed (verified_evidence written) []
      else attribute_pattern required

  -- From the dead coordinate on: (a), (b0), (b) and the end.
  attribute : CanonicalResolution → EdgeKind → Option Str → Bool → ZeroJobAttribution
  unfolding attribute_admission found dead_evidence moved_evidence moved_steps
  attribute not_found k required unknown =
      found none required unattributed (dead_evidence written) []
  attribute (moved target) reusable_workflow required unknown =
      found (some target) required moved_coordinate (moved_evidence written target)
        (moved_steps written (parse written) target required)
  attribute (moved target) action required unknown = attribute_admission required unknown
  attribute canonical k required unknown = attribute_admission required unknown
  attribute (unverified reason) k required unknown = attribute_admission required unknown

  unfoldable pub attribute_zero_job : ZeroJobAttribution
  unfolding attribute
  attribute_zero_job =
      attribute resolution kind
        (allow_list >>= λ a. missing_pattern a (effective written resolution))
        (if_let allow_list
          (λ a. admission_unknown a (effective written resolution) (is_action kind)) false)

abbrev is_sha : Str → Bool
is_sha s = str_len s == 40 && all is_hexdigit s

unfoldable pub same_source_revision : Option Str → Option Str → Bool
same_source_revision (some a) (some b) = is_sha a && (is_sha b && eq_ignore_ascii_case a b)
same_source_revision _ _ = false
