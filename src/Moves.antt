-- ===== src/Moves.antt =====
-- crates/squabble-core/src/moves.rs: the moves that the engine may propose against a stuck gate.
pub mod Describe
use cicd_squabbler.Prelude.{
  ℕ, ◌-◌, Option, none, some, List, [], ◌∷◌, Str, ◌==◌, if◌then◌else◌, leb, utf8_width, str_len,
  ◌>>=◌,
}

pub data ExpertGroup : Type 0 where
  hypatia hypatia_fleet proof security gate_triage : ExpertGroup

pub data EscalationKind : Type 0 where
  assess_confidence dispatch_fix verify_claim scan : EscalationKind

pub data OwnershipDisposition : Type 0 where
  should_be_added_to_ci ownerless : OwnershipDisposition
  misconfigured_gate : (detail : Str) → OwnershipDisposition
  owned_upstream : (repo : Str) → OwnershipDisposition

pub data LicenceFinding : Type 0 where
  needs_ground_truth : LicenceFinding
  missing_licence_text : (missing : List Str) → LicenceFinding
  root_display_mismatch : (found : Str) → LicenceFinding
  header_drift : (files : List Str) (expected : Str) → LicenceFinding

pub data LicenceResolution : Type 0 where
  author_allowed author_new_repo_else_owner_manual owner_manual unknown : LicenceResolution

unfoldable pub resolution : LicenceFinding → LicenceResolution
resolution (missing_licence_text _) = author_allowed
resolution (root_display_mismatch _) = author_new_repo_else_owner_manual
resolution (header_drift _ _) = owner_manual
resolution needs_ground_truth = unknown

pub data Move : Type 0 where
  reconcile_required_context : (required emitted : Str) → Move
  inject_path_filter_pass_through : (check workflow : Str) → Move
  repin_reusable_workflow : (reference from_sha to_sha : Str) → Move
  resolve_and_rerun : (branch : Str) → Move
  ground_truth_check_names : (workflow : Str) → Move
  licence_policy_drift : (check : Str) (finding : LicenceFinding) → Move
  flag_non_functional_gate : (check evidence : Str) → Move
  escalate_to_expert :
      (check : Str) (group : ExpertGroup) (obligation : EscalationKind) (evidence : Str) → Move
  assign_gate_owner :
      (check owner : Str) (disposition : OwnershipDisposition) (rationale : Str) → Move
  pin_workflow_actions : (workflow : Str) (refs : List Str) → Move
  reconcile_actions_policy : (blocked_ref : Str) (add_patterns : List Str) → Move
  set_actions_allowed_all : Move
  repoint_to_canonical : (written canonical pin : Str) → Move
  allow_list_admission_required : (written canonical pattern : Str) → Move

-- `&s[..n]`, which panics (`none`) where byte `n` is not the end of a character.
unfoldable pub slice_to : ℕ → Str → Option Str
unfolding utf8_width
slice_to n [] = if n == 0 then some [] else none
slice_to n (c ∷ s) =
    let rest = slice_to (n - utf8_width c) s in
    if n == 0 then some [] else if leb (utf8_width c) n then (rest >>= λ r. some (c ∷ r)) else none

-- `short`: the first seven bytes of a SHA for display.
unfoldable pub short : Str → Option Str
unfolding slice_to str_len
short sha = if leb 7 (str_len sha) then slice_to 7 sha else some sha
