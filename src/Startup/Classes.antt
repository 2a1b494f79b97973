-- ===== src/Startup/Classes.antt =====
-- Which class and which move the attribution of a run without jobs gives.
use cicd_squabbler.Prelude.{◌≡◌, ◌↔◌, ◌⊎◌, ◌≢◌, true, Option, none, some, ◌++◌, arith, Str, codes}
use cicd_squabbler.Moves
use cicd_squabbler.Moves.{Move}
use cicd_squabbler.Chains.{EdgeKind, reusable_workflow, action}
use cicd_squabbler.Startup.{
  AllowList, missing_pattern, admission_unknown, parse, CanonicalResolution, not_found, target_of,
  is_moved,
}
use cicd_squabbler.Startup.Covered.{Covers, covers_iff}
use cicd_squabbler.Startup.Attribution.{
  moved_coordinate, allow_list_admission_required, unattributed, effective, attribute_zero_job,
  proposed_move,
}

module _ (written : Str) (kind : EdgeKind) (resolution : CanonicalResolution) where
  -- There is a list, which does not cover the name, and which may not admit it as that of a verified
  -- creator: it is that of a reusable workflow, or the list admits no verified creators.
  abbrev pub Refuses : Option AllowList → Type 0
  Refuses none = ⊥
  Refuses (some a) =
      (¬ Covers a (effective written resolution))
      × ¬ ((kind ≡ action) × (a.verified_allowed ≡ true))

module _ (repo workflow written : Str) where
  -- A run is attributed to a moved coordinate exactly when a reusable workflow's repository moved, with
  -- and without an allow-list. It is attributed to the allow-list exactly when the coordinate is neither
  -- that nor dead, and there is a list that refuses the name that the repository goes by now: no pattern
  -- of it admits the name, it is not an owner of GitHub's that the list admits, and it is not the name
  -- of an action while the list admits verified creators. A name that could not be checked is taken as
  -- it is written.
  pub attribute_zero_job-class_iff :
      (kind : EdgeKind) (resolution : CanonicalResolution) (allow_list : Option AllowList)
      → let class = (attribute_zero_job repo workflow written kind resolution allow_list).class in
        ((class ≡ moved_coordinate) ↔ ((kind ≡ reusable_workflow) × (is_moved resolution ≡ true)))
        × ((class ≡ allow_list_admission_required) ↔ (
            (resolution ≢ not_found)
            × ((¬ ((kind ≡ reusable_workflow) × (is_moved resolution ≡ true)))
                × Refuses written kind resolution allow_list)))
  unfolding attribute_zero_job missing_pattern admission_unknown is_moved target_of
  attribute_zero_job-class_iff kind resolution none = ground arith
  attribute_zero_job-class_iff kind resolution (some a) =
      ground (arith, covers_iff a (effective written resolution))

  -- A pattern is only reported against an allow-list that does not cover the name that the repository
  -- goes by now, and it is the minimal pattern for that name.
  pub attribute_zero_job-pattern :
      (kind : EdgeKind) (resolution : CanonicalResolution) (a : AllowList) (p : Str)
      → (attribute_zero_job repo workflow written kind resolution
          (some a)).required_allow_list_pattern
        ≡ some p
      → missing_pattern a (effective written resolution) ≡ some p
  unfolding attribute_zero_job missing_pattern admission_unknown is_moved target_of
  attribute_zero_job-pattern kind resolution a p h = ground arith

  -- The proposed move of an attribution to the allow-list names the same repository as its pattern:
  -- the canonical one where it moved, and the one of the coordinate as written otherwise.
  pub proposed_move-admission :
      (kind : EdgeKind) (resolution : CanonicalResolution) (allow_list : Option AllowList)
      → (attribute_zero_job repo workflow written kind resolution allow_list).class
        ≡ allow_list_admission_required
      → proposed_move (attribute_zero_job repo workflow written kind resolution allow_list)
        ≡ some (
            Moves.allow_list_admission_required written
              (effective written resolution)
              (effective written resolution ++ codes "@*"))
  unfolding attribute_zero_job proposed_move missing_pattern admission_unknown is_moved target_of
  proposed_move-admission kind resolution allow_list h = ground arith

  -- No move is proposed exactly for an unattributed run and for a moved coordinate that does not
  -- parse.
  pub proposed_move-none_iff :
      (kind : EdgeKind) (resolution : CanonicalResolution) (allow_list : Option AllowList)
      → let a = attribute_zero_job repo workflow written kind resolution allow_list in
        (proposed_move a ≡ none)
        ↔ ((a.class ≡ unattributed) ⊎ ((a.class ≡ moved_coordinate) × (parse written ≡ none)))
  unfolding attribute_zero_job proposed_move missing_pattern admission_unknown is_moved target_of
  proposed_move-none_iff kind resolution allow_list = ground arith
