-- ===== src/Startup/Samples.antt =====
-- A moved reusable workflow, an allow-list, and the theorems about them applied.
use cicd_squabbler.Prelude.{
  ◌≡◌, refl, ◌↔◌, ◌≢◌, true, false, none, some, [], ◌∷◌, ◌++◌, All, arith, Str, codes, str_eq,
  str_len, starts_with, strip_suffix, first_part, rsplit_once, splitn, is_hexdigit, is_digit,
  utf8_width, to_lower, to_ascii_lowercase,
}
use cicd_squabbler.Chains.{reusable_workflow, action, mutable, pin_parse, pin_str}
use cicd_squabbler.Startup.{
  AllowList, pattern_covers, covers, missing_pattern, admission_unknown, is_empty, Coordinate,
  subpath, parse_path, is_foreign, parse, rewritten, moved, canonical, not_found, target_of,
  is_moved,
}
use cicd_squabbler.Startup.Attribution.{
  moved_coordinate, allow_list_admission_required, attribute_zero_job, proposed_move, missing_cause,
  same_source_revision,
}
use cicd_squabbler.Startup.Repoint.{IsName, parse-rewritten}
use cicd_squabbler.Startup.Classes.{Refuses, attribute_zero_job-class_iff}

abbrev estate : AllowList
estate = record {
  patterns = codes "octo/*" ∷ codes "acme/lint@v1" ∷ [];
  github_owned_allowed = true;
  verified_allowed = false;
}

abbrev used : Str
used = codes "acme/ci/.github/workflows/x.yml@v2"

abbrev parsed : Coordinate
parsed = record {
  written = used;
  owner_repo = codes "acme/ci";
  path = some (codes ".github/workflows/x.yml");
  pin = mutable (codes "v2");
}

startup_opened : Unit {0}
unfolding str_eq str_len starts_with strip_suffix first_part rsplit_once splitn is_hexdigit is_digit
    utf8_width to_lower to_ascii_lowercase pin_parse pin_str pattern_covers covers missing_pattern
    admission_unknown is_empty subpath parse_path is_foreign parse rewritten target_of is_moved
    attribute_zero_job proposed_move missing_cause
startup_opened = tt

parse-used : parse used ≡ some parsed
unfolding startup_opened
parse-used = refl

parse-local : parse (codes "./.github/actions/x@v1") ≡ none
unfolding startup_opened
parse-local = refl

covers-estate : covers estate (codes "acme/lint") ≡ true
unfolding startup_opened
covers-estate = refl

covers-owned : covers estate (codes "actions/checkout") ≡ true
unfolding startup_opened
covers-owned = refl

missing-estate : missing_pattern estate (codes "acme/ci") ≡ some (codes "acme/ci@*")
unfolding startup_opened
missing-estate = refl

class-used :
    (attribute_zero_job
      (codes "octo/app")
      (codes "ci.yml")
      used
      reusable_workflow
      (moved (codes "octo/ci"))
      (some estate)).class
    ≡ moved_coordinate
unfolding startup_opened
class-used = refl

class-refused :
    (attribute_zero_job
      (codes "octo/app")
      (codes "ci.yml")
      used
      action
      canonical
      (some estate)).class
    ≡ allow_list_admission_required
unfolding startup_opened
class-refused = refl

pattern-refused :
    (attribute_zero_job
      (codes "octo/app")
      (codes "ci.yml")
      used
      action
      canonical
      (some estate)).required_allow_list_pattern
    ≡ some (codes "acme/ci@*")
unfolding startup_opened
pattern-refused = refl

octo-IsName : IsName (codes "octo")
octo-IsName = (λ e. cc, ground arith)

ci2-IsName : IsName (codes "ci2")
ci2-IsName = (λ e. cc, ground arith)

at-free : All (λ c. c ≢ b'@') (codes "acme/ci")
at-free = ground arith

star-free : All (λ c. c ≢ b'*') (codes "acme/ci")
star-free = ground arith

parse-rewritten_example :
    parse (rewritten parsed (codes "octo" ++ (codes "/" ++ codes "ci2")))
    ≡ some (record parsed {
      written = rewritten parsed (codes "octo" ++ (codes "/" ++ codes "ci2"));
      owner_repo = codes "octo" ++ (codes "/" ++ codes "ci2");
    })
parse-rewritten_example =
    parse-rewritten used parsed (codes "octo") (codes "ci2") parse-used octo-IsName ci2-IsName
      (λ e. cc) (λ e. cc)

attribute_zero_job-class_iff_example :
    let class =
      (attribute_zero_job
        (codes "octo/app")
        (codes "ci.yml")
        used
        action
        canonical
        (some estate)).class in
    ((class ≡ moved_coordinate) ↔ ((action ≡ reusable_workflow) × (is_moved canonical ≡ true)))
    × ((class ≡ allow_list_admission_required) ↔ (
        (canonical ≢ not_found)
        × ((¬ ((action ≡ reusable_workflow) × (is_moved canonical ≡ true)))
            × Refuses used action canonical (some estate))))
attribute_zero_job-class_iff_example =
    attribute_zero_job-class_iff (codes "octo/app") (codes "ci.yml") used action canonical
      (some estate)

revisions-differ : same_source_revision (some (codes "abc")) (some (codes "abc")) ≡ false
unfolding same_source_revision startup_opened
revisions-differ = refl
