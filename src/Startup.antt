-- ===== src/Startup.antt =====
-- crates/squabble-core/src/startup.rs, first half: the caller's allow-list, the coordinates that a
-- workflow uses, and what resolving a repository's name concluded. `parse` and `rewritten` are the
-- methods of `Coordinate`; the attribution of a run is in Startup/Attribution.
pub mod Attribution
pub mod Texts
pub mod Admitted
pub mod Covered
pub mod Classes
pub mod Pins
pub mod Repoint
pub mod Reports
mod Samples
use cicd_squabbler.Prelude.{
  ℕ, Bool, true, false, not, ◌&&◌, ◌||◌, Option, none, some, is_some, ◌>>=◌, List, [], ◌∷◌, ◌++◌,
  is_nil, any, if_let, if◌then◌else◌, Str, codes, str_eq, starts_with, strip_suffix, first_part,
  rsplit_once, splitn,
}
use cicd_squabbler.Chains.{Pin, pin_parse, pin_str}

pub record AllowList : Type 0 where
  pub patterns : List Str
  pub github_owned_allowed : Bool
  pub verified_allowed : Bool

-- The closure of `covers` on one pattern's text before its "@ref".
unfoldable pub pattern_covers : Str → Str → Str → Bool
pattern_covers owner owner_repo base =
    str_eq base owner_repo
    || str_eq base (owner ++ codes "/*")
    || if_let (strip_suffix (codes "*") base)
        (λ prefix. not (is_nil prefix) && starts_with prefix owner_repo) false

unfoldable pub covers : AllowList → Str → Bool
unfolding pattern_covers
covers a owner_repo =
    let owner = first_part b'/' owner_repo in
    (a.github_owned_allowed && (str_eq owner (codes "actions") || str_eq owner (codes "github")))
    || any (λ p. pattern_covers owner owner_repo (first_part b'@' p)) a.patterns

unfoldable pub missing_pattern : AllowList → Str → Option Str
unfolding covers
missing_pattern a owner_repo = if covers a owner_repo then none else some (owner_repo ++ codes "@*")

unfoldable pub admission_unknown : AllowList → Str → Bool → Bool
unfolding covers
admission_unknown a owner_repo is_action =
    is_action && (a.verified_allowed && not (covers a owner_repo))

unfoldable pub is_empty : AllowList → Bool
is_empty a = is_nil a.patterns

pub record Coordinate : Type 0 where
  pub written : Str
  pub owner_repo : Str
  pub path : Option Str
  pub pin : Pin

-- `segs.next().filter(|s| !s.is_empty())` for the third segment.
unfoldable pub subpath : List Str → Option Str
subpath [] = none
subpath (s ∷ _) = if is_nil s then none else some s

unfoldable pub parse_path : Str → Pin → List Str → Option Coordinate
unfolding subpath
parse_path raw pin (owner ∷ (repo ∷ rest)) =
    if is_nil owner || is_nil repo
    then none
    else some (record {
      written = raw;
      owner_repo = owner ++ (codes "/" ++ repo);
      path = subpath rest;
      pin = pin;
    })
parse_path raw pin _ = none

unfoldable pub is_foreign : Str → Bool
is_foreign raw =
    starts_with (codes "./") raw
    || (starts_with (codes "$/") raw || starts_with (codes "docker://") raw)

unfoldable pub parse : Str → Option Coordinate
unfolding parse_path is_foreign
parse raw =
    if is_foreign raw
    then none
    else (rsplit_once b'@' raw >>= λ p.
        if is_nil p.1 then none else parse_path raw (pin_parse p.1) (splitn 3 b'/' p.0))

unfoldable pub rewritten : Coordinate → Str → Str
rewritten c canonical =
    canonical ++ (if_let c.path (λ p. codes "/" ++ p) [] ++ (codes "@" ++ pin_str c.pin))

pub data CanonicalResolution : Type 0 where
  canonical not_found : CanonicalResolution
  moved : (target : Str) → CanonicalResolution
  unverified : (reason : Str) → CanonicalResolution

-- `CanonicalResolution::canonical`
unfoldable pub target_of : CanonicalResolution → Option Str
target_of (moved target) = some target
target_of _ = none

unfoldable pub is_moved : CanonicalResolution → Bool
unfolding target_of
is_moved r = is_some (target_of r)
