-- ===== src/Fight/Context.antt =====
-- crates/squabble-fight/src/context.rs: what the descriptiles of a repository say of it. `read` is
-- the text of a descriptile, empty where it cannot be read.
use cicd_squabbler.Prelude.{
  ℕ, Bool, false, not, ◌==◌, ◌&&◌, ◌||◌, if◌then◌else◌, Option, none, some, if_let, List, [], ◌∷◌,
  ◌++◌, any, is_nil, Str, codes, lines, trim, trim_start, starts_with, contains, strip_prefix, mem,
  to_ascii_lowercase,
}

-- `push_quoted`: the text since an opening quote, after one more character.
unfoldable pub advance : Option Str → ℕ → Option Str
advance none c = if c == 34 then some [] else none
advance (some t) c = if c == 34 then none else some (t ++ c ∷ [])

unfoldable pub closed : Option Str → ℕ → List Str
closed none c = []
closed (some t) c = if c == 34 then t ∷ [] else []

unfoldable pub quoted_from : Option Str → Str → List Str
unfolding advance closed
quoted_from inside [] = []
quoted_from inside (c ∷ s) = closed inside c ++ quoted_from (advance inside c) s

unfoldable pub push_quoted : Str → List Str → List Str
unfolding quoted_from
push_quoted line out = out ++ quoted_from none line

-- `rest.starts_with('=') || rest.starts_with(':')` behind the key.
unfoldable pub assigns : Str → Str → Bool
assigns key line =
    if_let (strip_prefix key (trim line))
      (λ rest.
        starts_with (codes "=") (trim_start rest) || starts_with (codes ":") (trim_start rest))
      false

unfoldable pub opens_array : Str → Str → Bool
unfolding assigns
opens_array key line = assigns key line && contains line (codes "[")

-- The loop of `extract_array`, and whether it is collecting.
unfoldable pub array_from : Str → Bool → List Str → List Str
unfolding opens_array quoted_from
array_from key collecting [] = []
array_from key collecting (line ∷ ls) =
    let rest = array_from key (collecting || opens_array key line) ls in
    if collecting || opens_array key line
    then quoted_from none line
      ++ (if contains (if collecting then trim line else line) (codes "]") then [] else rest)
    else rest

unfoldable pub extract_array : Str → Str → List Str
unfolding array_from
extract_array text key = array_from key false (lines text)

unfoldable pub first_quoted : List Str → Option Str
first_quoted [] = none
first_quoted (t ∷ _) = some t

unfoldable pub scalar_in : Str → List Str → Option Str
unfolding assigns quoted_from first_quoted
scalar_in key [] = none
scalar_in key (line ∷ ls) =
    let rest = scalar_in key ls in
    if assigns key line
    then if_let (first_quoted (quoted_from none line)) (λ t. some t) rest
    else rest

unfoldable pub quoted_scalar : Str → Str → Option Str
unfolding scalar_in
quoted_scalar text key = scalar_in key (lines text)

abbrev pub banned_candidates : List Str
banned_candidates =
    codes "AGPL"
    ∷ codes "TypeScript"
    ∷ codes "Python"
    ∷ codes "Go"
    ∷ codes "Nix"
    ∷ codes "Node"
    ∷ codes "npm"
    ∷ codes "Ruby"
    ∷ codes "Perl"
    ∷ codes "Kotlin"
    ∷ codes "Swift"
    ∷ []

unfoldable pub signals_ban : Str → Bool
signals_ban line =
    let lower = to_ascii_lowercase line in
    contains lower (codes "banned")
    || (contains lower (codes "never use")
        || (contains lower (codes "deny") || contains lower (codes "agpl")))

unfoldable pub push_banned : Str → List Str → List Str → List Str
push_banned line out [] = out
push_banned line out (candidate ∷ rest) =
    push_banned line
      (if contains line candidate && not (mem candidate out) then out ++ candidate ∷ [] else out)
      rest

unfoldable pub banned_from : List Str → List Str → List Str
unfolding signals_ban push_banned
banned_from out [] = out
banned_from out (line ∷ ls) =
    banned_from (if signals_ban line then push_banned line out banned_candidates else out) ls

unfoldable pub extract_banned : Str → List Str
unfolding banned_from
extract_banned text = banned_from [] (lines text)

unfoldable pub normalise_owner : Str → Str
normalise_owner raw = if any (λ c. c == b'/') raw then raw else codes "hyperpolymath/" ++ raw

pub record RepoContext : Type 0 where
  pub is : List Str
  pub is_not : List Str
  pub coordination_owner : Option Str
  pub golden_path : Option Str
  pub banned_langs : List Str
  pub relationships : List Str
  pub found : Bool

unfoldable pub from_sources : Str → Str → Str → Str → RepoContext
unfolding quoted_scalar extract_array normalise_owner extract_banned
from_sources ecosystem clade anchor agentic = record {
  is = if_let (quoted_scalar anchor (codes "defines")) (λ t. t ∷ []) [];
  is_not = extract_array ecosystem (codes "not");
  coordination_owner =
      if_let (quoted_scalar ecosystem (codes "coordination")) (λ t. some (normalise_owner t)) none;
  golden_path = quoted_scalar anchor (codes "command");
  banned_langs = extract_banned agentic;
  relationships = extract_array ecosystem (codes "related");
  found = false;
}

unfoldable pub load_context : (Str → Str) → RepoContext
unfolding from_sources
load_context read =
    let ecosystem = read (codes "ECOSYSTEM.a2ml") in
    let clade = read (codes "CLADE.a2ml") in
    let anchor = read (codes "ANCHOR.a2ml") in
    let agentic = read (codes "AGENTIC.a2ml") in
    record (from_sources ecosystem clade anchor agentic) {
      found = any (λ s. not (is_nil s)) (ecosystem ∷ clade ∷ anchor ∷ agentic ∷ []);
    }
