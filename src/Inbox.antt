-- ===== src/Inbox.antt =====
-- crates/squabble-core/src/inbox.rs: which notification threads are finished. `parse_u64` is
-- `str::parse::<u64>`, with the sign that it allows, and the map of `tally` is the function that its
-- `get` computes.
mod Subjects
mod Counts
mod Samples
use cicd_squabbler.Prelude.{
  ℕ, ◌+◌, ◌-◌, ◌*◌, Bool, true, false, not, ◌&&◌, ◌||◌, ◌==◌, leb, Option, none, some, is_none,
  is_lit, unwrap_or, ◌>>=◌, List, [], ◌∷◌, ◌++◌, is_nil, if◌then◌else◌, Str, codes, str_eq,
  strip_prefix, split, is_digit,
}
use cicd_squabbler.Chains.{RepoId}

pub record Thread : Type 0 where
  pub id : Str
  pub reason : Str
  pub subject_type : Str
  pub repo : RepoId
  pub subject_url : Option Str
  pub unread : Bool
  pub updated_at : Str

pub record SubjectRef : Type 0 where
  pub repo : RepoId
  pub number : ℕ

abbrev pub u64_max : ℕ
u64_max = 18446744073709551615

-- The digits behind the sign, most significant first; `none` on overflow.
unfoldable pub parse_digits : ℕ → Str → Option ℕ
parse_digits value [] = some value
parse_digits value (c ∷ s) =
    let next = value * 10 + (c - b'0') in
    let rest = parse_digits next s in if is_digit c && leb next u64_max then rest else none

unfoldable pub parse_u64 : Str → Option ℕ
unfolding parse_digits
parse_u64 [] = none
parse_u64 (c ∷ s) =
    if c == b'+' then (if is_nil s then none else parse_digits 0 s) else parse_digits 0 (c ∷ s)

unfoldable pub from_parts : List Str → Option SubjectRef
unfolding parse_u64
from_parts (owner ∷ (name ∷ (kind ∷ (number ∷ [])))) =
    if is_nil owner
      || (is_nil name || not (str_eq kind (codes "pulls") || str_eq kind (codes "issues")))
    then none
    else (parse_u64 number >>= λ n.
        some (record { repo = record { slug = owner ++ (codes "/" ++ name) }; number = n }))
from_parts _ = none

unfoldable pub from_api_url : Str → Option SubjectRef
unfolding from_parts
from_api_url url = strip_prefix (codes "https://api.github.com/repos/") url >>= λ rest.
    from_parts (split b'/' rest)

pub data SubjectState : Type 0 where
  opened merged closed : SubjectState
  unknown : (reason : Str) → SubjectState

pub data Verdict : Type 0 where
  clear_merged clear_closed keep_open keep_unknown_state keep_unsupported_subject : Verdict

unfoldable pub clears : Verdict → Bool
clears clear_merged = true
clears clear_closed = true
clears _ = false

-- `Verdict::label`
unfoldable pub verdict_label : Verdict → Str
verdict_label clear_merged = codes "clear: subject merged"
verdict_label clear_closed = codes "clear: subject closed"
verdict_label keep_open = codes "keep: subject still open"
verdict_label keep_unknown_state = codes "keep: subject state could not be read"
verdict_label keep_unsupported_subject = codes "keep: not a pull request or issue"

unfoldable pub subject_of : Thread → Option SubjectRef
unfolding from_api_url
subject_of t =
    if not (str_eq t.subject_type (codes "PullRequest") || str_eq t.subject_type (codes "Issue"))
    then none
    else (t.subject_url >>= from_api_url)

-- The `match` of `decide` on the state.
unfoldable pub decide_state : Option SubjectState → Verdict
decide_state (some merged) = clear_merged
decide_state (some closed) = clear_closed
decide_state (some opened) = keep_open
decide_state (some (unknown _)) = keep_unknown_state
decide_state none = keep_unknown_state

unfoldable pub decide : Thread → Option SubjectState → Verdict
unfolding subject_of decide_state
decide t state = if is_none (subject_of t) then keep_unsupported_subject else decide_state state

unfoldable pub verdict_eq : Verdict → Verdict → Bool
verdict_eq clear_merged clear_merged = true
verdict_eq clear_closed clear_closed = true
verdict_eq keep_open keep_open = true
verdict_eq keep_unknown_state keep_unknown_state = true
verdict_eq keep_unsupported_subject keep_unsupported_subject = true
verdict_eq _ _ = false

-- `*m.entry(v).or_insert(0) += 1`
unfoldable pub bump : (Verdict → Option ℕ) → Verdict → Verdict → Option ℕ
unfolding verdict_eq
bump m v w = if verdict_eq v w then some (unwrap_or (m w) 0 + 1) else m w

unfoldable pub tally_from : (Verdict → Option ℕ) → List Verdict → Verdict → Option ℕ
unfolding bump
tally_from m [] = m
tally_from m (v ∷ vs) = tally_from (bump m v) vs

unfoldable pub tally : List Verdict → Verdict → Option ℕ
unfolding tally_from
tally vs = tally_from (λ _. none) vs
