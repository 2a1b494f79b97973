-- ===== src/Workflows/Policy.antt =====
-- crates/squabble-fight/src/workflows.rs, `has_retired_descriptile_policy`: whether a `run` scalar
-- checks for a descriptile where it no longer is. Decoding a YAML string is the parameter `yaml`.
pub mod Slices
use cicd_squabbler.Prelude.{
  ◌+◌, ℕ, Bool, true, false, not, ◌&&◌, ◌||◌, ◌==◌, ltb, Option, none, some, unwrap_or, ◌>>=◌, List,
  [], ◌∷◌, ◌++◌, is_nil, any, if_let, if◌then◌else◌, or_else, Str, codes, str_eq, starts_with,
  ends_with, strip_prefix, trim, trim_start, trim_end, trim_matches, trim_end_matches, is_quote,
  is_whitespace, lines, slice_from, split_whitespace, mem,
}

abbrev pub one_of : List Str → Option Str → Bool
one_of names none = false
one_of names (some w) = mem w names

abbrev pub head : List Str → Option Str
head [] = none
head (w ∷ _) = some w

abbrev pub tail : List Str → List Str
tail [] = []
tail (_ ∷ ws) = ws

-- `if words.peek() is one of names { words.next(); }`
abbrev pub skip_word : List Str → List Str → List Str
skip_word names ws = if one_of names (head ws) then tail ws else ws

-- The path that a supported check asks for.
unfoldable pub check_target : List Str → Option Str
check_target ws =
    if one_of (codes "check_file" ∷ []) (head ws)
    then head (tail ws)
    else if one_of (codes "test" ∷ codes "[" ∷ codes "[[" ∷ []) (head ws)
    then (let rest = skip_word (codes "!" ∷ []) (tail ws) in
        if one_of (codes "-f" ∷ codes "-e" ∷ []) (head rest) then head (tail rest) else none)
    else none

unfoldable pub is_retired_path : Str → Bool
is_retired_path target =
    any
      (λ name.
        str_eq target (codes ".machine_readable/" ++ name ++ codes ".a2ml")
        || str_eq target (codes ".machine_readable/6a2/" ++ name ++ codes ".a2ml"))
      (codes "STATE"
        ∷ codes "META"
        ∷ codes "ECOSYSTEM"
        ∷ codes "AGENTIC"
        ∷ codes "NEUROSYM"
        ∷ codes "PLAYBOOK"
        ∷ codes "ANCHOR"
        ∷ [])

unfoldable pub command_has_retired_policy : Str → Bool
unfolding check_target is_retired_path
command_has_retired_policy command =
    let conditions = codes "if" ∷ codes "elif" ∷ codes "while" ∷ codes "until" ∷ [] in
    let ws = skip_word (codes "!" ∷ []) (skip_word conditions (split_whitespace command)) in
    if_let (check_target ws)
      (λ target. is_retired_path (trim_matches is_quote (trim_end_matches (λ c. c == b';') target)))
      false

-- The loop's state, `BlockState`.
pub data BlockState : Type 0 where
  outside : BlockState
  run : (min_indent : ℕ) (scalar : Str) → BlockState
  other_block : (min_indent : ℕ) → BlockState

-- `line.chars().take_while(|c| c.is_whitespace()).count()`
unfoldable pub leading : Str → ℕ
leading [] = 0
leading (c ∷ s) = let rest = leading s in if is_whitespace c then 1 + rest else 0

-- A blank line.
abbrev pub pass_blank : BlockState → BlockState
pass_blank (run min_indent scalar) = run min_indent (scalar ++ codes "\n")
pass_blank state = state

-- A line that is indented deeper than the block that is read.
abbrev pub is_inside : ℕ → BlockState → Bool
is_inside indent outside = false
is_inside indent (run min_indent _) = ltb min_indent indent
is_inside indent (other_block min_indent) = ltb min_indent indent

abbrev pub pass_inside : Str → BlockState → BlockState
pass_inside line (run min_indent scalar) = run min_indent (scalar ++ line ++ codes "\n")
pass_inside line state = state

unfoldable pub run_value : Str → Option Str
run_value trimmed =
    if_let (or_else (strip_prefix (codes "- run:") trimmed) (strip_prefix (codes "run:") trimmed))
      (λ value. some (trim_start value)) none

abbrev pub is_block_scalar : Str → Bool
is_block_scalar scalar = starts_with (codes "|") scalar || starts_with (codes ">") scalar

abbrev pub is_block_start : Str → Bool
is_block_start trimmed =
    ends_with (codes "|") trimmed
    || (ends_with (codes ">") trimmed
        || (ends_with (codes "|-") trimmed || ends_with (codes ">-") trimmed))

unfoldable pub state_behind : ℕ → Str → BlockState
unfolding run_value
state_behind indent trimmed =
    if_let (run_value trimmed)
      (λ scalar. if is_block_scalar scalar then run indent (scalar ++ codes "\n") else outside)
      (if is_block_start trimmed then other_block indent else outside)

-- One round of the loop: it returns `true`, or goes on in a state.
pub data LineOutcome : Type 0 where
  retired : LineOutcome
  goes_on : BlockState → LineOutcome

module _ (yaml : Str → Option Str) where
  unfoldable pub decoded_scalar_has_retired_policy : Str → Bool
  unfolding command_has_retired_policy
  decoded_scalar_has_retired_policy scalar =
      if_let (yaml scalar) (λ decoded. any command_has_retired_policy (lines decoded)) false

  -- The scalar that ends where the loop leaves a block, or where the text ends.
  unfoldable pub closes_retired : BlockState → Bool
  unfolding decoded_scalar_has_retired_policy
  closes_retired (run _ scalar) = decoded_scalar_has_retired_policy scalar
  closes_retired _ = false

  -- An inline scalar, decoded where it is quoted.
  unfoldable pub inline_retired : Str → Bool
  unfolding command_has_retired_policy
  inline_retired scalar =
      let t = trim scalar in
      if starts_with (codes "'") t || starts_with (codes "\"") t
      then if_let (yaml t) (λ value. command_has_retired_policy (trim value)) false
      else command_has_retired_policy (trim t)

  unfoldable pub inline_value_retired : Str → Bool
  unfolding inline_retired run_value
  inline_value_retired trimmed =
      if_let (run_value trimmed)
        (λ scalar. if is_block_scalar scalar then false else inline_retired scalar) false

  -- A line that stands in no block, or ends the one that is read.
  unfoldable pub key_line : ℕ → Str → BlockState → LineOutcome
  unfolding closes_retired inline_value_retired state_behind
  key_line indent trimmed state =
      if closes_retired state
      then retired
      else if inline_value_retired trimmed
      then retired
      else goes_on (state_behind indent trimmed)

  -- `none` is the panic of the slice, whose bound counts characters and not bytes.
  unfoldable pub policy_line : Str → BlockState → Option LineOutcome
  unfolding key_line leading slice_from
  policy_line line state =
      if is_nil (trim line)
      then some (goes_on (pass_blank state))
      else slice_from (leading line) line >>= λ rest.
          if is_inside (leading line) state
          then some (goes_on (pass_inside line state))
          else some (key_line (leading line) (trim_end rest) state)

  unfoldable pub policy_lines : List Str → BlockState → Option Bool
  unfolding closes_retired policy_line
  policy_lines [] state = some (closes_retired state)
  policy_lines (l ∷ ls) state = elim (policy_line l state) [
    | none ↦ none
    | some retired ↦ some true
    | some (goes_on next) ↦ policy_lines ls next
  ]

  unfoldable pub has_retired_descriptile_policy : Str → Option Bool
  unfolding policy_lines lines
  has_retired_descriptile_policy text = policy_lines (lines text) outside
