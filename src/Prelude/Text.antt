-- ===== src/Prelude/Text.antt =====
-- Rust strings as lists of Unicode scalar values, and the standard library's operations on them.
use Prim.Native.Nat.{ℕ, zero, suc, ◌+◌, ◌/◌, ◌%◌}
use Prim.Native.Char.{code}
use Prim.Native.String.{String}
use mathlib.Core.Path.{◌≡◌, refl}
use mathlib.Core.Logic.{◌↔◌}
use mathlib.Core.Bool.{Bool, true, false, not, ◌&&◌, ◌||◌}
use mathlib.Core.Option.{Option, none, some}
use mathlib.Core.List.{List, [], ◌∷◌, ◌++◌, map}
use native.Mathlib.Omega.{arith}
use cicd_squabbler.Prelude.Tests.{is_some, ltb, leb, ◌==◌, if◌then◌else◌, if_let, ◌>>=◌}
use cicd_squabbler.Prelude.Lists.{is_nil, In}

-- `str` and `String`.
abbrev pub Str : Type 0
Str = List ℕ

-- The scalar values of a literal.
abbrev pub codes : String → Str
codes String.[] = []
codes (String.◌∷◌ c s) = code c ∷ codes s

unfoldable pub str_eq : Str → Str → Bool
str_eq [] [] = true
str_eq (a ∷ s) (b ∷ t) = a == b && str_eq s t
str_eq _ _ = false

pub str_eq_iff : (s t : Str) → (str_eq s t ≡ true) ↔ (s ≡ t)
unfolding str_eq
str_eq_iff [] [] = ground arith
str_eq_iff [] (b ∷ t) = ground arith
str_eq_iff (a ∷ s) [] = ground arith
str_eq_iff (a ∷ s) (b ∷ t) = ground (arith, str_eq_iff s t)

pub str_eq_refl : (s : Str) → str_eq s s ≡ true
str_eq_refl s = (str_eq_iff s s).1 refl

-- `len`: the bytes of the UTF-8 encoding.
unfoldable pub utf8_width : ℕ → ℕ
utf8_width c = if leb c 0x7f then 1 else if leb c 0x7ff then 2 else if leb c 0xffff then 3 else 4

unfoldable pub str_len : Str → ℕ
unfolding utf8_width
str_len [] = 0
str_len (c ∷ s) = utf8_width c + str_len s

-- `is_ascii_digit`, `is_ascii_hexdigit`, `to_ascii_lowercase` of one character.
unfoldable pub is_digit : ℕ → Bool
is_digit c = leb b'0' c && leb c b'9'

unfoldable pub is_hexdigit : ℕ → Bool
unfolding is_digit
is_hexdigit c = is_digit c || (leb b'a' c && leb c b'f') || (leb b'A' c && leb c b'F')

unfoldable pub to_lower : ℕ → ℕ
to_lower c = if leb b'A' c && leb c b'Z' then c + 32 else c

unfoldable pub to_ascii_lowercase : Str → Str
unfolding to_lower
to_ascii_lowercase s = map to_lower s

unfoldable pub eq_ignore_ascii_case : Str → Str → Bool
unfolding to_ascii_lowercase str_eq
eq_ignore_ascii_case s t = str_eq (to_ascii_lowercase s) (to_ascii_lowercase t)

-- `char::is_whitespace`: Unicode White_Space.
unfoldable pub is_whitespace : ℕ → Bool
is_whitespace c =
    (leb 9 c && leb c 13)
    || c == 0x20
    || c == 0x85
    || c == 0xa0
    || c == 0x1680
    || (leb 0x2000 c && leb c 0x200a)
    || c == 0x2028
    || c == 0x2029
    || c == 0x202f
    || c == 0x205f
    || c == 0x3000

unfoldable pub trim_start : Str → Str
trim_start [] = []
trim_start (c ∷ s) = let rest = trim_start s in if is_whitespace c then rest else c ∷ s

unfoldable pub trim_end : Str → Str
trim_end [] = []
trim_end (c ∷ s) = let rest = trim_end s in if is_nil rest && is_whitespace c then [] else c ∷ rest

unfoldable pub trim : Str → Str
unfolding trim_start trim_end is_whitespace
trim s = trim_end (trim_start s)

unfoldable pub strip_prefix : Str → Str → Option Str
strip_prefix [] s = some s
strip_prefix (p ∷ ps) [] = none
strip_prefix (p ∷ ps) (c ∷ s) = let rest = strip_prefix ps s in if c == p then rest else none

unfoldable pub starts_with : Str → Str → Bool
starts_with [] s = true
starts_with (p ∷ ps) [] = false
starts_with (p ∷ ps) (c ∷ s) = c == p && starts_with ps s

-- `s.contains(pat)`
unfoldable pub contains : Str → Str → Bool
unfolding starts_with
contains [] pat = starts_with pat []
contains (c ∷ s) pat = starts_with pat (c ∷ s) || contains s pat

unfoldable pub strip_suffix : Str → Str → Option Str
unfolding str_eq
strip_suffix suf [] = if is_nil suf then some [] else none
strip_suffix suf (c ∷ s) =
    let rest = strip_suffix suf s in
    if str_eq suf (c ∷ s) then some [] else (rest >>= λ r. some (c ∷ r))

unfoldable pub ends_with : Str → Str → Bool
unfolding strip_suffix
ends_with suf s = is_some (strip_suffix suf s)

-- The order of `str`: bytes of UTF-8 compare as code points do.
unfoldable pub str_lt : Str → Str → Bool
str_lt [] t = not (is_nil t)
str_lt (a ∷ s) [] = false
str_lt (a ∷ s) (b ∷ t) = ltb a b || (a == b && str_lt s t)

-- `s.split(sep)` for one character: always at least one part.
abbrev pub cons_head : ℕ → List Str → List Str
cons_head c [] = (c ∷ []) ∷ []
cons_head c (part ∷ parts) = (c ∷ part) ∷ parts

unfoldable pub split : ℕ → Str → List Str
split sep [] = [] ∷ []
split sep (c ∷ s) = let rest = split sep s in if c == sep then [] ∷ rest else cons_head c rest

-- `s.splitn(n, sep)`: the last of the `n` parts keeps its separators.
unfoldable pub splitn : ℕ → ℕ → Str → List Str
splitn zero sep s = []
splitn (suc n) sep [] = [] ∷ []
splitn (suc zero) sep (c ∷ s) = (c ∷ s) ∷ []
splitn (suc (suc n)) sep (c ∷ s) =
    let next = splitn (suc n) sep s in
    let rest = splitn (suc (suc n)) sep s in if c == sep then [] ∷ next else cons_head c rest

-- `s.split(sep).next().unwrap_or("")`: the first part.
unfoldable pub first_part : ℕ → Str → Str
first_part sep [] = []
first_part sep (c ∷ s) = let rest = first_part sep s in if c == sep then [] else c ∷ rest

-- `s.rfind(sep)`, as the texts before and behind the match.
unfoldable pub rsplit_once : ℕ → Str → Option (Str × Str)
rsplit_once sep [] = none
rsplit_once sep (c ∷ s) =
    if_let (rsplit_once sep s) (λ p. some (c ∷ p.0, p.1)) (if c == sep then some ([], s) else none)

-- `parts.join(sep)`
unfoldable pub join : Str → List Str → Str
join sep [] = []
join sep (part ∷ []) = part
join sep (part ∷ parts) = part ++ sep ++ join sep parts

-- `parts.contains(&s)`
unfoldable pub mem : Str → List Str → Bool
unfolding str_eq
mem s [] = false
mem s (part ∷ parts) = str_eq part s || mem s parts

pub mem_iff : (s : Str) (parts : List Str) → (mem s parts ≡ true) ↔ In s parts
unfolding mem
mem_iff s [] = (λ h. cc, λ h. absurd h)
mem_iff s (part ∷ parts) = ground (arith, str_eq_iff part s, mem_iff s parts)

-- The decimal digits of a number, as `{}` prints it: `fuel` counts the digits left to print.
unfoldable pub decimal_from : ℕ → ℕ → Str → Str
decimal_from zero n acc = acc
decimal_from (suc fuel) n acc =
    let more = decimal_from fuel (n / 10) ((b'0' + n % 10) ∷ acc) in
    if n / 10 == 0 then (b'0' + n % 10) ∷ acc else more

unfoldable pub decimal : ℕ → Str
unfolding decimal_from
decimal n = decimal_from (n + 1) n []

-- `o == Some("…")`, as a `match` on a literal tests it.
abbrev pub is_lit : Option Str → String → Bool
is_lit none text = false
is_lit (some s) text = str_eq s (codes text)

prints : decimal 1205 ≡ codes "1205"
unfolding decimal
prints = refl

trims : trim (codes "  Set up job\n") ≡ codes "Set up job"
unfolding trim
trims = refl

splits : split b'/' (codes "a/b//") ≡ codes "a" ∷ codes "b" ∷ [] ∷ [] ∷ []
unfolding split
splits = refl

strips : strip_suffix (codes "[bot]") (codes "x[bot]") ≡ some (codes "x")
unfolding strip_suffix
strips = refl
