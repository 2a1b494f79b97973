-- ===== src/Prelude/Lines.antt =====
-- Rust's operations on the lines and the words of a text.
use Prim.Native.Nat.{ℕ, ◌+◌, ◌-◌}
use mathlib.Core.Path.{◌≡◌, refl}
use mathlib.Core.Bool.{Bool, true, false, ◌&&◌, ◌||◌}
use mathlib.Core.Option.{Option, none, some}
use mathlib.Core.List.{List, [], ◌∷◌}
use cicd_squabbler.Prelude.Tests.{leb, ◌==◌, if◌then◌else◌}
use cicd_squabbler.Prelude.Lists.{is_nil}
use cicd_squabbler.Prelude.Text.{
  Str, codes, cons_head, starts_with, is_whitespace, is_digit, utf8_width,
}

-- `text.lines()`: a line ends at "\n" or "\r\n", and the text behind the last one is a line if it is
-- not empty.
unfoldable pub lines : Str → List Str
lines [] = []
lines (c ∷ s) =
    let rest = lines s in
    if c == 10
    then [] ∷ rest
    else if c == 13 && starts_with (codes "\n") s
    then rest
    else cons_head c rest

-- `line.len() - line.trim_start().len()`: the bytes of the leading white space.
unfoldable pub indent_of : Str → ℕ
unfolding utf8_width is_whitespace
indent_of [] = 0
indent_of (c ∷ s) = let rest = indent_of s in if is_whitespace c then utf8_width c + rest else 0

-- `s.split_whitespace()`
ends_word : Str → Bool
ends_word [] = true
ends_word (c ∷ _) = is_whitespace c

unfoldable pub split_whitespace : Str → List Str
unfolding is_whitespace ends_word
split_whitespace [] = []
split_whitespace (c ∷ s) =
    let rest = split_whitespace s in
    if is_whitespace c then rest else if ends_word s then (c ∷ []) ∷ rest else cons_head c rest

-- `s.trim_start_matches(p)`, `s.trim_end_matches(p)`, `s.trim_matches(p)`
unfoldable pub trim_start_matches : (ℕ → Bool) → Str → Str
trim_start_matches p [] = []
trim_start_matches p (c ∷ s) = let rest = trim_start_matches p s in if p c then rest else c ∷ s

unfoldable pub trim_end_matches : (ℕ → Bool) → Str → Str
trim_end_matches p [] = []
trim_end_matches p (c ∷ s) =
    let rest = trim_end_matches p s in if is_nil rest && p c then [] else c ∷ rest

unfoldable pub trim_matches : (ℕ → Bool) → Str → Str
unfolding trim_start_matches trim_end_matches
trim_matches p s = trim_end_matches p (trim_start_matches p s)

abbrev pub is_quote : ℕ → Bool
is_quote c = c == 39 || c == 34

-- `s.split(sep).next().unwrap_or(s)` for a text `sep`: what stands before it, or all of `s`.
unfoldable pub first_part_str : Str → Str → Str
unfolding starts_with
first_part_str sep [] = []
first_part_str sep (c ∷ s) =
    let rest = first_part_str sep s in if starts_with sep (c ∷ s) then [] else c ∷ rest

unfoldable pub is_alphanumeric : ℕ → Bool
unfolding is_digit
is_alphanumeric c = is_digit c || ((leb b'a' c && leb c b'z') || (leb b'A' c && leb c b'Z'))

-- `s.ends_with(c)` for a character.
unfoldable pub ends_with_char : ℕ → Str → Bool
ends_with_char c [] = false
ends_with_char c (d ∷ s) = if is_nil s then d == c else ends_with_char c s

-- `&s[n..]`, which panics (`none`) where byte `n` is not the start of a character.
unfoldable pub slice_from : ℕ → Str → Option Str
unfolding utf8_width
slice_from n [] = if n == 0 then some [] else none
slice_from n (c ∷ s) =
    let rest = slice_from (n - utf8_width c) s in
    if n == 0 then some (c ∷ s) else if leb (utf8_width c) n then rest else none

lines-read : lines (codes "a\r\n\nb\r") ≡ codes "a" ∷ [] ∷ codes "b\r" ∷ []
unfolding lines starts_with
lines-read = refl

words-read :
    split_whitespace (codes " if  [ -f\tx ") ≡ codes "if" ∷ codes "[" ∷ codes "-f" ∷ codes "x" ∷ []
unfolding split_whitespace
words-read = refl
