-- ===== src/Board/Dates/Stamps.antt =====
-- The stamp of a time, read back to its day.
use cicd_squabbler.Prelude.{
  ℕ, zero, suc, ◌+◌, ◌/◌, ◌%◌, ◌≤◌, ◌<◌, ◌≡◌, refl, ap, ◌∙◌, inl, inr, Bool, true, false, ◌&&◌,
  ◌==◌, ==_iff, Bool-cases, Option, none, some, [], ◌∷◌, ◌++◌, length, All, arith, Str, codes,
  str_eq, str_eq_iff, is_digit, utf8_width, slice_from, decimal, decimal_from,
}
use cicd_squabbler.Prelude.Int.{ℤ, pos, negsuc}
use cicd_squabbler.Moves.{slice_to}
use cicd_squabbler.Inbox.{parse_digits}
use cicd_squabbler.Board.Dates.{
  get_range, at_most, parse_i64, within, days_from_civil, epoch_day, civil_from_days, zeros, padded,
  rfc3339_from_unix,
}
use cicd_squabbler.Board.Dates.Civil.{
  days_from_civil-civil_from_days, civil_from_days-valid, civil_from_days-year,
}

abbrev pub all_below : (ℕ → Bool) → ℕ → Bool
all_below p zero = true
all_below p (suc n) = p n && all_below p n

all_below-lt : (p : ℕ → Bool) (n k : ℕ) → all_below p n ≡ true → k < n → p k ≡ true
all_below-lt p zero k h l = absurd (omega arith)
all_below-lt p (suc n) k h l = elim (Bool-cases (k == n)) [
  | inl e ↦ ground (arith, (==_iff k n).0 e)
  | inr e ↦ all_below-lt p n k (ground arith) (ground arith)
]

-- Two and four digits.
abbrev two : ℕ → Str
two n = (b'0' + n / 10) ∷ (b'0' + n % 10) ∷ []

abbrev four : ℕ → Str
four n = (b'0' + n / 1000) ∷ (b'0' + n / 100 % 10) ∷ (b'0' + n / 10 % 10) ∷ (b'0' + n % 10) ∷ []

-- That a number of two or four digits is printed with them and read back, by trying each.
abbrev reads : ℕ → Option ℤ → Bool
reads n none = false
reads n (some (pos k)) = k == n
reads n (some (negsuc k)) = false

two_checks : all_below (λ n. str_eq (padded 2 n) (two n) && reads n (parse_i64 (two n))) 100 ≡ true
unfolding padded zeros decimal decimal_from str_eq parse_i64 parse_digits is_digit at_most
two_checks = refl

four_checks :
    all_below (λ n. str_eq (padded 4 n) (four n) && reads n (parse_i64 (four n))) 10000 ≡ true
unfolding padded zeros decimal decimal_from str_eq parse_i64 parse_digits is_digit at_most
four_checks = refl

reads-some : (n : ℕ) (o : Option ℤ) → reads n o ≡ true → o ≡ some (pos n)
reads-some n none h = cc h
reads-some n (some (pos k)) h = ap (λ m. some (pos m)) ((==_iff k n).0 h)
reads-some n (some (negsuc k)) h = cc h

&&-split : (a b : Bool) → (a && b) ≡ true → (a ≡ true) × (b ≡ true)
&&-split a b h = ground arith

two_lem : (n : ℕ) → n < 100 → (padded 2 n ≡ two n) × (parse_i64 (two n) ≡ some (pos n))
two_lem n h =
    let test = λ (k : ℕ). str_eq (padded 2 k) (two k) && reads k (parse_i64 (two k)) in
    let both =
      &&-split (str_eq (padded 2 n) (two n)) (reads n (parse_i64 (two n)))
        (all_below-lt test 100 n two_checks h) in
    ((str_eq_iff (padded 2 n) (two n)).0 both.0, reads-some n (parse_i64 (two n)) both.1)

four_lem : (n : ℕ) → n < 10000 → (padded 4 n ≡ four n) × (parse_i64 (four n) ≡ some (pos n))
four_lem n h =
    let test = λ (k : ℕ). str_eq (padded 4 k) (four k) && reads k (parse_i64 (four k)) in
    let both =
      &&-split (str_eq (padded 4 n) (four n)) (reads n (parse_i64 (four n)))
        (all_below-lt test 10000 n four_checks h) in
    ((str_eq_iff (padded 4 n) (four n)).0 both.0, reads-some n (parse_i64 (four n)) both.1)

-- A text of ASCII characters.
abbrev IsAscii : Str → Type 0
IsAscii s = All (λ c. c < 128) s

slice_to-append : (s t : Str) → IsAscii s → slice_to (length s) (s ++ t) ≡ some s
unfolding slice_to utf8_width
slice_to-append [] [] h = refl
slice_to-append [] (c ∷ t) h = refl
slice_to-append (c ∷ s) t h = ground (arith, h.0, slice_to-append s t h.1)

slice_from-append : (s t : Str) → IsAscii s → slice_from (length s) (s ++ t) ≡ some t
unfolding slice_from utf8_width
slice_from-append [] [] h = refl
slice_from-append [] (c ∷ t) h = refl
slice_from-append (c ∷ s) t h = ground (arith, h.0, slice_from-append s t h.1)

get_range-append :
    (s t u : Str)
    → IsAscii s
    → IsAscii t
    → get_range (length s) (length s + length t) (s ++ (t ++ u)) ≡ some t
unfolding get_range
get_range-append s t u h k =
    rw (slice_from-append s (t ++ u) h)
      (ap (λ n. slice_to n (t ++ u)) (omega arith) ∙ slice_to-append t u k)

two-IsAscii : (n : ℕ) → n < 100 → IsAscii (two n)
two-IsAscii n h = (omega arith, (omega arith, tt))

four-IsAscii : (n : ℕ) → n < 10000 → IsAscii (four n)
four-IsAscii n h = (omega arith, (omega arith, (omega arith, (omega arith, tt))))

abbrev stamp : ℕ → ℕ → ℕ → Str → Str
stamp y m d rest = four y ++ (codes "-" ++ (two m ++ (codes "-" ++ (two d ++ rest))))

-- The parts of a stamp stand where `epoch_day` looks for them.
module _ (y m d : ℕ) (rest : Str) (h : y < 10000) (k : m < 100) (l : d < 100) where
  get_range-year : get_range 0 4 (stamp y m d rest) ≡ some (four y)
  get_range-year =
      get_range-append [] (four y) (codes "-" ++ (two m ++ (codes "-" ++ (two d ++ rest)))) tt
        (four-IsAscii y h)

  get_range-dash : get_range 4 5 (stamp y m d rest) ≡ some (codes "-")
  get_range-dash =
      get_range-append (four y) (codes "-") (two m ++ (codes "-" ++ (two d ++ rest)))
        (four-IsAscii y h) (omega arith, tt)

  upto_month : IsAscii (four y ++ codes "-")
  upto_month = (omega arith, (omega arith, (omega arith, (omega arith, (omega arith, tt)))))

  get_range-month : get_range 5 7 (stamp y m d rest) ≡ some (two m)
  get_range-month =
      get_range-append (four y ++ codes "-") (two m) (codes "-" ++ (two d ++ rest)) upto_month
        (two-IsAscii m k)

  upto_dash : IsAscii (four y ++ codes "-" ++ two m)
  upto_dash =
      (omega arith, (omega arith, (omega arith, (omega arith, (omega arith, two-IsAscii m k)))))

  get_range-second_dash : get_range 7 8 (stamp y m d rest) ≡ some (codes "-")
  get_range-second_dash =
      get_range-append (four y ++ codes "-" ++ two m) (codes "-") (two d ++ rest) upto_dash
        (omega arith, tt)

  upto_day : IsAscii (four y ++ codes "-" ++ two m ++ codes "-")
  upto_day = (
    omega arith,
    (
      omega arith,
      (
        omega arith,
        (
          omega arith,
          (omega arith, ((two-IsAscii m k).0, ((two-IsAscii m k).1.0, (omega arith, tt)))),
        ),
      ),
    ),
  )

  get_range-day : get_range 8 10 (stamp y m d rest) ≡ some (two d)
  get_range-day =
      get_range-append (four y ++ codes "-" ++ two m ++ codes "-") (two d) rest upto_day
        (two-IsAscii d l)

within-pos : (lo hi n : ℕ) → lo ≤ n → n ≤ hi → within lo hi (pos n) ≡ some n
unfolding within
within-pos lo hi n h k = ground arith

-- A stamp is read by its first ten characters.
epoch_day-stamp :
    (y m d : ℕ) (rest : Str)
    → y < 10000
    → (1 ≤ m) × (m ≤ 12)
    → (1 ≤ d) × (d ≤ 31)
    → epoch_day (stamp y m d rest) ≡ some (days_from_civil (pos y) m d)
unfolding epoch_day str_eq
epoch_day-stamp y m d rest h k l =
    rw
      (
        get_range-year y m d rest h (omega arith) (omega arith),
        (four_lem y h).1,
        get_range-month y m d rest h (omega arith) (omega arith),
        (two_lem m (omega arith)).1,
        get_range-day y m d rest h (omega arith) (omega arith),
        (two_lem d (omega arith)).1,
        get_range-dash y m d rest h (omega arith) (omega arith),
        get_range-second_dash y m d rest h (omega arith) (omega arith),
        within-pos 1 12 m k.0 k.1,
        within-pos 1 31 d l.0 l.1,
      )
      refl

-- Up to the end of the year 9999, a time is printed as a stamp that is read back to its day.
pub epoch_day-rfc3339_from_unix :
    (secs : ℕ)
    → secs < 253402300800
    → epoch_day (rfc3339_from_unix secs) ≡ some (pos (secs / 86400))
unfolding rfc3339_from_unix
epoch_day-rfc3339_from_unix secs h =
    let days = secs / 86400 in
    let date = civil_from_days days in
    let valid = civil_from_days-valid days in
    let year = civil_from_days-year days (omega arith) in
    rw
      (
        (four_lem date.0 year).0,
        (two_lem date.1.0 (omega (arith, valid.0.1))).0,
        (two_lem date.1.1 (omega (arith, valid.1.1))).0,
      )
      (epoch_day-stamp date.0 date.1.0 date.1.1 _ year valid.0 valid.1
        ∙ ap some (days_from_civil-civil_from_days days))
