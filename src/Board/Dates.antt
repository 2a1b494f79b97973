-- ===== src/Board/Dates.antt =====
-- crates/squabble-core/src/board.rs: `epoch_day` and `rfc3339_from_unix`. An i64 is an integer; no
-- stamp reaches its bounds. What is computed below zero nowhere is a natural number.
pub mod Civil
pub mod Stamps
use cicd_squabbler.Prelude.{
  ℕ, zero, suc, ◌+◌, ◌-◌, ◌*◌, ◌/◌, ◌%◌, ◌^◌, Bool, true, false, not, ◌&&◌, ◌||◌, ◌==◌, ltb, leb,
  Option, none, some, is_lit, ◌>>=◌, List, [], ◌∷◌, ◌++◌, is_nil, length, if◌then◌else◌, Str, codes,
  slice_from, decimal,
}
use cicd_squabbler.Prelude.Int.{ℤ, pos, negsuc, sub_ℕ, ◌+ℤ◌, ◌-ℤ◌, ◌*ℤ◌, ◌/ℤ◌, ltb_ℤ}
use cicd_squabbler.Moves.{slice_to}
use cicd_squabbler.Inbox.{parse_digits}

-- `stamp.get(from..to)`
unfoldable pub get_range : ℕ → ℕ → Str → Option Str
unfolding slice_from slice_to
get_range from to s = slice_from from s >>= λ rest. slice_to (to - from) rest

unfoldable pub at_most : ℕ → ℕ → Option ℕ
at_most bound n = if leb n bound then some n else none

-- `s.parse::<i64>().ok()`
unfoldable pub parse_i64 : Str → Option ℤ
unfolding parse_digits at_most
parse_i64 [] = none
parse_i64 (c ∷ s) =
    if c == b'-'
    then (if is_nil s
        then none
        else parse_digits 0 s >>= λ n. at_most (2 ^ 63) n >>= λ k. some (sub_ℕ 0 k))
    else if c == b'+'
    then (if is_nil s
        then none
        else parse_digits 0 s >>= λ n. at_most (2 ^ 63 - 1) n >>= λ k. some (pos k))
    else parse_digits 0 (c ∷ s) >>= λ n. at_most (2 ^ 63 - 1) n >>= λ k. some (pos k)

-- `(lo..=hi).contains(&n)`, for positive bounds.
unfoldable pub within : ℕ → ℕ → ℤ → Option ℕ
within lo hi (pos n) = if leb lo n && leb n hi then some n else none
within lo hi (negsuc n) = none

-- The computation on a year, a month and a day of the month.
unfoldable pub days_from_civil : ℤ → ℕ → ℕ → ℤ
unfolding ◌+ℤ◌ ◌-ℤ◌ ◌*ℤ◌ ◌/ℤ◌
days_from_civil year m d =
    let y = if leb m 2 then year -ℤ pos 1 else year in
    let era = (if ltb_ℤ y (pos 0) then y -ℤ pos 399 else y) /ℤ 400 in
    let yoe = y -ℤ era *ℤ pos 400 in
    let mp = (m + 9) % 12 in
    let doy = (153 * mp + 2) / 5 + d - 1 in
    let doe = yoe *ℤ pos 365 +ℤ yoe /ℤ 4 -ℤ yoe /ℤ 100 +ℤ pos doy in
    era *ℤ pos 146097 +ℤ doe -ℤ pos 719468

unfoldable pub epoch_day : Str → Option ℤ
unfolding get_range parse_i64 within days_from_civil
epoch_day stamp = get_range 0 4 stamp >>= λ year. parse_i64 year >>= λ y.
    get_range 5 7 stamp >>= λ month. parse_i64 month >>= λ mo. get_range 8 10 stamp >>= λ day.
    parse_i64 day >>= λ da.
    if not (is_lit (get_range 4 5 stamp) "-") || not (is_lit (get_range 7 8 stamp) "-")
    then none
    else within 1 12 mo >>= λ m. within 1 31 da >>= λ d. some (days_from_civil y m d)

-- The year, the month and the day of the month of a day since the epoch.
unfoldable pub civil_from_days : ℕ → ℕ × (ℕ × ℕ)
civil_from_days days =
    let z = days + 719468 in
    let era = z / 146097 in
    let doe = z - era * 146097 in
    let yoe = (doe - doe / 1460 + doe / 36524 - doe / 146096) / 365 in
    let doy = doe - (365 * yoe + yoe / 4 - yoe / 100) in
    let mp = (5 * doy + 2) / 153 in
    let d = doy - (153 * mp + 2) / 5 + 1 in
    let m = if ltb mp 10 then mp + 3 else mp - 9 in
    (yoe + era * 400 + (if leb m 2 then 1 else 0), (m, d))

unfoldable pub zeros : ℕ → Str
zeros zero = []
zeros (suc n) = b'0' ∷ zeros n

-- `{n:0w}`
unfoldable pub padded : ℕ → ℕ → Str
unfolding zeros decimal
padded w n = zeros (w - length (decimal n)) ++ decimal n

unfoldable pub rfc3339_from_unix : ℕ → Str
unfolding civil_from_days padded
rfc3339_from_unix secs =
    let date = civil_from_days (secs / 86400) in
    let rem = secs % 86400 in
    padded 4 date.0
    ++ (codes "-"
        ++ (padded 2 date.1.0
            ++ (codes "-"
                ++ (padded 2 date.1.1
                    ++ (codes "T"
                        ++ (padded 2 (rem / 3600)
                            ++ (codes ":"
                                ++ (padded 2 (rem % 3600 / 60)
                                    ++ (codes ":" ++ (padded 2 (rem % 60) ++ codes "Z"))))))))))
