-- ===== src/Inbox/Counts.antt =====
-- What `tally` counts.
use cicd_squabbler.Prelude.{
  ℕ, ◌+◌, ◌≡◌, inl, inr, Bool-cases, filter, Option, none, unwrap_or, List, [], ◌∷◌, length, arith,
}
use cicd_squabbler.Inbox.{
  Verdict, clear_merged, clear_closed, keep_open, keep_unknown_state, keep_unsupported_subject,
  verdict_eq, bump, tally_from, tally,
}

abbrev pub entry : (Verdict → Option ℕ) → Verdict → ℕ
entry m v = unwrap_or (m v) 0

abbrev pub total : (Verdict → Option ℕ) → ℕ
total m =
    entry m clear_merged
    + (entry m clear_closed
        + (entry m keep_open + (entry m keep_unknown_state + entry m keep_unsupported_subject)))

total-bump : (m : Verdict → Option ℕ) (v : Verdict) → total (bump m v) ≡ total m + 1
unfolding bump verdict_eq
total-bump m clear_merged = omega arith
total-bump m clear_closed = omega arith
total-bump m keep_open = omega arith
total-bump m keep_unknown_state = omega arith
total-bump m keep_unsupported_subject = omega arith

total-tally_from :
    (m : Verdict → Option ℕ) (vs : List Verdict) → total (tally_from m vs) ≡ total m + length vs
unfolding tally_from
total-tally_from m [] = omega arith
total-tally_from m (v ∷ vs) =
    let e = total-tally_from (bump m v) vs in let f = total-bump m v in omega arith

total-tally : (vs : List Verdict) → total (tally vs) ≡ length vs
unfolding tally
total-tally vs = let e = total-tally_from (λ _. none) vs in omega arith

entry-tally_from :
    (m : Verdict → Option ℕ) (vs : List Verdict) (w : Verdict)
    → entry (tally_from m vs) w ≡ entry m w + length (filter (λ v. verdict_eq v w) vs)
unfolding tally_from bump
entry-tally_from m [] w = omega arith
entry-tally_from m (v ∷ vs) w =
    let rest = entry-tally_from (bump m v) vs w in
    elim (Bool-cases (verdict_eq v w)) [
      | inl same ↦ ground (arith, rest, same)
      | inr other ↦ ground (arith, rest, other)
    ]

-- The entry of a verdict is the number of threads that got it, and the entries of the five verdicts
-- add up to the number of threads that were decided.
pub entry-tally :
    (vs : List Verdict) (w : Verdict)
    → (entry (tally vs) w ≡ length (filter (λ v. verdict_eq v w) vs))
      × (total (tally vs) ≡ length vs)
unfolding tally
entry-tally vs w = let e = entry-tally_from (λ _. none) vs w in (omega arith, total-tally vs)
