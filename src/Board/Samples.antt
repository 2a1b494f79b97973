-- ===== src/Board/Samples.antt =====
-- A pull request that may be armed, an empty board, and the theorems about the board applied to them.
use cicd_squabbler.Prelude.{
  ◌≡◌, refl, false, not, ◌&&◌, ◌||◌, ◌==◌, ltb, none, some, decimal, decimal_from, slice_from,
  utf8_width, is_digit, is_lit, [], ◌∷◌, arith, codes, str_eq,
}
use cicd_squabbler.Prelude.Int.{pos, negsuc, ◌+ℤ◌, ◌-ℤ◌, ◌*ℤ◌, ◌/ℤ◌}
use cicd_squabbler.Moves.{slice_to}
use cicd_squabbler.Inbox.{parse_digits}
use cicd_squabbler.Board.{
  RepoGate, PrFacts, mergeable, is_conflicting, is_red, is_unknown, arm_automerge, mergeable_reason,
  classify, Board,
}
use cicd_squabbler.Board.Dates.{
  get_range, parse_i64, at_most, within, days_from_civil, civil_from_days, zeros, padded, epoch_day,
  rfc3339_from_unix,
}
use cicd_squabbler.Board.Dates.Stamps.{epoch_day-rfc3339_from_unix}
use cicd_squabbler.Board.Places.{lands, lands-classify}
use cicd_squabbler.Board.Render.{render_markdown}
use cicd_squabbler.Board.Fits.{Renders, render_markdown-Renders}

abbrev pr : PrFacts
pr = record {
  repo = record { slug = codes "octo/app" };
  number = 7;
  title = codes "Fix | it";
  url = codes "https://github.com/octo/app/pull/7";
  author = codes "bot";
  head_ref = codes "fix";
  is_draft = false;
  mergeable_state = mergeable;
  merge_state = codes "BLOCKED";
  review_decision = none;
  auto_merge_armed = false;
  rollup = some (codes "PENDING");
  updated_at = codes "2026-09-30T00:00:00Z";
}

abbrev repo_gate : RepoGate
repo_gate = record {
  repo = record { slug = codes "octo/app" };
  required_contexts = 2;
  required_approvals = 1;
}

stamps :
    (rfc3339_from_unix 1790726400 ≡ codes "2026-09-30T00:00:00Z")
    × ((rfc3339_from_unix 86399 ≡ codes "1970-01-01T23:59:59Z")
        × ((epoch_day (codes "1969-12-31") ≡ some (negsuc 0))
            × (epoch_day (codes "2026-13-01") ≡ none)))
unfolding rfc3339_from_unix civil_from_days padded zeros decimal decimal_from epoch_day get_range
    slice_from slice_to utf8_width parse_i64 parse_digits is_digit at_most within days_from_civil
    ◌+ℤ◌ ◌-ℤ◌ ◌*ℤ◌ ◌/ℤ◌ str_eq
stamps = (refl, (refl, (refl, refl)))

classify-armable : classify pr repo_gate (pos 20000) (pos 30) ≡ arm_automerge
unfolding classify is_red is_conflicting is_unknown mergeable_reason str_eq
classify-armable = refl

epoch_day-rfc3339_from_unix_example : epoch_day (rfc3339_from_unix 1790726400) ≡ some (pos 20726)
epoch_day-rfc3339_from_unix_example = epoch_day-rfc3339_from_unix 1790726400 (omega arith)

lands-classify_example : lands (classify pr repo_gate (pos 20000) (pos 30)) ≡ (
    not (2 == 0)
    && (not false
        && (not (is_conflicting mergeable)
            && (not (is_lit none "CHANGES_REQUESTED")
                && (not (is_lit none "REVIEW_REQUIRED" && ltb 0 1)
                    && (not (is_red pr)
                        && (not (str_eq (codes "BLOCKED") (codes "BEHIND"))
                            && (false
                                || not (
                                    str_eq (codes "BLOCKED") (codes "CLEAN")
                                    || (is_unknown mergeable
                                        || str_eq (codes "BLOCKED") (codes "UNKNOWN")))))))))))
lands-classify_example = lands-classify pr repo_gate (pos 20000) (pos 30)

abbrev board : Board
board = record {
  generated_at = codes "2026-09-30T00:00:00Z";
  owners = codes "octo" ∷ [];
  repos_enumerated = λ o. some 1;
  open_prs_reported = λ o. some 1;
  unavailable = [];
  truncated = [];
  placed = (pr, arm_automerge) ∷ [];
}

render_markdown-Renders_example : Renders board 10 (render_markdown board 10)
render_markdown-Renders_example = render_markdown-Renders board 10
