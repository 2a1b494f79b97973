-- ===== src/Inbox/Samples.antt =====
-- Threads on a merged and on an unreadable subject, and the theorems about the inbox applied.
use cicd_squabbler.Prelude.{
  List, ◌≡◌, refl, ◌↔◌, ◌⊎◌, ◌≢◌, true, none, some, [], ◌∷◌, All, arith, Str, codes, str_eq,
  strip_prefix, split, is_digit,
}
use cicd_squabbler.Inbox.{
  Thread, parse_digits, parse_u64, from_parts, from_api_url, merged, closed, clear_merged, Verdict,
  keep_open, keep_unsupported_subject, clears, subject_of, decide_state, decide,
}
use cicd_squabbler.Inbox.Subjects.{HasAddress, decide-clears_iff}

abbrev thread : Str → Thread
thread url = record {
  id = codes "1";
  reason = codes "mention";
  subject_type = codes "PullRequest";
  repo = record { slug = codes "octo/app" };
  subject_url = some url;
  unread = true;
  updated_at = codes "2026-01-01T00:00:00Z";
}

inbox_opened : Unit {0}
unfolding str_eq strip_prefix split is_digit parse_digits parse_u64 from_parts from_api_url
    subject_of decide_state decide clears
inbox_opened = tt

decide-merged :
    decide (thread (codes "https://api.github.com/repos/octo/app/pulls/17")) (some merged)
    ≡ clear_merged
unfolding inbox_opened
decide-merged = refl

decide-commit :
    decide (thread (codes "https://api.github.com/repos/octo/app/commits/abc")) (some merged)
    ≡ keep_unsupported_subject
unfolding inbox_opened
decide-commit = refl

-- A sign before the number is read over.
from_api_url-signed :
    from_api_url (codes "https://api.github.com/repos/octo/app/issues/+5")
    ≡ some (record { repo = record { slug = codes "octo/app" }; number = 5 })
unfolding inbox_opened
from_api_url-signed = refl

from_api_url-huge :
    from_api_url (codes "https://api.github.com/repos/octo/app/issues/18446744073709551616") ≡ none
unfolding inbox_opened
from_api_url-huge = refl

octo-free : All (λ c. c ≢ b'/') (codes "octo")
octo-free = ground arith

app-free : All (λ c. c ≢ b'/') (codes "app")
app-free = ground arith

abbrev link : Thread
link = thread (codes "https://api.github.com/repos/octo/app/pulls/17")

decide-clears_iff_example : (clears (decide link (some merged)) ≡ true) ↔ (
    ((link.subject_type ≡ codes "PullRequest") ⊎ (link.subject_type ≡ codes "Issue"))
    × (HasAddress link.subject_url × ((some merged ≡ some merged) ⊎ (some merged ≡ some closed))))
decide-clears_iff_example = decide-clears_iff link (some merged)

abbrev decided : List Verdict
decided = clear_merged ∷ keep_open ∷ clear_merged ∷ []
