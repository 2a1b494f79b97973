-- ===== src/Board/Render.antt =====
-- crates/squabble-core/src/board.rs: the sections of the board's text, and the loop that cuts its
-- lists until it fits.
use cicd_squabbler.Prelude.{
  ℕ, zero, suc, ◌/◌, ◌&&◌, ◌||◌, ◌==◌, leb, Option, none, some, unwrap_or, List, [], ◌∷◌, ◌++◌,
  is_nil, length, map, if◌then◌else◌, Str, codes, str_len, decimal, join,
}
use cicd_squabbler.Board.{
  PrFacts, Bucket, needs_you, agent_work, landing, stale, Reason, no_required_gate, Board,
  placed_per_owner,
}
use cicd_squabbler.Board.Rows.{
  capped, count, entries, heading, label, pr_line, reason_index, repo_counts,
}

concat : List Str → Str
concat [] = []
concat (s ∷ ss) = s ++ concat ss

-- The head of the text: the counts of the buckets and the coverage of the owners.
unfoldable pub counts_text : Board → Str
unfolding count concat
counts_text board =
    codes "# Estate: needs me\n\n"
    ++ codes "_Generated "
    ++ board.generated_at
    ++ codes " by `squabble board` for "
    ++ join (codes ", ") board.owners
    ++ codes ". This body is rewritten on every run; it never comments, so it never notifies._\n\n"
    ++ codes "| | count |\n|---|---:|\n"
    ++ concat (
        map
          (λ b.
            codes "| **" ++ heading b ++ codes "** | " ++ decimal (count board b) ++ codes " |\n")
          (needs_you ∷ agent_work ∷ landing ∷ stale ∷ []))
    ++ codes "\n"

unfoldable pub coverage_text : Board → Str
unfolding placed_per_owner
coverage_text board =
    codes "**Coverage** — "
    ++ join (codes " · ") (
        map
          (λ o.
            o
            ++ codes ": "
            ++ decimal (unwrap_or (board.repos_enumerated o) 0)
            ++ codes " repos, "
            ++ decimal (unwrap_or (board.open_prs_reported o) 0)
            ++ codes " open PRs reported, "
            ++ decimal (unwrap_or (placed_per_owner board o) 0)
            ++ codes " placed")
          board.owners)
    ++ codes "\n"

unfoldable pub incomplete_text : Board → Str
unfolding concat
incomplete_text board =
    if is_nil board.unavailable && is_nil board.truncated
    then []
    else codes "\n> ⚠ **Incomplete:** "
      ++ decimal (length board.unavailable)
      ++ codes " repo(s) unreadable, "
      ++ decimal (length board.truncated)
      ++ codes
          " repo(s) with more open PRs than one page. Their PRs are missing from the lists below.\n"
      ++ concat (
          map (λ u. codes "> - `" ++ u.0.slug ++ codes "` — " ++ u.1 ++ codes "\n")
            board.unavailable)
      ++ concat (
          map (λ r. codes "> - `" ++ r.slug ++ codes "` — truncated at one page\n") board.truncated)

-- One section of `Needs you`.
unfoldable pub needs_you_entry : ℕ → Reason × List PrFacts → Str
unfolding capped pr_line repo_counts
needs_you_entry cap e =
    codes "\n### "
    ++ label e.0
    ++ codes " ("
    ++ decimal (length e.1)
    ++ codes ")\n"
    ++ (if reason_index e.0 == reason_index no_required_gate
        then capped (repo_counts [] e.1) cap
            (λ n. codes "- `" ++ n.0 ++ codes "` — " ++ decimal n.1 ++ codes " open PR(s)")
        else capped e.1 cap pr_line)

unfoldable pub needs_you_text : Board → ℕ → Str
unfolding entries needs_you_entry concat
needs_you_text board cap =
    let es = entries needs_you board.placed in
    codes "\n## "
    ++ heading needs_you
    ++ codes "\n"
    ++ concat (map (needs_you_entry cap) es)
    ++ (if is_nil es then codes "\nNothing. 🎉\n" else [])

unfoldable pub folded_entry : ℕ → Reason × List PrFacts → Str
unfolding capped pr_line
folded_entry cap e =
    codes "\n<details><summary>"
    ++ label e.0
    ++ codes " — "
    ++ decimal (length e.1)
    ++ codes "</summary>\n\n"
    ++ capped e.1 cap pr_line
    ++ codes "\n</details>\n"

unfoldable pub folded_text : Board → ℕ → Bucket → Str
unfolding entries count folded_entry concat
folded_text board cap b =
    codes "\n## "
    ++ heading b
    ++ codes " ("
    ++ decimal (count board b)
    ++ codes ")\n"
    ++ concat (map (folded_entry cap) (entries b board.placed))

unfoldable pub render_with_cap : Board → ℕ → Str
unfolding counts_text coverage_text incomplete_text needs_you_text folded_text count
render_with_cap board cap =
    counts_text board
    ++ coverage_text board
    ++ incomplete_text board
    ++ needs_you_text board cap
    ++ folded_text board cap agent_work
    ++ folded_text board cap stale
    ++ codes "\n## "
    ++ heading landing
    ++ codes " ("
    ++ decimal (count board landing)
    ++ codes ")\n\nArmed and unobstructed; these need nothing from anyone.\n"

-- The loop of `render_markdown`: `none` when the fuel is spent.
unfoldable pub render_from : Board → ℕ → ℕ → ℕ → Option Str
unfolding render_with_cap
render_from board max_bytes zero per_page = none
render_from board max_bytes (suc fuel) per_page =
    let rest = render_from board max_bytes fuel (per_page / 2) in
    let text = render_with_cap board per_page in
    if leb (str_len text) max_bytes || per_page == 0 then some text else rest

-- The number of rounds in which 400 is halved to zero, and the one that renders with it.
unfoldable pub render_markdown : Board → ℕ → Option Str
unfolding render_from
render_markdown board max_bytes = render_from board max_bytes 10 400
