-- ===== src/Board/Rows.antt =====
-- crates/squabble-core/src/board.rs: the rows of the board. The map from reasons to their pull
-- requests is the list of its entries in the order of the reasons, and the map from repositories to
-- counts the list of its entries in the order of the names.
use cicd_squabbler.Prelude.{
  ℕ, zero, suc, ◌+◌, ◌-◌, not, ◌&&◌, ◌==◌, ltb, List, [], ◌∷◌, ◌++◌, is_nil, length, map, filter,
  if◌then◌else◌, Str, codes, str_eq, str_lt, decimal,
}
use cicd_squabbler.Board.{
  PrFacts, Bucket, needs_you, agent_work, landing, stale, Reason, no_required_gate,
  approval_required, clean_merge_by_hand, draft, conflict, changes_requested, checks_red, behind,
  arm_automerge, mergeability_unknown, armed_waiting, stale_red_or_conflicting, bucket_of, Board,
}

-- `Bucket::heading`
abbrev pub heading : Bucket → Str
heading needs_you = codes "Needs you"
heading agent_work = codes "Agent work"
heading landing = codes "Landing by itself"
heading stale = codes "Stale — close?"

-- `Reason::label`
abbrev pub label : Reason → Str
label no_required_gate =
    codes
      "no required check on the default branch — add a ruleset layer (arming here would merge at once)"
label approval_required = codes "a required approving review is missing"
label clean_merge_by_hand =
    codes "CLEAN: every requirement already passed, GitHub refuses to arm — merge it"
label draft = codes "draft"
label conflict = codes "merge conflict"
label changes_requested = codes "changes requested by a reviewer"
label checks_red = codes "a check on the head is red"
label behind = codes "branch is behind its base"
label arm_automerge = codes "ready for automerge to be armed"
label mergeability_unknown = codes "GitHub has not computed mergeability yet"
label armed_waiting = codes "automerge armed, waiting on checks"
label stale_red_or_conflicting = codes "untouched past the stale threshold and red or conflicting"

-- The reasons in their derived order, by which they are told apart.
abbrev pub reasons : List Reason
reasons =
    no_required_gate ∷ approval_required ∷ clean_merge_by_hand ∷ draft ∷ conflict
    ∷ changes_requested ∷ checks_red ∷ behind ∷ arm_automerge ∷ mergeability_unknown ∷ armed_waiting
    ∷ stale_red_or_conflicting ∷ []

abbrev pub reason_index : Reason → ℕ
reason_index no_required_gate = 0
reason_index approval_required = 1
reason_index clean_merge_by_hand = 2
reason_index draft = 3
reason_index conflict = 4
reason_index changes_requested = 5
reason_index checks_red = 6
reason_index behind = 7
reason_index arm_automerge = 8
reason_index mergeability_unknown = 9
reason_index armed_waiting = 10
reason_index stale_red_or_conflicting = 11

abbrev pub bucket_index : Bucket → ℕ
bucket_index needs_you = 0
bucket_index agent_work = 1
bucket_index landing = 2
bucket_index stale = 3

-- The pull requests of one entry of `by_reason`.
unfoldable pub placed_under : Reason → List (PrFacts × Reason) → List PrFacts
placed_under r placed = map (λ p. p.0) (filter (λ p. reason_index p.1 == reason_index r) placed)

-- The entries of `by_reason` whose reasons belong to a bucket.
unfoldable pub entries : Bucket → List (PrFacts × Reason) → List (Reason × List PrFacts)
unfolding placed_under bucket_of
entries b placed =
    map (λ r. (r, placed_under r placed))
      (filter
        (λ r.
          (bucket_index (bucket_of r) == bucket_index b) && not (is_nil (placed_under r placed)))
        reasons)

unfoldable pub sum_lengths : List (Reason × List PrFacts) → ℕ
sum_lengths [] = 0
sum_lengths (e ∷ es) = length e.1 + sum_lengths es

-- The closure `count`.
unfoldable pub count : Board → Bucket → ℕ
unfolding entries sum_lengths
count board b = sum_lengths (entries b board.placed)

-- `.chars().take(n)`
take : {A : Type 0} → ℕ → List A → List A
take zero xs = []
take (suc n) [] = []
take (suc n) (x ∷ xs) = x ∷ take n xs

-- `.replace('|', "\\|")`
escape_bars : Str → Str
escape_bars [] = []
escape_bars (c ∷ s) =
    let rest = escape_bars s in if c == b'|' then b'\\' ∷ b'|' ∷ rest else c ∷ rest

unfoldable pub pr_line : PrFacts → Str
unfolding take escape_bars
pr_line p =
    codes "- ["
    ++ p.repo.slug
    ++ codes "#"
    ++ decimal p.number
    ++ codes "]("
    ++ p.url
    ++ codes ") "
    ++ take 90 (escape_bars p.title)
    ++ codes " — @"
    ++ p.author

concat_lines : List Str → Str
concat_lines [] = []
concat_lines (l ∷ ls) = l ++ codes "\n" ++ concat_lines ls

-- The text that `push_capped` appends.
unfoldable pub capped : {A : Type 0} → List A → ℕ → (A → Str) → Str
unfolding take concat_lines
capped items cap line =
    concat_lines (map line (take cap items))
    ++ (if ltb cap (length items)
        then codes "- …and "
          ++ decimal (length items - cap)
          ++ codes " more (run `squabble board` locally for the full list)\n"
        else [])

-- `*repos.entry(name).or_insert(0) += 1`
unfoldable pub bump_repo : Str → List (Str × ℕ) → List (Str × ℕ)
bump_repo name [] = (name, 1) ∷ []
bump_repo name (e ∷ es) =
    let rest = bump_repo name es in
    if str_eq e.0 name
    then (name, e.1 + 1) ∷ es
    else if str_lt name e.0
    then (name, 1) ∷ e ∷ es
    else e ∷ rest

unfoldable pub repo_counts : List (Str × ℕ) → List PrFacts → List (Str × ℕ)
unfolding bump_repo
repo_counts m [] = m
repo_counts m (p ∷ ps) = repo_counts (bump_repo p.repo.slug m) ps
