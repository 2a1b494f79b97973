-- ===== src/Chains/Waiting.antt =====
-- The round in which the landing order stops, and what the repositories that are left wait on.
use cicd_squabbler.Prelude.{
  ℕ, zero, suc, ◌<◌, ◌≡◌, refl, true, false, not, ◌&&◌, leb, Bool-cases, inl, inr, List, [], ◌∷◌,
  ◌++◌, all, filter, is_nil, length, arith,
}
use mathlib.Core.Path.{sym, ◌∙◌}
use cicd_squabbler.Chains.{RepoId, repo_eq}
use cicd_squabbler.Chains.Graph.{contains_repo}
use cicd_squabbler.Chains.Landing.{insert_all, contains_pair, ready_of, cyclic, rounds}
use cicd_squabbler.Chains.Records.{repo_eq_iff}
use cicd_squabbler.Chains.Sets.{contains-cong}
use cicd_squabbler.Chains.Order.{keys}
use cicd_squabbler.Chains.Sources.{ComesFrom, contains_pair-cong}

pub contains-here : (x : RepoId) (s : List RepoId) → contains_repo (x ∷ s) x ≡ true
unfolding contains_repo
contains-here x s = ground (arith, (repo_eq_iff x x).1 refl)

not-all :
    (done ups : List RepoId)
    → all (contains_repo done) ups ≡ false
    → (u : RepoId) × ((contains_repo ups u ≡ true) × (contains_repo done u ≡ false))
unfolding contains_repo
not-all done [] h = cc
not-all done (x ∷ ups) h = elim (Bool-cases (contains_repo done x)) [
  | inr absent ↦ (x, (contains-here x ups, absent))
  | inl there ↦
      let r = not-all done ups (ground (arith, h, there)) in (r.0, (ground (arith, r.1.0), r.1.1))
]

-- Where none is ready, a repository that is not done waits on another that is not done.
pub none_ready-waits :
    (ps : List (RepoId × RepoId)) (waits : List (RepoId × List RepoId)) (done : List RepoId)
    (n : RepoId)
    → ComesFrom ps waits
    → is_nil (ready_of waits done) ≡ true
    → contains_repo (keys waits) n ≡ true
    → contains_repo done n ≡ false
    → (u : RepoId) × ((contains_repo done u ≡ false) × (contains_pair ps (n, u) ≡ true))
unfolding ready_of contains_repo
none_ready-waits ps [] done n h k l m = cc
none_ready-waits ps (entry ∷ waits) done n h k l m = elim (Bool-cases (repo_eq entry.0 n)) [
  | inl same ↦
      let waiting : all (contains_repo done) entry.1 ≡ false =
        ground (arith, k, m, contains-cong done entry.0 n same) in
      let r = not-all done entry.1 waiting in
      (
        r.0,
        (
          r.1.1,
          sym (contains_pair-cong ps entry.0 r.0 n r.0 same ((repo_eq_iff r.0 r.0).1 refl))
              ∙ h.0 r.0 r.1.0,
        ),
      )
  | inr other ↦
      none_ready-waits ps waits done n h.1 (ground (arith, k)) (ground (arith, l, other)) m
]

pub contains-filter :
    (done ns : List RepoId) (y : RepoId)
    → contains_repo (filter (λ n. not (contains_repo done n)) ns) y
      ≡ (contains_repo ns y && not (contains_repo done y))
unfolding contains_repo
contains-filter done [] y = refl
contains-filter done (n ∷ ns) y = ground (arith, contains-filter done ns y, contains-cong done n y)

pub filter-nil :
    (done ns : List RepoId) (y : RepoId)
    → is_nil (filter (λ n. not (contains_repo done n)) ns) ≡ true
    → contains_repo ns y ≡ true
    → contains_repo done y ≡ true
unfolding contains_repo
filter-nil done [] y h k = cc
filter-nil done (n ∷ ns) y h k = ground (arith, filter-nil done ns y, contains-cong done n y)

-- The round in which the loop finds none ready.
abbrev pub StopsAt : List (RepoId × List RepoId) → List RepoId → Type 0
StopsAt waits done = (is_nil (ready_of waits done) ≡ true) × (length done < length (keys waits))

pub rounds-StopsAt :
    (waits : List (RepoId × List RepoId)) (fuel : ℕ) (done order : List RepoId)
    → rounds fuel (length (keys waits)) waits done order ≡ cyclic
    → (d : List RepoId) × StopsAt waits d
unfolding rounds
rounds-StopsAt waits zero done order h = cc
rounds-StopsAt waits (suc fuel) done order h =
    let ready = ready_of waits done in
    elim (Bool-cases (leb (length (keys waits)) (length done))) [
      | inl enough ↦ ground (arith, h, enough)
      | inr more ↦ elim (Bool-cases (is_nil ready)) [
        | inl none_ready ↦ (done, (none_ready, ground (arith, more)))
        | inr ready_now ↦
            rounds-StopsAt waits fuel (insert_all done ready) (order ++ ready)
              (ground (arith, h, more, ready_now))
      ]
    ]
