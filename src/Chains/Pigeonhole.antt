-- ===== src/Chains/Pigeonhole.antt =====
-- A set within another one of at most its size is all of it.
use cicd_squabbler.Prelude.{
  ◌+◌, ◌≤◌, ◌≡◌, refl, true, false, Bool-cases, inl, inr, List, [], ◌∷◌, length, if◌then◌else◌,
  arith,
}
use cicd_squabbler.Chains.{RepoId, repo_eq}
use cicd_squabbler.Chains.Graph.{contains_repo, place, set_insert}
use cicd_squabbler.Chains.Landing.{insert_all}
use cicd_squabbler.Chains.Sets.{contains-cong, contains-place}
use cicd_squabbler.Chains.Records.{repo_eq_iff}

-- No two members are equal.
abbrev pub AreApart : List RepoId → Type 0
AreApart [] = Unit
AreApart (x ∷ s) = (contains_repo s x ≡ false) × AreApart s

place-AreApart :
    (s : List RepoId) (r : RepoId) → AreApart s → contains_repo s r ≡ false → AreApart (place s r)
unfolding place contains_repo
place-AreApart [] r h k = ground arith
place-AreApart (x ∷ s) r h k =
    ground (arith, place-AreApart s r, contains-place s r x, repo_eq_iff x r, repo_eq_iff r x)

pub set_insert-AreApart : (s : List RepoId) (r : RepoId) → AreApart s → AreApart (set_insert s r)
unfolding set_insert
set_insert-AreApart s r h = elim (Bool-cases (contains_repo s r)) [
  | inl old ↦ rw old h
  | inr new ↦ rw new (place-AreApart s r h new)
]

pub insert_all-AreApart : (s rs : List RepoId) → AreApart s → AreApart (insert_all s rs)
unfolding insert_all
insert_all-AreApart s [] h = h
insert_all-AreApart s (r ∷ rs) h =
    insert_all-AreApart (set_insert s r) rs (set_insert-AreApart s r h)

abbrev remove : List RepoId → RepoId → List RepoId
remove [] r = []
remove (x ∷ s) r = let rest = remove s r in if repo_eq x r then s else x ∷ rest

length-remove :
    (s : List RepoId) (r : RepoId) → contains_repo s r ≡ true → length s ≡ length (remove s r) + 1
unfolding contains_repo
length-remove [] r h = ground arith
length-remove (x ∷ s) r h = ground (arith, length-remove s r)

contains-remove :
    (s : List RepoId) (r y : RepoId)
    → repo_eq r y ≡ false
    → contains_repo (remove s r) y ≡ contains_repo s y
unfolding contains_repo
contains-remove [] r y h = refl
contains-remove (x ∷ s) r y h =
    ground (arith, contains-remove s r y, repo_eq_iff x r, repo_eq_iff x y, repo_eq_iff r y)

pub length-subset :
    (d ns : List RepoId)
    → AreApart d
    → ((y : RepoId) → contains_repo d y ≡ true → contains_repo ns y ≡ true)
    → length d ≤ length ns
unfolding contains_repo
length-subset [] ns h k = ground arith
length-subset (x ∷ d) ns h k =
    let self = (repo_eq_iff x x).1 refl in
    let within =
      length-subset d (remove ns x) h.1
        (λ y m. ground (arith, k y, m, h.0, contains-cong d x y, contains-remove ns x y)) in
    ground (arith, within, length-remove ns x, k x, self)

contains-more :
    (done ns : List RepoId) (n y : RepoId)
    → contains_repo ns n ≡ true
    → (contains_repo done y ≡ true → contains_repo ns y ≡ true)
    → contains_repo (n ∷ done) y ≡ true
    → contains_repo ns y ≡ true
unfolding contains_repo
contains-more done ns n y m k e = ground (arith, contains-cong ns n y)

pub contains-all :
    (done ns : List RepoId)
    → AreApart done
    → ((y : RepoId) → contains_repo done y ≡ true → contains_repo ns y ≡ true)
    → length ns ≤ length done
    → (n : RepoId) → contains_repo ns n ≡ true
    → contains_repo done n ≡ true
contains-all done ns h k big n m = elim (Bool-cases (contains_repo done n)) [
  | inl there ↦ there
  | inr absent ↦
      let within : (y : RepoId) → contains_repo (n ∷ done) y ≡ true → contains_repo ns y ≡ true =
        λ y e. contains-more done ns n y m (k y) e in
      let short = length-subset (n ∷ done) ns (absent, h) within in ground (arith, short, big)
]
