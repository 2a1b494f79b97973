-- ===== src/Chains/Sets.antt =====
-- Membership in a set of repositories.
use cicd_squabbler.Prelude.{
  ◌+◌, ◌≤◌, ◌≡◌, refl, true, false, ◌||◌, List, [], ◌∷◌, ◌++◌, length, arith,
}
use cicd_squabbler.Chains.{RepoId, repo_eq}
use cicd_squabbler.Chains.Graph.{contains_repo, place, set_insert}
use cicd_squabbler.Chains.Landing.{insert_all}
use cicd_squabbler.Chains.Records.{repo_eq_iff}

pub contains-cong :
    (s : List RepoId) (a b : RepoId) → repo_eq a b ≡ true → contains_repo s a ≡ contains_repo s b
unfolding contains_repo
contains-cong [] a b h = refl
contains-cong (x ∷ s) a b h =
    ground (arith, contains-cong s a b h, repo_eq_iff a b, repo_eq_iff x a, repo_eq_iff x b)

pub contains-append :
    (s t : List RepoId) (a : RepoId)
    → contains_repo (s ++ t) a ≡ (contains_repo s a || contains_repo t a)
unfolding contains_repo
contains-append [] t a = refl
contains-append (x ∷ s) t a = ground (arith, contains-append s t a)

pub contains-place :
    (s : List RepoId) (r a : RepoId)
    → contains_repo (place s r) a ≡ (repo_eq r a || contains_repo s a)
unfolding contains_repo place
contains-place [] r a = refl
contains-place (x ∷ s) r a = ground (arith, contains-place s r a)

pub contains-set_insert :
    (s : List RepoId) (r a : RepoId)
    → contains_repo (set_insert s r) a ≡ (repo_eq r a || contains_repo s a)
unfolding set_insert
contains-set_insert s r a = ground (arith, contains-place s r a, contains-cong s r a)

pub contains-insert_all :
    (s rs : List RepoId) (a : RepoId)
    → contains_repo (insert_all s rs) a ≡ (contains_repo s a || contains_repo rs a)
unfolding insert_all contains_repo
contains-insert_all s [] a = ground arith
contains-insert_all s (r ∷ rs) a =
    ground (arith, contains-insert_all (set_insert s r) rs a, contains-set_insert s r a)

length-place : (s : List RepoId) (r : RepoId) → length (place s r) ≡ length s + 1
unfolding place
length-place [] r = omega arith
length-place (x ∷ s) r = ground (arith, length-place s r)

pub length-set_insert : (s : List RepoId) (r : RepoId) → length s ≤ length (set_insert s r)
unfolding set_insert
length-set_insert s r = ground (arith, length-place s r)

pub length-insert_all : (s rs : List RepoId) → length s ≤ length (insert_all s rs)
unfolding insert_all
length-insert_all s [] = ground arith
length-insert_all s (r ∷ rs) =
    ground (arith, length-insert_all (set_insert s r) rs, length-set_insert s r)

-- A new first member makes the set larger.
pub length-insert_all-new :
    (s : List RepoId) (r : RepoId) (rs : List RepoId)
    → contains_repo s r ≡ false
    → length s + 1 ≤ length (insert_all s (r ∷ rs))
unfolding insert_all set_insert
length-insert_all-new s r rs h =
    ground (arith, length-insert_all (set_insert s r) rs, length-place s r)
