-- ===== src/Chains/KeySets.antt =====
-- Membership in a set of ordered keys, and when two edges are equal.
use cicd_squabbler.Prelude.{
  ◌≡◌, refl, ◌↔◌, Bool, true, ◌||◌, Option, none, some, List, [], ◌∷◌, All, Str, str_eq_iff, arith,
}
use cicd_squabbler.Chains.{
  RepoId, repo_eq, Pin, sha, mutable, EdgeKind, reusable_workflow, action, Edge,
}
use cicd_squabbler.Chains.Keys.{
  contains_key, place_key, insert_key, insert_keys, pin_eq, kind_eq, text_eq, edge_eq,
}
use cicd_squabbler.Chains.Records.{repo_eq_iff}

module _ {A : Type 0} (eq lt : A → A → Bool)
    (cong_eq : (x a b : A) → eq a b ≡ true → eq x a ≡ eq x b) where
  pub contains_key-cong :
      (s : List A) (a b : A) → eq a b ≡ true → contains_key eq s a ≡ contains_key eq s b
  unfolding contains_key
  contains_key-cong [] a b h = refl
  contains_key-cong (x ∷ s) a b h = ground (arith, contains_key-cong s a b h, cong_eq x a b h)

  pub contains-place_key :
      (s : List A) (r a : A)
      → contains_key eq (place_key lt s r) a ≡ (eq r a || contains_key eq s a)
  unfolding contains_key place_key
  contains-place_key [] r a = refl
  contains-place_key (x ∷ s) r a = ground (arith, contains-place_key s r a)

  pub contains-insert_key :
      (s : List A) (r a : A)
      → contains_key eq (insert_key eq lt s r) a ≡ (eq r a || contains_key eq s a)
  unfolding insert_key
  contains-insert_key s r a = ground (arith, contains-place_key s r a, contains_key-cong s r a)

  pub contains-insert_keys :
      (s rs : List A) (a : A)
      → contains_key eq (insert_keys eq lt s rs) a ≡ (contains_key eq s a || contains_key eq rs a)
  unfolding insert_keys contains_key
  contains-insert_keys s [] a = ground arith
  contains-insert_keys s (r ∷ rs) a =
      ground (arith, contains-insert_keys (insert_key eq lt s r) rs a, contains-insert_key s r a)

module _ {A : Type 0} (eq lt : A → A → Bool) (P : A → Type 0) where
  All-place_key : (s : List A) (a : A) → All P s → P a → All P (place_key lt s a)
  unfolding place_key
  All-place_key [] a h k = (k, tt)
  All-place_key (x ∷ s) a h k = ground (arith, All-place_key s a h.1 k)

  All-insert_key : (s : List A) (a : A) → All P s → P a → All P (insert_key eq lt s a)
  unfolding insert_key
  All-insert_key s a h k = ground (arith, All-place_key s a h k)

  pub All-insert_keys : (s rs : List A) → All P s → All P rs → All P (insert_keys eq lt s rs)
  unfolding insert_keys
  All-insert_keys s [] h k = h
  All-insert_keys s (r ∷ rs) h k =
      All-insert_keys (insert_key eq lt s r) rs (All-insert_key s r h k.0) k.1

pub pin_eq_iff : (p q : Pin) → (pin_eq p q ≡ true) ↔ (p ≡ q)
unfolding pin_eq
pin_eq_iff (sha s) (sha t) = ground (arith, str_eq_iff s t)
pin_eq_iff (sha s) (mutable t) = ground arith
pin_eq_iff (mutable s) (sha t) = ground arith
pin_eq_iff (mutable s) (mutable t) = ground (arith, str_eq_iff s t)

kind_eq_iff : (k l : EdgeKind) → (kind_eq k l ≡ true) ↔ (k ≡ l)
unfolding kind_eq
kind_eq_iff reusable_workflow reusable_workflow = ground arith
kind_eq_iff reusable_workflow action = ground arith
kind_eq_iff action reusable_workflow = ground arith
kind_eq_iff action action = ground arith

text_eq_iff : (s t : Option Str) → (text_eq s t ≡ true) ↔ (s ≡ t)
unfolding text_eq
text_eq_iff none none = ground arith
text_eq_iff none (some t) = ground arith
text_eq_iff (some s) none = ground arith
text_eq_iff (some s) (some t) = ground (arith, str_eq_iff s t)

-- The fields on which two equal edges agree.
abbrev pub Agree : Edge → Edge → Type 0
Agree a b =
    (repo_eq a.from b.from ≡ true)
    × ((a.file ≡ b.file)
        × ((repo_eq a.to b.to ≡ true)
            × ((a.kind ≡ b.kind)
                × ((a.path ≡ b.path) × ((a.pin ≡ b.pin) × (a.version_hint ≡ b.version_hint))))))

pub edge_eq_iff : (a b : Edge) → (edge_eq a b ≡ true) ↔ Agree a b
unfolding edge_eq
edge_eq_iff a b = ground (
  arith,
  str_eq_iff a.file b.file,
  kind_eq_iff a.kind b.kind,
  text_eq_iff a.path b.path,
  pin_eq_iff a.pin b.pin,
  text_eq_iff a.version_hint b.version_hint,
)

pub repo_eq-cong : (x a b : RepoId) → repo_eq a b ≡ true → repo_eq x a ≡ repo_eq x b
repo_eq-cong x a b h = ground (arith, repo_eq_iff x a, repo_eq_iff x b, repo_eq_iff a b)

pub edge_eq-cong : (x a b : Edge) → edge_eq a b ≡ true → edge_eq x a ≡ edge_eq x b
unfolding edge_eq
edge_eq-cong x a b h =
    let same = (edge_eq_iff a b).0 h in
    ground (arith, same, repo_eq-cong x.from a.from b.from, repo_eq-cong x.to a.to b.to)

pub edge_eq_refl : (a : Edge) → edge_eq a a ≡ true
edge_eq_refl a = (edge_eq_iff a a).1 (
  (repo_eq_iff a.from a.from).1 refl,
  (refl, ((repo_eq_iff a.to a.to).1 refl, (refl, (refl, (refl, refl))))),
)
