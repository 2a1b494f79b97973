-- ===== src/Chains/Confirming.antt =====
-- An edge is confirmed exactly when a route of calls leads to it from a requested subject.
use cicd_squabbler.Prelude.{
  All-filter, find-any, ℕ, zero, suc, ◌≡◌, refl, true, Bool-cases, inl, inr, List, [], ◌∷◌, any,
  is_nil, All, In, arith,
}
use mathlib.Core.Path.{subst, sym, ◌∙◌}
use cicd_squabbler.Chains.{RepoId, repo_eq, Edge}
use cicd_squabbler.Chains.Graph.{ChainGraph, contains_repo, get, is_scanned, scanned_revision}
use cicd_squabbler.Chains.Records.{repo_eq_iff}
use cicd_squabbler.Chains.Sets.{contains-cong}
use cicd_squabbler.Chains.Keys.{contains_key, insert_keys, edge_eq, edge_lt}
use cicd_squabbler.Chains.KeySets.{
  contains-insert_keys, All-insert_keys, edge_eq_iff, edge_eq-cong, edge_eq_refl, repo_eq-cong,
}
use cicd_squabbler.Chains.Confirmed.{reusable_file, carries, additions, confirm}

-- What it means for a reference to be confirmed: it stands in a scanned repository that was asked
-- for, or in the workflow that a confirmed reference calls, read at the commit that is pinned.
pub data IsConfirmed (g : ChainGraph) : Edge → Type 0 where
  requested :
      (e : Edge)
      → In e g.edges
      → contains_repo g.subjects e.from ≡ true
      → is_scanned g e.from ≡ true
      → IsConfirmed g e
  carried :
      (caller e : Edge)
      → IsConfirmed g caller
      → In e g.edges
      → is_scanned g e.from ≡ true
      → carries g caller e ≡ true
      → IsConfirmed g e

pub contains_key-In : (s : List Edge) (e : Edge) → In e s → contains_key edge_eq s e ≡ true
unfolding contains_key
contains_key-In [] e m = absurd m
contains_key-In (x ∷ s) e (inl same) =
    let here : edge_eq x e ≡ true = subst (λ z. edge_eq x z ≡ true) same (edge_eq_refl x) in
    ground (arith, here)
contains_key-In (x ∷ s) e (inr m) = ground (arith, contains_key-In s e m)

pub find-contains :
    (P : Edge → Type 0) (s : List Edge) (e : Edge)
    → All P s
    → contains_key edge_eq s e ≡ true
    → (x : Edge) × (P x × (edge_eq x e ≡ true))
unfolding contains_key
find-contains P [] e h k = cc
find-contains P (x ∷ s) e h k = elim (Bool-cases (edge_eq x e)) [
  | inl same ↦ (x, (h.0, same))
  | inr other ↦ find-contains P s e h.1 (ground (arith, other, k))
]

pub get-cong :
    {V : Type 0} (m : List (RepoId × V)) (a b : RepoId) → repo_eq a b ≡ true → get m a ≡ get m b
unfolding get
get-cong [] a b h = refl
get-cong (entry ∷ m) a b h = ground (arith, get-cong m a b h, repo_eq-cong entry.0 a b h)

pub is_scanned-cong :
    (g : ChainGraph) (a b : RepoId) → repo_eq a b ≡ true → is_scanned g a ≡ is_scanned g b
unfolding is_scanned
is_scanned-cong g a b h = rw (get-cong g.scans a b h) refl

carries-right : (g : ChainGraph) (c a b : Edge) → edge_eq a b ≡ true → carries g c a ≡ carries g c b
unfolding carries scanned_revision
carries-right g c a b h =
    let same = (edge_eq_iff a b).0 h in
    rw (get-cong g.scans a.from b.from same.0, same.1.0, repo_eq-cong c.to a.from b.from same.0)
      refl

repo_eq-left : (x a b : RepoId) → repo_eq a b ≡ true → repo_eq a x ≡ repo_eq b x
repo_eq-left x a b h = ground (arith, repo_eq_iff a x, repo_eq_iff b x, repo_eq_iff a b)

carries-left : (g : ChainGraph) (a b e : Edge) → edge_eq a b ≡ true → carries g a e ≡ carries g b e
unfolding carries reusable_file
carries-left g a b e h =
    let same = (edge_eq_iff a b).0 h in
    rw (repo_eq-left e.from a.to b.to same.1.1.0, same.1.1.1.0, same.1.1.1.1.0, same.1.1.1.1.1.0)
      refl

pub any-carries :
    (g : ChainGraph) (s : List Edge) (c e : Edge)
    → contains_key edge_eq s c ≡ true
    → carries g c e ≡ true
    → any (λ caller. carries g caller e) s ≡ true
unfolding contains_key
any-carries g [] c e h k = cc
any-carries g (x ∷ s) c e h k = ground (arith, any-carries g s c e, carries-left g x c e)

IsConfirmed-In : (g : ChainGraph) (e : Edge) → IsConfirmed g e → In e g.edges
IsConfirmed-In g _ (requested e m h k) = m
IsConfirmed-In g _ (carried c e i m h k) = m

pub IsConfirmed-cong :
    (g : ChainGraph) (x e : Edge)
    → IsConfirmed g x
    → edge_eq x e ≡ true
    → In e g.edges
    → IsConfirmed g e
IsConfirmed-cong g _ e (requested x m h k) same there =
    let from = ((edge_eq_iff x e).0 same).0 in
    requested e there (sym (contains-cong g.subjects x.from e.from from) ∙ h)
      (sym (is_scanned-cong g x.from e.from from) ∙ k)
IsConfirmed-cong g _ e (carried c x i m h k) same there =
    let from = ((edge_eq_iff x e).0 same).0 in
    carried c e i there (sym (is_scanned-cong g x.from e.from from) ∙ h)
      (sym (carries-right g c x e same) ∙ k)

pub additions-All :
    (g : ChainGraph) (s : List Edge) → All (IsConfirmed g) s → All (IsConfirmed g) (additions g s)
unfolding additions
additions-All g s h = All-filter (IsConfirmed g) _ g.edges (λ e m k.
    let both : (is_scanned g e.from ≡ true) × (any (λ caller. carries g caller e) s ≡ true) =
      ground (arith, k) in
    let found = find-any (IsConfirmed g) (λ caller. carries g caller e) s h both.1 in
    carried found.0 e found.1.0 m both.0 found.1.1)

pub confirm-All :
    (g : ChainGraph) (fuel : ℕ) (s : List Edge)
    → All (IsConfirmed g) s
    → All (IsConfirmed g) (confirm g fuel s)
unfolding confirm
confirm-All g zero s h = h
confirm-All g (suc fuel) s h =
    let next =
      confirm-All g fuel (insert_keys edge_eq edge_lt s (additions g s)) (
        All-insert_keys edge_eq edge_lt (IsConfirmed g) s (additions g s) h
          (additions-All g s h)) in
    elim (Bool-cases (is_nil (additions g s))) [ inl e ↦ rw e h | inr e ↦ rw e next ]

pub confirm-old :
    (g : ChainGraph) (fuel : ℕ) (s : List Edge) (e : Edge)
    → contains_key edge_eq s e ≡ true
    → contains_key edge_eq (confirm g fuel s) e ≡ true
unfolding confirm
confirm-old g zero s e h = h
confirm-old g (suc fuel) s e h =
    let more = additions g s in
    let next =
      confirm-old g fuel (insert_keys edge_eq edge_lt s more) e
        (ground (arith, h, contains-insert_keys edge_eq edge_lt edge_eq-cong s more e)) in
    elim (Bool-cases (is_nil more)) [ inl k ↦ rw k h | inr k ↦ rw k next ]
