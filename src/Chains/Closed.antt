-- ===== src/Chains/Closed.antt =====
-- The loop over the confirmed edges reaches the least set closed under calls, within its fuel.
use cicd_squabbler.Prelude.{
  In-All, All-filter, In-filter, ℕ, zero, suc, ◌+◌, ◌≤◌, ◌≡◌, refl, ◌↔◌, Bool, true, false, not,
  ◌&&◌, if◌then◌else◌, Bool-cases, inl, inr, List, [], ◌∷◌, any, filter, is_nil, length, All, In,
  arith,
}
use cicd_squabbler.Chains.{Edge}
use cicd_squabbler.Chains.Graph.{ChainGraph, contains_repo, is_scanned}
use cicd_squabbler.Chains.Keys.{contains_key, insert_keys, edge_eq, edge_lt}
use cicd_squabbler.Chains.KeySets.{contains-insert_keys, All-insert_keys, edge_eq-cong}
use cicd_squabbler.Chains.Confirming.{
  IsConfirmed, requested, carried, contains_key-In, find-contains, any-carries, IsConfirmed-cong,
  confirm-All, confirm-old,
}
use cicd_squabbler.Chains.Confirmed.{carries, additions, confirm, subject_edges, confirmed_edges}

-- How many of the edges are not confirmed.
abbrev missing : List Edge → List Edge → ℕ
missing s [] = 0
missing s (e ∷ es) = if contains_key edge_eq s e then missing s es else suc (missing s es)

missing-length : (s es : List Edge) → missing s es ≤ length es
missing-length s [] = omega arith
missing-length s (e ∷ es) = ground (arith, missing-length s es)

missing-grows :
    (s t es : List Edge)
    → ((e : Edge) → contains_key edge_eq s e ≡ true → contains_key edge_eq t e ≡ true)
    → missing t es ≤ missing s es
missing-grows s t [] h = omega arith
missing-grows s t (e ∷ es) h = ground (arith, missing-grows s t es h, h e)

missing-less :
    (s t : List Edge) (p : Edge → Bool) (es : List Edge)
    → ((e : Edge) → contains_key edge_eq s e ≡ true → contains_key edge_eq t e ≡ true)
    → ((e : Edge) → p e ≡ true → contains_key edge_eq s e ≡ false)
    → All (λ e. contains_key edge_eq t e ≡ true) (filter p es)
    → is_nil (filter p es) ≡ false
    → missing t es + 1 ≤ missing s es
missing-less s t p [] h k l n = cc
missing-less s t p (e ∷ es) h k l n = elim (Bool-cases (p e)) [
  | inl passes ↦
      let there : contains_key edge_eq t e ≡ true = (rw passes at l).0 in
      ground (arith, there, k e passes, missing-grows s t es h)
  | inr fails ↦ ground (arith, missing-less s t p es h k (rw fails at l) (rw fails at n), h e)
]

missing-none :
    (s : List Edge) (p : Edge → Bool) (es : List Edge)
    → ((e : Edge) → p e ≡ true → contains_key edge_eq s e ≡ false)
    → missing s es ≤ 0
    → is_nil (filter p es) ≡ true
missing-none s p [] h k = refl
missing-none s p (e ∷ es) h k = ground (arith, missing-none s p es h, h e)

module _ (g : ChainGraph) (s : List Edge) where
  abbrev more : List Edge
  more = additions g s

  abbrev joined : List Edge
  joined = insert_keys edge_eq edge_lt s more

  joined-old : (e : Edge) → contains_key edge_eq s e ≡ true → contains_key edge_eq joined e ≡ true
  joined-old e h = ground (arith, h, contains-insert_keys edge_eq edge_lt edge_eq-cong s more e)

  joined-new : All (λ e. contains_key edge_eq joined e ≡ true) more
  joined-new = In-All _ more (λ e m.
      ground (
        arith,
        contains_key-In more e m,
        contains-insert_keys edge_eq edge_lt edge_eq-cong s more e,
      ))

  additions-less : is_nil more ≡ false → missing joined g.edges + 1 ≤ missing s g.edges
  unfolding additions
  additions-less h =
      missing-less s joined _ g.edges joined-old (λ e k. ground (arith, k)) joined-new h

  additions-In :
      (e : Edge)
      → In e g.edges
      → ((not (contains_key edge_eq s e) && is_scanned g e.from)
          && any (λ caller. carries g caller e) s)
        ≡ true
      → In e more
  unfolding additions
  additions-In e m h = In-filter _ g.edges e m h

  additions-none : missing s g.edges ≤ 0 → is_nil more ≡ true
  unfolding additions
  additions-none h = missing-none s _ g.edges (λ e k. ground (arith, k)) h

-- The fuel suffices: the loop ends where there is nothing to add.
confirm-closed :
    (g : ChainGraph) (fuel : ℕ) (s : List Edge)
    → missing s g.edges ≤ fuel
    → is_nil (additions g (confirm g fuel s)) ≡ true
unfolding confirm
confirm-closed g zero s h = additions-none g s h
confirm-closed g (suc fuel) s h = elim (Bool-cases (is_nil (additions g s))) [
  | inl e ↦ rw e e
  | inr e ↦
      let less = additions-less g s e in
      rw e (confirm-closed g fuel (joined g s) (omega (arith, less, h)))
]

confirmed_edges-closed : (g : ChainGraph) → is_nil (additions g (confirmed_edges g)) ≡ true
unfolding confirmed_edges
confirmed_edges-closed g =
    confirm-closed g (length g.edges) (insert_keys edge_eq edge_lt [] (subject_edges g))
      (missing-length (insert_keys edge_eq edge_lt [] (subject_edges g)) g.edges)

additions-none_of :
    (g : ChainGraph) (s : List Edge) (c e : Edge)
    → is_nil (additions g s) ≡ true
    → contains_key edge_eq s c ≡ true
    → In e g.edges
    → is_scanned g e.from ≡ true
    → carries g c e ≡ true
    → contains_key edge_eq s e ≡ true
additions-none_of g s c e n h m k l = elim (Bool-cases (contains_key edge_eq s e)) [
  | inl there ↦ there
  | inr absent ↦ absurd (not-In-nil (additions g s) n (In-additions absent))
]
  where
    not-In-nil : (xs : List Edge) → is_nil xs ≡ true → ¬ In e xs
    not-In-nil [] n m = m
    not-In-nil (x ∷ xs) n m = cc

    In-additions : contains_key edge_eq s e ≡ false → In e (additions g s)
    In-additions absent = additions-In g s e m (ground (arith, absent, k, any-carries g s c e h l))

requested-confirmed :
    (g : ChainGraph) (e : Edge)
    → In e g.edges
    → contains_repo g.subjects e.from ≡ true
    → is_scanned g e.from ≡ true
    → contains_key edge_eq (confirmed_edges g) e ≡ true
unfolding confirmed_edges subject_edges
requested-confirmed g e m h k =
    let start = filter (λ d. contains_repo g.subjects d.from && is_scanned g d.from) g.edges in
    let there = contains_key-In start e (In-filter _ g.edges e m (ground (arith, h, k))) in
    confirm-old g (length g.edges) (insert_keys edge_eq edge_lt [] start) e
      (ground (arith, there, contains-insert_keys edge_eq edge_lt edge_eq-cong [] start e))

confirmed_edges_complete :
    (g : ChainGraph) (e : Edge)
    → IsConfirmed g e
    → contains_key edge_eq (confirmed_edges g) e ≡ true
confirmed_edges_complete g _ (requested e m h k) = requested-confirmed g e m h k
confirmed_edges_complete g _ (carried c e i m h k) =
    additions-none_of g (confirmed_edges g) c e (confirmed_edges-closed g)
      (confirmed_edges_complete g c i) m h k

confirmed_edges-All : (g : ChainGraph) → All (IsConfirmed g) (confirmed_edges g)
unfolding confirmed_edges subject_edges
confirmed_edges-All g = confirm-All g (length g.edges) _ (
    All-insert_keys edge_eq edge_lt (IsConfirmed g) [] _ tt (
      All-filter (IsConfirmed g) _ g.edges (λ e m k.
        let both : (contains_repo g.subjects e.from ≡ true) × (is_scanned g e.from ≡ true) =
          ground (arith, k) in
        requested e m both.0 both.1)))

-- An edge of the graph is among the confirmed ones exactly when it stands in a scanned subject, or a
-- confirmed edge calls the workflow it stands in by the commit that was read: the loop reaches the
-- least set that is closed under such calls, and ends there.
pub confirmed_edges_iff :
    (g : ChainGraph) (e : Edge)
    → In e g.edges
    → (contains_key edge_eq (confirmed_edges g) e ≡ true) ↔ IsConfirmed g e
confirmed_edges_iff g e m = (
  λ h.
      let found = find-contains (IsConfirmed g) (confirmed_edges g) e (confirmed_edges-All g) h in
      IsConfirmed-cong g found.0 e found.1.0 found.1.1 m,
  confirmed_edges_complete g e,
)
