-- ===== src/Chains/Weighed.antt =====
-- What the search for the heaviest chain has recorded after each repository of a landing order.
use cicd_squabbler.Prelude.{
  All-map, ap, ℕ, ◌+◌, ◌≤◌, ◌≡◌, refl, true, false, ◌||◌, Bool-cases, Option-cases, inl, inr, none,
  some, is_some, List, [], ◌∷◌, length, All, arith, sym, ◌∙◌,
}
use mathlib.Core.Path.{subst}
use cicd_squabbler.Chains.{RepoId, repo_eq, repo_lt}
use cicd_squabbler.Chains.Graph.{get, insert, contains_repo}
use cicd_squabbler.Chains.Records.{repo_eq_iff, get-insert}
use cicd_squabbler.Chains.Sources.{contains_pair-cong}
use cicd_squabbler.Chains.Landing.{contains_pair}
use cicd_squabbler.Chains.Critical.{saturating_add, Best, candidate, weigh}
use cicd_squabbler.Chains.Chain.{
  saturating_add_mono, Linked, chain_weight, Trace, stop, step, get-insert-old, Trace-insert,
  length-insert, candidate-start, candidate-upper, IsCandidate, candidate-IsCandidate,
}

All-insert :
    (P : RepoId × Best → Type 0) (best : List (RepoId × Best)) (n : RepoId) (x : Best)
    → P (n, x)
    → get best n ≡ none
    → All P best
    → All P (insert best n x)
unfolding get insert
All-insert P [] n x h k l = (h, tt)
All-insert P (entry ∷ best) n x h k l = elim (Bool-cases (repo_eq entry.0 n)) [
  | inl same ↦ ground (arith, k, same)
  | inr other ↦ elim (Bool-cases (repo_lt n entry.0)) [
    | inl first ↦ rw (other, first) (h, l)
    | inr later ↦ rw (other, later) (l.0, All-insert P best n x h (ground (arith, k, other)) l.1)
  ]
]

-- The repositories that are left: each is new, and its upstreams are done.
abbrev pub AreReady : List (RepoId × RepoId) → List RepoId → List RepoId → Type 0
AreReady pairs done [] = Unit
AreReady pairs done (n ∷ order) =
    (contains_repo done n ≡ false)
    × (((u : RepoId) → contains_pair pairs (n, u) ≡ true → contains_repo done u ≡ true)
        × AreReady pairs (n ∷ done) order)

module _ (pairs : List (RepoId × RepoId)) (weight : RepoId → ℕ)
    (same_weight : (a b : RepoId) → repo_eq a b ≡ true → weight a ≡ weight b) where
  -- After the repositories of `done`: each has an entry that no chain of the graph outweighs and that
  -- a chain of recorded upstreams attains.
  pub record IsWeighed (done : List RepoId) (best : List (RepoId × Best)) : Type 0 where
    pub known : (n : RepoId) → is_some (get best n) ≡ contains_repo done n
    pub upper :
        (n : RepoId) (b : Best) (c : List RepoId)
        → get best n ≡ some b
        → Linked pairs (n ∷ c)
        → chain_weight weight (n ∷ c) ≤ b.0
    pub traced :
        (n : RepoId) (b : Best)
        → get best n ≡ some b
        → (c : List RepoId) × (Trace pairs weight best n b.0 c × (length c + 1 ≤ length best))
    pub entries : All (λ entry. get best entry.0 ≡ some entry.1) best

  module _ (done : List RepoId) (best : List (RepoId × Best)) (n : RepoId)
      (inv : IsWeighed done best) (new : contains_repo done n ≡ false)
      (ups : (u : RepoId) → contains_pair pairs (n, u) ≡ true → contains_repo done u ≡ true) where
    abbrev cand : Best
    cand = candidate best n (weight n) pairs (weight n, none)

    absent : get best n ≡ none
    absent =
        let k = inv.known n in
        elim (Option-cases (get best n)) [ inl e ↦ e | inr (b, e) ↦ ground (arith, k, e, new) ]

    get-new : (m : RepoId) → repo_eq n m ≡ true → get (insert best n cand) m ≡ some cand
    get-new m h = ground (arith, h, get-insert best n m cand)

    -- Another repository has the entry that it had.
    get-other : (m : RepoId) → repo_eq n m ≡ false → get (insert best n cand) m ≡ get best m
    get-other m h = ground (arith, h, get-insert best n m cand)

    known-next : (m : RepoId) → is_some (get (insert best n cand) m) ≡ contains_repo (n ∷ done) m
    unfolding contains_repo
    known-next m = ground (arith, get-insert best n m cand, inv.known m)

    upper-new :
        (m : RepoId) (c : List RepoId)
        → repo_eq n m ≡ true
        → Linked pairs (m ∷ c)
        → chain_weight weight (m ∷ c) ≤ cand.0
    upper-new m [] h l =
        let same = same_weight n m h in
        let least = candidate-start best n (weight n) pairs (weight n, none) in
        omega (arith, same, least)
    upper-new m (u ∷ c) h l =
        let pair : contains_pair pairs (n, u) ≡ true =
          contains_pair-cong pairs n u m u h ((repo_eq_iff u u).1 refl) ∙ l.0 in
        let there = inv.known u ∙ ups u pair in
        elim (Option-cases (get best u)) [
          | inl e ↦ ground (arith, there, e)
          | inr (b, e) ↦
              let less = inv.upper u b c e l.1 in
              let more = candidate-upper best n (weight n) pairs (weight n, none) u b pair e in
              let mono = saturating_add_mono _ b.0 (weight n) less in
              rw (sym (same_weight n m h)) (omega (arith, mono, more))
        ]

    upper-next :
        (m : RepoId) (b : Best) (c : List RepoId)
        → get (insert best n cand) m ≡ some b
        → Linked pairs (m ∷ c)
        → chain_weight weight (m ∷ c) ≤ b.0
    upper-next m b c h l = elim (Bool-cases (repo_eq n m)) [
      | inl e ↦
          let same : cand ≡ b = cc (get-new m e, h) in
          subst (λ x. chain_weight weight (m ∷ c) ≤ x.0) same (upper-new m c e l)
      | inr e ↦ inv.upper m b c (sym (get-other m e) ∙ h) l
    ]

    recorded :
        (r : Best)
        → IsCandidate best n (weight n) pairs (weight n, none) r
        → (m : RepoId) → repo_eq n m ≡ true
        → get (insert best n cand) m ≡ some r
        → (c : List RepoId) × (Trace pairs weight (insert best n cand) m r.0 c
            × (length c ≤ length best))
    recorded r (inl e) m h k =
        ([], (stop m r.0 (cc (k, e)) (ap (λ x. x.0) e ∙ same_weight n m h), omega arith))
    recorded r (inr (u, (b, (pair, (got, e))))) m h k =
        let t = inv.traced u b got in
        let pair_m : contains_pair pairs (m, u) ≡ true =
          sym (contains_pair-cong pairs n u m u h ((repo_eq_iff u u).1 refl)) ∙ pair in
        (
          u ∷ t.0,
          (
            step m u r.0 b.0 t.0 (cc (k, e)) pair_m
                (ap (λ x. x.0) e ∙ ap (saturating_add b.0) (same_weight n m h))
                (Trace-insert pairs weight best n cand u b.0 t.0 absent t.1.0),
            omega (arith, t.1.1),
          ),
        )

    traced-next :
        (m : RepoId) (b : Best)
        → get (insert best n cand) m ≡ some b
        → (c : List RepoId) × (Trace pairs weight (insert best n cand) m b.0 c
            × (length c + 1 ≤ length (insert best n cand)))
    traced-next m b h = elim (Bool-cases (repo_eq n m)) [
      | inl e ↦
          let same : cand ≡ b = cc (get-new m e, h) in
          let made =
            subst (IsCandidate best n (weight n) pairs (weight n, none)) same
              (candidate-IsCandidate best n (weight n) pairs (weight n, none)) in
          let t = recorded b made m e h in
          (t.0, (t.1.0, omega (arith, t.1.1, length-insert best n cand absent)))
      | inr e ↦
          let t = inv.traced m b (sym (get-other m e) ∙ h) in
          (
            t.0,
            (
              Trace-insert pairs weight best n cand m b.0 t.0 absent t.1.0,
              omega (arith, t.1.1, length-insert best n cand absent),
            ),
          )
    ]

    entries-next :
        All (λ entry. get (insert best n cand) entry.0 ≡ some entry.1) (insert best n cand)
    entries-next =
        All-insert (λ entry. get (insert best n cand) entry.0 ≡ some entry.1) best n cand
          (get-new n ((repo_eq_iff n n).1 refl)) absent
          (All-map _ _ best (λ entry h. get-insert-old best n entry.0 cand entry.1 absent h)
            inv.entries)

    IsWeighed-next : IsWeighed (n ∷ done) (insert best n cand)
    IsWeighed-next = record {
      known = known-next;
      upper = upper-next;
      traced = traced-next;
      entries = entries-next;
    }

  pub weigh-IsWeighed :
      (done : List RepoId) (best : List (RepoId × Best)) (order : List RepoId)
      → IsWeighed done best
      → AreReady pairs done order
      → (all_done : List RepoId) × (IsWeighed all_done (weigh weight pairs best order)
          × ((n : RepoId)
              → contains_repo all_done n ≡ (contains_repo done n || contains_repo order n)))
  unfolding weigh contains_repo
  weigh-IsWeighed done best [] inv ready = (done, (inv, λ n. ground arith))
  weigh-IsWeighed done best (n ∷ order) inv ready =
      let next = IsWeighed-next done best n inv ready.0 ready.1.0 in
      let rest = weigh-IsWeighed (n ∷ done) _ order next ready.1.1 in
      (rest.0, (rest.1.0, λ m. ground (arith, rest.1.1 m)))
