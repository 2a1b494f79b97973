-- ===== src/Chains/Sorted.antt =====
-- What sorting the findings and grouping by a key keep.
use cicd_squabbler.Prelude.{
  All-last, append-last, ◌≡◌, refl, Bool, true, false, not, ◌&&◌, ◌||◌, Bool-cases, inl, inr, List,
  [], ◌∷◌, ◌++◌, any, filter, is_nil, All, any-append, arith, sym, ◌∙◌,
}
use mathlib.Core.List.{append-nil}
use cicd_squabbler.Chains.Keys.{place_key, sort_onto}
use cicd_squabbler.Chains.Findings.{Finding, is_blocking}
use cicd_squabbler.Chains.Analyse.{entry_update, group_onto, sort_findings}

abbrev blocks_before : Finding → Finding → Bool
blocks_before a b = is_blocking a && not (is_blocking b)

place_key-warning :
    (fs : List Finding) (a : Finding)
    → is_blocking a ≡ false
    → place_key blocks_before fs a ≡ fs ++ a ∷ []
unfolding place_key
place_key-warning [] a h = refl
place_key-warning (f ∷ fs) a h = rw (h, place_key-warning fs a h) refl

place_key-blocking :
    (bs ws : List Finding) (a : Finding)
    → is_blocking a ≡ true
    → All (λ f. is_blocking f ≡ true) bs
    → All (λ f. is_blocking f ≡ false) ws
    → place_key blocks_before (bs ++ ws) a ≡ bs ++ a ∷ ws
unfolding place_key
place_key-blocking [] [] a h k l = refl
place_key-blocking [] (w ∷ ws) a h k l = rw (h, l.0) refl
place_key-blocking (b ∷ bs) ws a h k l = rw (h, k.0, place_key-blocking bs ws a h k.1 l) refl

append-snoc : {A : Type 0} (xs ys : List A) (a : A) → (xs ++ ys) ++ a ∷ [] ≡ xs ++ (ys ++ a ∷ [])
append-snoc [] ys a = refl
append-snoc (x ∷ xs) ys a = rw (append-snoc xs ys a) refl

sort_onto-parts :
    (bs ws fs : List Finding)
    → All (λ f. is_blocking f ≡ true) bs
    → All (λ f. is_blocking f ≡ false) ws
    → sort_onto blocks_before (bs ++ ws) fs
      ≡ (bs ++ filter is_blocking fs) ++ (ws ++ filter (λ f. not (is_blocking f)) fs)
unfolding sort_onto
sort_onto-parts bs ws [] h k = rw (append-nil bs, append-nil ws) refl
sort_onto-parts bs ws (f ∷ fs) h k = elim (Bool-cases (is_blocking f)) [
  | inl e ↦
      let ih = sort_onto-parts (bs ++ f ∷ []) ws fs (All-last _ bs f h e) k in
      let start = place_key-blocking bs ws f e h k ∙ sym (append-last bs ws f) in
      let end = append-last bs (filter is_blocking fs) f in rw (start, e, ih, end) refl
  | inr e ↦
      let ih = sort_onto-parts bs (ws ++ f ∷ []) fs h (All-last _ ws f k e) in
      let start = place_key-warning (bs ++ ws) f e ∙ append-snoc bs ws f in
      let end = append-last ws (filter (λ f. not (is_blocking f)) fs) f in
      rw (start, e, ih, end) refl
]

-- The findings in the order of the report: those that block, then the others, each kept in order.
pub sort_findings-parts :
    (fs : List Finding)
    → sort_findings fs ≡ filter is_blocking fs ++ filter (λ f. not (is_blocking f)) fs
unfolding sort_findings
sort_findings-parts fs = sort_onto-parts [] [] fs tt tt

any-filter : (fs : List Finding) → any is_blocking (filter is_blocking fs) ≡ any is_blocking fs
any-filter [] = refl
any-filter (f ∷ fs) = ground (arith, any-filter fs)

any-filter-not :
    (fs : List Finding) → any is_blocking (filter (λ f. not (is_blocking f)) fs) ≡ false
any-filter-not [] = refl
any-filter-not (f ∷ fs) = ground (arith, any-filter-not fs)

pub any-sort_findings :
    (fs : List Finding) → any is_blocking (sort_findings fs) ≡ any is_blocking fs
any-sort_findings fs = rw (sort_findings-parts fs) (
    ground (
      arith,
      any-append is_blocking (filter is_blocking fs) (filter (λ f. not (is_blocking f)) fs),
      any-filter fs,
      any-filter-not fs,
    ))

module _ {K V : Type 0} (eq lt : K → K → Bool) (q : V → Bool) where
  -- An update by which `q` of the value there becomes true or stays as it was.
  pub any-entry_update :
      (start : V) (change : V → V) (b : Bool) (key : K) (m : List (K × V))
      → q start ≡ false
      → ((v : V) → q (change v) ≡ (q v || b))
      → any (λ entry. q entry.1) (entry_update eq lt start change key m)
        ≡ (any (λ entry. q entry.1) m || b)
  unfolding entry_update
  any-entry_update start change b key [] h k = ground (arith, h, k start)
  any-entry_update start change b key (entry ∷ m) h k =
      ground (arith, any-entry_update start change b key m h k, h, k start, k entry.1)

module _ {A K : Type 0} (eq lt : K → K → Bool) (key : A → K) where
  is_nil-entry_update :
      {V : Type 0} (start : V) (change : V → V) (k : K) (m : List (K × V))
      → is_nil (entry_update eq lt start change k m) ≡ false
  unfolding entry_update
  is_nil-entry_update start change k [] = refl
  is_nil-entry_update start change k (entry ∷ m) = ground arith

  pub is_nil-group_onto :
      (m : List (K × List A)) (xs : List A)
      → is_nil (group_onto eq lt key m xs) ≡ (is_nil m && is_nil xs)
  unfolding group_onto
  is_nil-group_onto m [] = ground arith
  is_nil-group_onto m (a ∷ xs) =
      let next = entry_update eq lt [] (λ v. v ++ a ∷ []) (key a) m in
      ground (arith, is_nil-group_onto next xs, is_nil-entry_update [] (λ v. v ++ a ∷ []) (key a) m)

module _ {A : Type 0} (lt : A → A → Bool) where
  is_nil-place_key : (s : List A) (a : A) → is_nil (place_key lt s a) ≡ false
  unfolding place_key
  is_nil-place_key [] a = refl
  is_nil-place_key (x ∷ s) a = ground arith

  pub is_nil-sort_onto : (s xs : List A) → is_nil (sort_onto lt s xs) ≡ (is_nil s && is_nil xs)
  unfolding sort_onto
  is_nil-sort_onto s [] = ground arith
  is_nil-sort_onto s (a ∷ xs) =
      ground (arith, is_nil-sort_onto (place_key lt s a) xs, is_nil-place_key s a)
