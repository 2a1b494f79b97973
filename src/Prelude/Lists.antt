-- ===== src/Prelude/Lists.antt =====
-- Lists with Boolean predicates, as Rust's iterators use them, and the predicates that they decide.
use Prim.Native.Nat.{◌+◌, ℕ, zero, suc}
use mathlib.Core.Path.{◌≡◌, refl, ap, sym, subst}
use mathlib.Core.Logic.{◌↔◌, ◌⊎◌, inl, inr}
use mathlib.Core.Bool.{Bool, true, false, not, ◌&&◌, ◌||◌}
use mathlib.Core.Option.{Option, none, some}
use mathlib.Core.List.{List, [], ◌∷◌, ◌++◌, map, reverse, reverse-cons}
use native.Mathlib.Omega.{arith}
use cicd_squabbler.Prelude.Tests.{if◌then◌else◌, Bool-cases}

module _ {ℓ} {A : Type ℓ} where
  abbrev pub length : List A → ℕ
  length [] = 0
  length (x ∷ xs) = suc (length xs)

  abbrev pub get_elem? : List A → ℕ → Option A
  get_elem? [] i = none
  get_elem? (x ∷ xs) zero = some x
  get_elem? (x ∷ xs) (suc i) = get_elem? xs i

  -- `is_empty`
  abbrev pub is_nil : List A → Bool
  is_nil [] = true
  is_nil (x ∷ xs) = false

  module _ (p : A → Bool) where
    abbrev pub all : List A → Bool
    all [] = true
    all (x ∷ xs) = p x && all xs

    abbrev pub any : List A → Bool
    any [] = false
    any (x ∷ xs) = p x || any xs

    -- The first element that passes.
    abbrev pub find? : List A → Option A
    find? [] = none
    find? (x ∷ xs) = if p x then some x else find? xs

    abbrev pub filter : List A → List A
    filter [] = []
    filter (x ∷ xs) = let rest = filter xs in if p x then x ∷ rest else rest

-- Every element, some element.
module _ {ℓ} {A : Type ℓ} (P : A → Type 0) where
  abbrev pub All : List A → Type 0
  All [] = Unit
  All (x ∷ xs) = P x × All xs

  abbrev pub Any : List A → Type 0
  Any [] = ⊥
  Any (x ∷ xs) = P x ⊎ Any xs

module _ {A : Type 0} where
  -- Membership, with the position.
  abbrev pub In : A → List A → Type 0
  In a xs = Any (λ x. x ≡ a) xs

  pub All-In : (P : A → Type 0) (xs : List A) (a : A) → All P xs → In a xs → P a
  All-In P [] a h m = absurd m
  All-In P (x ∷ xs) a h (inl e) = subst P e h.0
  All-In P (x ∷ xs) a h (inr m) = All-In P xs a h.1 m

module _ {ℓ} {A : Type ℓ} (p : A → Bool) where
  pub all_iff : (xs : List A) → (all p xs ≡ true) ↔ All (λ x. p x ≡ true) xs
  all_iff [] = (λ _. tt, λ _. refl)
  all_iff (x ∷ xs) = ground (arith, all_iff xs)

  pub any_iff : (xs : List A) → (any p xs ≡ true) ↔ Any (λ x. p x ≡ true) xs
  any_iff [] = (λ h. cc, λ h. absurd h)
  any_iff (x ∷ xs) = ground (arith, any_iff xs)

  pub any-eq-false_iff : (xs : List A) → (any p xs ≡ false) ↔ All (λ x. p x ≡ false) xs
  any-eq-false_iff [] = (λ _. tt, λ _. refl)
  any-eq-false_iff (x ∷ xs) = ground (arith, any-eq-false_iff xs)

  pub filter-eq-nil_iff : (xs : List A) → (filter p xs ≡ []) ↔ All (λ x. p x ≡ false) xs
  filter-eq-nil_iff [] = (λ _. tt, λ _. refl)
  filter-eq-nil_iff (x ∷ xs) = ground (arith, filter-eq-nil_iff xs)

  pub is_nil-filter : (xs : List A) → is_nil (filter p xs) ≡ not (any p xs)
  is_nil-filter [] = refl
  is_nil-filter (x ∷ xs) = ground (arith, is_nil-filter xs)

  -- `a` is the first element of `xs` that passes `p`.
  pub record IsFirst (xs : List A) (a : A) : Type ℓ where
    pub passes : p a ≡ true
    pub before : List A
    pub after : List A
    pub split : xs ≡ before ++ a ∷ after
    pub earlier : All (λ x. p x ≡ false) before

  pub find?-IsFirst : (xs : List A) {a : A} → find? p xs ≡ some a → IsFirst xs a
  find?-IsFirst [] h = cc
  find?-IsFirst (x ∷ xs) h = elim (Bool-cases (p x)) [
    | inl e ↦ record {
      passes = ground arith;
      before = [];
      after = xs;
      split = ground arith;
      earlier = tt;
    }
    | inr e ↦
        let ih = find?-IsFirst xs (rw e at h) in
        record {
          passes = ih.passes;
          before = x ∷ ih.before;
          after = ih.after;
          split = cc ih.split;
          earlier = (e, ih.earlier);
        }
  ]

  pub find?-eq-none_iff : (xs : List A) → (find? p xs ≡ none) ↔ (any p xs ≡ false)
  find?-eq-none_iff [] = (λ _. refl, λ _. refl)
  find?-eq-none_iff (x ∷ xs) = ground (arith, find?-eq-none_iff xs)

module _ {ℓ} {A : Type ℓ} (p : A → Bool) where
  pub any-append : (xs ys : List A) → any p (xs ++ ys) ≡ (any p xs || any p ys)
  any-append [] ys = refl
  any-append (x ∷ xs) ys = ground (arith, any-append xs ys)

  pub any-reverse : (xs : List A) → any p (reverse xs) ≡ any p xs
  any-reverse [] = refl
  any-reverse (x ∷ xs) =
      rw reverse-cons (ground (arith, any-append (reverse xs) (x ∷ []), any-reverse xs))

  pub any_of_IsFirst : (xs : List A) {a : A} → IsFirst p xs a → any p xs ≡ true
  any_of_IsFirst xs {a} f = rw f.split (ground (arith, any-append f.before (a ∷ f.after), f.passes))

module _ {ℓ κ} {A : Type ℓ} {B : Type κ} where
  pub length-map : (f : A → B) (xs : List A) → length (map f xs) ≡ length xs
  length-map f [] = refl
  length-map f (x ∷ xs) = ap suc (length-map f xs)

module _ {ℓ} {A : Type ℓ} where
  pub length-append : (xs ys : List A) → length (xs ++ ys) ≡ length xs + length ys
  length-append [] ys = omega arith
  length-append (x ∷ xs) ys = omega (arith, length-append xs ys)

module _ {A : Type 0} (P : A → Type 0) (p : A → Bool) where
  pub All-filter : (xs : List A) → ((x : A) → In x xs → p x ≡ true → P x) → All P (filter p xs)
  All-filter [] h = tt
  All-filter (x ∷ xs) h =
      let rest = All-filter xs (λ y m k. h y (inr m) k) in
      elim (Bool-cases (p x)) [ inl e ↦ rw e (h x (inl refl) e, rest) | inr e ↦ rw e rest ]

  pub find-any : (xs : List A) → All P xs → any p xs ≡ true → (x : A) × (P x × (p x ≡ true))
  find-any [] h k = cc
  find-any (x ∷ xs) h k = elim (Bool-cases (p x)) [
    | inl e ↦ (x, (h.0, e))
    | inr e ↦ find-any xs h.1 (ground (arith, e, k))
  ]

module _ {A : Type 0} (p : A → Bool) where
  pub In-filter : (xs : List A) (x : A) → In x xs → p x ≡ true → In x (filter p xs)
  In-filter [] x m h = absurd m
  In-filter (y ∷ xs) x (inl e) h =
      let there : p y ≡ true = subst (λ z. p z ≡ true) (sym e) h in rw there (inl e)
  In-filter (y ∷ xs) x (inr m) h =
      let rest = In-filter xs x m h in
      elim (Bool-cases (p y)) [ inl e ↦ rw e (inr rest) | inr e ↦ rw e rest ]

pub In-All : {A : Type 0} (P : A → Type 0) (xs : List A) → ((x : A) → In x xs → P x) → All P xs
In-All P [] h = tt
In-All P (x ∷ xs) h = (h x (inl refl), In-All P xs (λ y m. h y (inr m)))

pub Any-In : {A : Type 0} (P : A → Type 0) (xs : List A) → Any P xs → (x : A) × (In x xs × P x)
Any-In P [] h = absurd h
Any-In P (x ∷ xs) (inl p) = (x, (inl refl, p))
Any-In P (x ∷ xs) (inr h) = let r = Any-In P xs h in (r.0, (inr r.1.0, r.1.1))

pub In-Any : {A : Type 0} (P : A → Type 0) (xs : List A) (x : A) → In x xs → P x → Any P xs
In-Any P [] x m p = absurd m
In-Any P (y ∷ xs) x (inl e) p = inl (subst P (sym e) p)
In-Any P (y ∷ xs) x (inr m) p = inr (In-Any P xs x m p)

module _ {A : Type 0} (P : A → Type 0) where
  pub All-map : (Q : A → Type 0) (xs : List A) → ((x : A) → P x → Q x) → All P xs → All Q xs
  All-map Q [] h k = tt
  All-map Q (x ∷ xs) h k = (h x k.0, All-map Q xs h k.1)

  pub All-append : (xs ys : List A) → All P xs → All P ys → All P (xs ++ ys)
  All-append [] ys h k = k
  All-append (x ∷ xs) ys h k = (h.0, All-append xs ys h.1 k)

  pub All-last : (xs : List A) (a : A) → All P xs → P a → All P (xs ++ a ∷ [])
  All-last xs a h k = All-append xs (a ∷ []) h (k, tt)

module _ {A : Type 0} where
  pub In-append-left : (xs ys : List A) (a : A) → In a xs → In a (xs ++ ys)
  In-append-left [] ys a m = absurd m
  In-append-left (x ∷ xs) ys a (inl e) = inl e
  In-append-left (x ∷ xs) ys a (inr m) = inr (In-append-left xs ys a m)

  pub In-append-right : (xs ys : List A) (a : A) → In a ys → In a (xs ++ ys)
  In-append-right [] ys a m = m
  In-append-right (x ∷ xs) ys a m = inr (In-append-right xs ys a m)

  -- Adding an element at the end, then more.
  pub append-last : (xs ys : List A) (a : A) → (xs ++ a ∷ []) ++ ys ≡ xs ++ a ∷ ys
  append-last [] ys a = refl
  append-last (x ∷ xs) ys a = ap (λ s. x ∷ s) (append-last xs ys a)
