-- ===== src/Chains/Keys.antt =====
-- crates/squabble-core/src/chains.rs: the equality and the order that `Pin`, `EdgeKind` and `Edge`
-- derive from their fields, and ordered sets and lists of such values. A BTreeSet is the list of its
-- members in order.
use cicd_squabbler.Prelude.{
  Bool, true, false, ◌&&◌, ◌||◌, if◌then◌else◌, Option, none, some, List, [], ◌∷◌, Str, str_eq,
  str_lt,
}
use cicd_squabbler.Chains.{
  repo_eq, repo_lt, Pin, sha, mutable, EdgeKind, reusable_workflow, action, Edge,
}

-- A derived order compares the first fields that differ.
abbrev pub lex : Bool → Bool → Bool → Bool
lex less same rest = less || (same && rest)

module _ {A : Type 0} (eq : A → A → Bool) where
  unfoldable pub contains_key : List A → A → Bool
  contains_key [] a = false
  contains_key (x ∷ s) a = eq x a || contains_key s a

  -- `dedup`: the first of equal neighbours stays.
  unfoldable pub dedup_from : A → List A → List A
  dedup_from a [] = []
  dedup_from a (x ∷ xs) =
      let same = dedup_from a xs in
      let other = dedup_from x xs in if eq a x then same else x ∷ other

  unfoldable pub dedup_keys : List A → List A
  unfolding dedup_from
  dedup_keys [] = []
  dedup_keys (x ∷ xs) = x ∷ dedup_from x xs

module _ {A : Type 0} (lt : A → A → Bool) where
  -- A new member stands before the first greater one.
  unfoldable pub place_key : List A → A → List A
  place_key [] a = a ∷ []
  place_key (x ∷ s) a = let rest = place_key s a in if lt a x then a ∷ (x ∷ s) else x ∷ rest

  -- `sort`: equal elements keep their order.
  unfoldable pub sort_onto : List A → List A → List A
  unfolding place_key
  sort_onto sorted [] = sorted
  sort_onto sorted (a ∷ rest) = sort_onto (place_key sorted a) rest

module _ {A : Type 0} (eq lt : A → A → Bool) where
  unfoldable pub insert_key : List A → A → List A
  unfolding contains_key place_key
  insert_key s a = if contains_key eq s a then s else place_key lt s a

  unfoldable pub insert_keys : List A → List A → List A
  unfolding insert_key
  insert_keys s [] = s
  insert_keys s (a ∷ rest) = insert_keys (insert_key s a) rest

unfoldable pub pin_eq : Pin → Pin → Bool
pin_eq (sha s) (sha t) = str_eq s t
pin_eq (mutable s) (mutable t) = str_eq s t
pin_eq _ _ = false

unfoldable pub pin_lt : Pin → Pin → Bool
pin_lt (sha s) (sha t) = str_lt s t
pin_lt (sha s) (mutable t) = true
pin_lt (mutable s) (sha t) = false
pin_lt (mutable s) (mutable t) = str_lt s t

unfoldable pub kind_eq : EdgeKind → EdgeKind → Bool
kind_eq reusable_workflow reusable_workflow = true
kind_eq action action = true
kind_eq _ _ = false

unfoldable pub kind_lt : EdgeKind → EdgeKind → Bool
kind_lt reusable_workflow action = true
kind_lt _ _ = false

unfoldable pub text_eq : Option Str → Option Str → Bool
text_eq none none = true
text_eq (some s) (some t) = str_eq s t
text_eq _ _ = false

unfoldable pub text_lt : Option Str → Option Str → Bool
text_lt none (some t) = true
text_lt (some s) (some t) = str_lt s t
text_lt _ _ = false

unfoldable pub edge_eq : Edge → Edge → Bool
unfolding repo_eq pin_eq kind_eq text_eq
edge_eq a b =
    repo_eq a.from b.from
    && (str_eq a.file b.file
        && (repo_eq a.to b.to
            && (kind_eq a.kind b.kind
                && (text_eq a.path b.path
                    && (pin_eq a.pin b.pin && text_eq a.version_hint b.version_hint)))))

unfoldable pub edge_lt : Edge → Edge → Bool
unfolding repo_eq repo_lt pin_eq pin_lt kind_eq kind_lt text_eq text_lt
edge_lt a b = lex (repo_lt a.from b.from) (repo_eq a.from b.from) (
    lex (str_lt a.file b.file) (str_eq a.file b.file) (
      lex (repo_lt a.to b.to) (repo_eq a.to b.to) (
        lex (kind_lt a.kind b.kind) (kind_eq a.kind b.kind) (
          lex (text_lt a.path b.path) (text_eq a.path b.path) (
            lex (pin_lt a.pin b.pin) (pin_eq a.pin b.pin)
              (text_lt a.version_hint b.version_hint))))))
