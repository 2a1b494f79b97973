-- ===== src/Done/Steps.antt =====
-- For each step of the definition of done, when it leaves the agent nothing to do.
use cicd_squabbler.Prelude.{
  ◌≡◌, refl, ◌↔◌, ◌⊎◌, ◌≢◌, Bool, true, false, ◌&&◌, Option, none, some, List, [], ◌∷◌, ◌++◌, map,
  is_nil, All, In, arith, Str, codes, str_eq_iff, mem_iff, if◌then◌else◌,
}
use cicd_squabbler.Gate.{CheckRun, missing, pending, failed, RequiredCheck}
use cicd_squabbler.Done.Facts.{
  Mergeability, mergeable, Observed, PrFacts, strip_bot, acknowledged_in,
}
use cicd_squabbler.Done.{
  mergeable_items, required_items, red_items, red_item, is_red_extra, bot_items, merge_agent_items,
}

pub is_nil-append {ℓ} : {A : Type ℓ} (xs ys : List A) → is_nil (xs ++ ys) ≡ (is_nil xs && is_nil ys)
is_nil-append [] ys = refl
is_nil-append (x ∷ xs) ys = refl

pub is_nil_iff {ℓ} : {A : Type ℓ} (xs : List A) → (is_nil xs ≡ true) ↔ (xs ≡ [])
is_nil_iff [] = ground arith
is_nil_iff (x ∷ xs) = ground arith

pub is_nil-map {ℓ κ} :
    {A : Type ℓ} {B : Type κ} (f : A → B) (xs : List A) → is_nil (map f xs) ≡ is_nil xs
is_nil-map f [] = refl
is_nil-map f (x ∷ xs) = refl

pub mergeable_items_iff : (m : Mergeability) → (is_nil (mergeable_items m) ≡ true) ↔ (m ≡ mergeable)
unfolding mergeable_items
mergeable_items_iff m = ground arith

-- A required check that is neither failed nor missing.
abbrev pub NotStuck : CheckRun → Type 0
NotStuck r = (r ≢ failed) × (r ≢ missing)

pub required_items_iff :
    (cs : List RequiredCheck) → (is_nil (required_items cs) ≡ true) ↔ All (λ c. NotStuck c.run) cs
unfolding required_items
required_items_iff [] = (λ _. tt, λ _. refl)
required_items_iff (c ∷ cs) = ground (arith, required_items_iff cs)

-- A context that did not fail, that the ruleset requires, or that the body acknowledges.
abbrev pub IsAnswered : PrFacts → Observed → Type 0
IsAnswered facts o =
    (o.run ≢ failed)
    ⊎ (In o.name facts.required_contexts ⊎ (acknowledged_in facts.body o.name ≢ none))

red_item_iff :
    (facts : PrFacts) (o : Observed)
    → (is_nil (
          if is_red_extra facts o then red_item facts o (acknowledged_in facts.body o.name) else [])
        ≡ true)
      ↔ IsAnswered facts o
unfolding red_item
red_item_iff facts o = ground (arith, mem_iff o.name facts.required_contexts)

pub red_items_iff :
    (facts : PrFacts) (os : List Observed)
    → (is_nil (red_items facts os) ≡ true) ↔ All (IsAnswered facts) os
unfolding red_items
red_items_iff facts [] = (λ _. tt, λ _. refl)
red_items_iff facts (o ∷ os) =
    rw is_nil-append (ground (arith, red_item_iff facts o, red_items_iff facts os))

-- A context that has reported, or that no review bot produces.
abbrev pub HasReported : List Str → Observed → Type 0
HasReported review_apps o = (o.run ≢ pending) ⊎ (¬ In (strip_bot o.producer) review_apps)

pub bot_items_iff :
    (review_apps : List Str) (os : List Observed)
    → (is_nil (bot_items review_apps os) ≡ true) ↔ All (HasReported review_apps) os
unfolding bot_items
bot_items_iff review_apps [] = (λ _. tt, λ _. refl)
bot_items_iff review_apps (o ∷ os) =
    rw is_nil-append
      (ground (arith, mem_iff (strip_bot o.producer) review_apps, bot_items_iff review_apps os))

-- Automerge is armed with SQUASH or MERGE, or it is not armed and nothing is left to wait for.
abbrev pub IsArmed : Option Str → Str → Bool → Type 0
IsArmed none merge_state pending_checks = (merge_state ≢ codes "BLOCKED") × (pending_checks ≡ false)
IsArmed (some m) merge_state pending_checks = (m ≡ codes "SQUASH") ⊎ (m ≡ codes "MERGE")

pub merge_agent_items_iff :
    (facts : PrFacts) (auto_merge : Option Str) (pending_checks : Bool)
    → (is_nil (merge_agent_items facts auto_merge pending_checks) ≡ true)
      ↔ IsArmed auto_merge facts.merge_state pending_checks
unfolding merge_agent_items
merge_agent_items_iff facts none pending_checks =
    ground (arith, str_eq_iff facts.merge_state (codes "BLOCKED"))
merge_agent_items_iff facts (some m) pending_checks =
    ground (arith, str_eq_iff m (codes "SQUASH"), str_eq_iff m (codes "MERGE"))
