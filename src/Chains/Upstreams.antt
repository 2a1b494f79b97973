-- ===== src/Chains/Upstreams.antt =====
-- A landing order puts every upstream before its consumers, and the rounds never run out of fuel.
use cicd_squabbler.Prelude.{
  ℕ, zero, suc, ◌+◌, ◌≤◌, ◌≡◌, refl, ◌≢◌, Bool, true, false, not, ◌&&◌, ◌||◌, leb, Bool-cases, inl,
  inr, List, [], ◌∷◌, ◌++◌, all, is_nil, length, All, arith,
}
use mathlib.Core.Path.{subst}
use cicd_squabbler.Chains.{RepoId, repo_eq}
use cicd_squabbler.Chains.Graph.{contains_repo}
use cicd_squabbler.Chains.Landing.{
  insert_all, add_wait, add_waits, ready_of, landed, out_of_fuel, rounds,
}
use cicd_squabbler.Chains.Sets.{
  contains-cong, contains-append, contains-set_insert, contains-insert_all, length-insert_all-new,
}
use cicd_squabbler.Chains.Records.{repo_eq_iff}

-- `upstream` stands in the order before the first place where `consumer` stands.
abbrev pub precedes : List RepoId → RepoId → RepoId → Bool
precedes [] upstream consumer = false
precedes (x ∷ order) upstream consumer =
    not (repo_eq x consumer)
    && ((repo_eq x upstream && contains_repo order consumer) || precedes order upstream consumer)

precedes-append :
    (s t : List RepoId) (u n : RepoId) → precedes s u n ≡ true → precedes (s ++ t) u n ≡ true
precedes-append [] t u n h = ground arith
precedes-append (x ∷ s) t u n h = ground (arith, precedes-append s t u n, contains-append s t n)

precedes-later :
    (s t : List RepoId) (u n : RepoId)
    → contains_repo s u ≡ true
    → contains_repo s n ≡ false
    → contains_repo t n ≡ true
    → precedes (s ++ t) u n ≡ true
unfolding contains_repo
precedes-later [] t u n h k l = ground arith
precedes-later (x ∷ s) t u n h k l = ground (arith, precedes-later s t u n, contains-append s t n)

-- Every entry of `consumer` waits on `upstream`.
abbrev pub WaitsOn : List (RepoId × List RepoId) → RepoId → RepoId → Type 0
WaitsOn [] consumer upstream = Unit
WaitsOn (entry ∷ waits) consumer upstream =
    (repo_eq entry.0 consumer && not (contains_repo entry.1 upstream) ≡ false)
    × WaitsOn waits consumer upstream

repo_eq_refl : (a : RepoId) → repo_eq a a ≡ true
repo_eq_refl a = (repo_eq_iff a a).1 refl

add_wait-new :
    (waits : List (RepoId × List RepoId)) (p : RepoId × RepoId) → WaitsOn (add_wait waits p) p.0 p.1
unfolding add_wait
add_wait-new [] p = tt
add_wait-new (entry ∷ waits) p =
    ground (arith, add_wait-new waits p, contains-set_insert entry.1 p.1 p.1, repo_eq_refl p.1)

add_wait-old :
    (waits : List (RepoId × List RepoId)) (p : RepoId × RepoId) (n u : RepoId)
    → WaitsOn waits n u
    → WaitsOn (add_wait waits p) n u
unfolding add_wait
add_wait-old [] p n u h = tt
add_wait-old (entry ∷ waits) p n u h =
    ground (arith, add_wait-old waits p n u, contains-set_insert entry.1 p.1 u)

add_waits-old :
    (waits : List (RepoId × List RepoId)) (ps : List (RepoId × RepoId)) (n u : RepoId)
    → WaitsOn waits n u
    → WaitsOn (add_waits waits ps) n u
unfolding add_waits
add_waits-old waits [] n u h = h
add_waits-old waits (p ∷ ps) n u h =
    add_waits-old (add_wait waits p) ps n u (add_wait-old waits p n u h)

pub add_waits-All :
    (waits : List (RepoId × List RepoId)) (ps : List (RepoId × RepoId))
    → All (λ p. WaitsOn (add_waits waits ps) p.0 p.1) ps
unfolding add_waits
add_waits-All waits [] = tt
add_waits-All waits (p ∷ ps) = (
  add_waits-old (add_wait waits p) ps p.0 p.1 (add_wait-new waits p),
  add_waits-All (add_wait waits p) ps,
)

all-contains :
    (done ups : List RepoId) (u : RepoId)
    → all (contains_repo done) ups ≡ true
    → contains_repo ups u ≡ true
    → contains_repo done u ≡ true
unfolding contains_repo
all-contains done [] u h k = ground arith
all-contains done (x ∷ ups) u h k = ground (arith, all-contains done ups u, contains-cong done x u)

ready_of-WaitsOn :
    (waits : List (RepoId × List RepoId)) (done : List RepoId) (n u : RepoId)
    → WaitsOn waits n u
    → contains_repo (ready_of waits done) n ≡ true
    → contains_repo done u ≡ true
unfolding ready_of contains_repo
ready_of-WaitsOn [] done n u h k = ground arith
ready_of-WaitsOn (entry ∷ waits) done n u h k =
    ground (arith, ready_of-WaitsOn waits done n u, all-contains done entry.1 u)

module _ (waits : List (RepoId × List RepoId)) where
  -- What an order promises: an upstream before each of its consumers.
  abbrev pub IsOrdered : List RepoId → Type 0
  IsOrdered order =
      (n u : RepoId) → WaitsOn waits n u → contains_repo order n ≡ true → precedes order u n ≡ true

  IsOrdered-step :
      (done order : List RepoId)
      → ((y : RepoId) → contains_repo done y ≡ contains_repo order y)
      → IsOrdered order
      → IsOrdered (order ++ ready_of waits done)
  IsOrdered-step done order same ordered n u w h =
      let ready = ready_of waits done in
      ground (
        arith,
        contains-append order ready n,
        same u,
        ordered n u w,
        precedes-append order ready u n,
        precedes-later order ready u n,
        ready_of-WaitsOn waits done n u w,
      )

  pub same-step :
      (done order : List RepoId)
      → ((y : RepoId) → contains_repo done y ≡ contains_repo order y)
      → (y : RepoId)
      → contains_repo (insert_all done (ready_of waits done)) y
        ≡ contains_repo (order ++ ready_of waits done) y
  same-step done order same y =
      let ready = ready_of waits done in
      ground (arith, same y, contains-insert_all done ready y, contains-append order ready y)

  pub rounds-IsOrdered :
      (fuel total : ℕ) (done order final : List RepoId)
      → ((y : RepoId) → contains_repo done y ≡ contains_repo order y)
      → IsOrdered order
      → rounds fuel total waits done order ≡ landed final
      → IsOrdered final
  unfolding rounds
  rounds-IsOrdered zero total done order final same ordered e = cc
  rounds-IsOrdered (suc fuel) total done order final same ordered e =
      let ready = ready_of waits done in
      let next = insert_all done ready in
      elim (Bool-cases (leb total (length done))) [
        | inl enough ↦
            let same_order : order ≡ final = ground (arith, enough, e) in
            subst IsOrdered same_order ordered
        | inr more ↦
            let rest : rounds fuel total waits next (order ++ ready) ≡ landed final =
              ground (arith, more, e) in
            rounds-IsOrdered fuel total next (order ++ ready) final (same-step done order same)
              (IsOrdered-step done order same ordered) rest
      ]

  pub ready_of-new :
      (ws : List (RepoId × List RepoId)) (done : List RepoId)
      → All (λ r. contains_repo done r ≡ false) (ready_of ws done)
  unfolding ready_of
  ready_of-new [] done = tt
  ready_of-new (entry ∷ ws) done = ground (arith, ready_of-new ws done)

  grows :
      (done ready : List RepoId)
      → All (λ r. contains_repo done r ≡ false) ready
      → is_nil ready ≡ false
      → length done + 1 ≤ length (insert_all done ready)
  grows done [] h k = ground arith
  grows done (r ∷ rs) h k = length-insert_all-new done r rs h.0

  -- The fuel suffices, since each round that goes on lands at least one repository.
  pub rounds-fuel :
      (fuel total : ℕ) (done order : List RepoId)
      → total ≤ fuel + length done
      → rounds (suc fuel) total waits done order ≢ out_of_fuel
  unfolding rounds
  rounds-fuel zero total done order h = ground arith
  rounds-fuel (suc fuel) total done order h =
      let ready = ready_of waits done in
      let next = rounds-fuel fuel total (insert_all done ready) (order ++ ready) in
      ground (arith, next, grows done ready (ready_of-new waits done))
