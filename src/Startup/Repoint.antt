-- ===== src/Startup/Repoint.antt =====
-- A coordinate that is rewritten under another name keeps its subpath and its pin.
use cicd_squabbler.Prelude.{
  ◌≡◌, refl, ◌≢◌, inl, inr, true, false, Option, none, some, List, [], ◌∷◌, ◌++◌, if_let, All,
  arith, Str, codes, starts_with, Option-cases, rsplit_once, splitn,
}
use mathlib.Core.Path.{sym, subst, ◌∙◌}
use mathlib.Core.List.{append_assoc, append-nil}
use cicd_squabbler.Chains.{Pin, pin_parse, pin_str}
use cicd_squabbler.Startup.{Coordinate, subpath, parse_path, is_foreign, parse, rewritten}
use cicd_squabbler.Startup.Pins.{
  rsplit_once-append, rsplit_once-behind, splitn-append, splitn-free, splitn-one, IsPin,
  pin_parse-IsPin,
}

-- A non-empty name without "/".
abbrev pub IsName : Str → Type 0
IsName s = (s ≢ []) × All (λ c. c ≢ b'/') s

-- What `parse` makes sure of, besides the text.
abbrev pub IsParsed : Coordinate → Type 0
IsParsed c = (c.path ≢ some []) × IsPin c.pin

subpath-ne : (parts : List Str) → subpath parts ≢ some []
unfolding subpath
subpath-ne [] e = cc
subpath-ne ([] ∷ parts) e = cc
subpath-ne ((c ∷ s) ∷ parts) e = cc

parse_path-IsParsed :
    (raw : Str) (pin : Pin) (parts : List Str) (c : Coordinate)
    → IsPin pin
    → parse_path raw pin parts ≡ some c
    → IsParsed c
unfolding parse_path
parse_path-IsParsed raw pin [] c h e = cc
parse_path-IsParsed raw pin (owner ∷ []) c h e = cc
parse_path-IsParsed raw pin (owner ∷ (repo ∷ rest)) c h e = ground (arith, subpath-ne rest)

starts_with-segment :
    (q p s t : Str)
    → All (λ c. c ≢ b'/') q
    → All (λ c. c ≢ b'/') s
    → starts_with (q ++ (b'/' ∷ p)) (s ++ (b'/' ∷ t)) ≡ true
    → (q ≡ s) × (starts_with p t ≡ true)
unfolding starts_with
starts_with-segment [] p [] t h k e = ground arith
starts_with-segment [] p (c ∷ s) t h k e = ground arith
starts_with-segment (c ∷ q) p [] t h k e = ground arith
starts_with-segment (c ∷ q) p (d ∷ s) t h k e = ground (arith, starts_with-segment q p s t h.1 k.1)

not-slash : (s t : Str) → IsName s → starts_with (codes "/") (s ++ t) ≡ false
unfolding starts_with
not-slash [] t h = absurd (h.0 refl)
not-slash (c ∷ s) t h = ground arith

docker-free : All (λ c. c ≢ b'/') (codes "docker:")
docker-free = ground arith

-- An owner that is neither "." nor "$" does not begin a local or a docker reference.
is_foreign-name :
    (o r t : Str)
    → IsName o
    → IsName r
    → o ≢ codes "."
    → o ≢ codes "$"
    → is_foreign (o ++ (b'/' ∷ (r ++ t))) ≡ false
unfolding is_foreign
is_foreign-name o r t h k dot dollar =
    let segment = λ (q : Str) (p : Str) (free : All (λ c. c ≢ b'/') q).
      starts_with-segment q p o (r ++ t) free h.1 in
    ground (
      arith,
      segment (codes ".") [] (cc, tt),
      segment (codes "$") [] (cc, tt),
      segment (codes "docker:") (codes "/") docker-free,
      not-slash r t k,
      dot,
      dollar,
    )

parse-IsParsed : (raw : Str) (c : Coordinate) → parse raw ≡ some c → IsParsed c
unfolding parse
parse-IsParsed raw c e = elim (Option-cases (rsplit_once b'@' raw)) [
  | inl absent ↦ ground (arith, absent)
  | inr (q, found) ↦ ground (
    arith,
    found,
    parse_path-IsParsed raw (pin_parse q.1) (splitn 3 b'/' q.0) c,
    pin_parse-IsPin q.1,
    rsplit_once-behind b'@' raw q found,
  )
]

path_text : Option Str → Str
path_text path = if_let path (λ p. codes "/" ++ p) []

parse_path-name :
    (raw : Str) (pin : Pin) (path : Option Str) (o r : Str)
    → path ≢ some []
    → IsName o
    → IsName r
    → parse_path raw pin (splitn 3 b'/' (o ++ (b'/' ∷ (r ++ path_text path))))
      ≡ some (record { written = raw; owner_repo = o ++ (codes "/" ++ r); path = path; pin = pin })
unfolding parse_path subpath path_text
parse_path-name raw pin none o r ne h k =
    rw (splitn-append 1 b'/' o (r ++ []) h.1, append-nil r, splitn-free 1 b'/' r k.1) (ground arith)
parse_path-name raw pin (some p) o r ne h k =
    rw
      (
        splitn-append 1 b'/' o (r ++ (b'/' ∷ p)) h.1,
        splitn-append 0 b'/' r p k.1,
        splitn-one b'/' p,
      )
      (ground arith)

rewritten-split :
    (c : Coordinate) (o r : Str)
    → rewritten c (o ++ (codes "/" ++ r))
      ≡ (o ++ (b'/' ∷ (r ++ path_text c.path))) ++ (b'@' ∷ pin_str c.pin)
unfolding rewritten path_text
rewritten-split c o r = simp append_assoc refl

is_foreign-rewritten :
    (c : Coordinate) (o r : Str)
    → IsName o
    → IsName r
    → o ≢ codes "."
    → o ≢ codes "$"
    → is_foreign (rewritten c (o ++ (codes "/" ++ r))) ≡ false
unfolding rewritten
is_foreign-rewritten c o r h k dot dollar =
    rw (append_assoc o (b'/' ∷ r) _) (is_foreign-name o r _ h k dot dollar)

parse-text :
    (text a b : Str)
    → is_foreign text ≡ false
    → rsplit_once b'@' text ≡ some (a, b)
    → b ≢ []
    → parse text ≡ parse_path text (pin_parse b) (splitn 3 b'/' a)
unfolding parse
parse-text text a b f e ne = rw (f, e) (ground arith)

-- Rewriting a parsed coordinate under a canonical `owner/repo` carries its pin and its subpath
-- unchanged: the new text is parsed to the same coordinate under the new name. The owner and the
-- repo are non-empty and have no "/", and the owner is neither "." nor "$".
pub parse-rewritten :
    (raw : Str) (c : Coordinate) (o r : Str)
    → parse raw ≡ some c
    → IsName o
    → IsName r
    → o ≢ codes "."
    → o ≢ codes "$"
    → parse (rewritten c (o ++ (codes "/" ++ r)))
      ≡ some (record c {
        written = rewritten c (o ++ (codes "/" ++ r));
        owner_repo = o ++ (codes "/" ++ r);
      })
parse-rewritten raw c o r e h k dot dollar =
    let parsed = parse-IsParsed raw c e in
    let text = rewritten c (o ++ (codes "/" ++ r)) in
    let body = o ++ (b'/' ∷ (r ++ path_text c.path)) in
    let split =
      subst (λ t. rsplit_once b'@' t ≡ some (body, pin_str c.pin)) (sym (rewritten-split c o r))
        (rsplit_once-append b'@' body (pin_str c.pin) parsed.1.1.0) in
    parse-text text body (pin_str c.pin) (is_foreign-rewritten c o r h k dot dollar) split
      parsed.1.0
    ∙ rw parsed.1.1.1 (parse_path-name text c.pin c.path o r parsed.0 h k)
