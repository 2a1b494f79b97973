-- ===== src/Fight/Tables.antt =====
-- The signatures that are read from a directive: each stands in a table of its own, and is usable.
use cicd_squabbler.Prelude.{
  All-last, All-append, append-last, ◌≡◌, refl, sym, ◌∙◌, ap, Bool, true, false, Bool-cases, inl,
  inr, Option, none, some, ◌>>=◌, List, [], ◌∷◌, ◌++◌, All, Str, codes, starts_with, str_eq,
  str_eq_iff, if◌then◌else◌, arith,
}
use mathlib.Core.List.{append-nil, append_assoc}
use cicd_squabbler.Polarity.{is_usable}
use cicd_squabbler.Fight.Triage.{
  signature_table, split_inclusive, code_of, close_body, next_body, bodies_from, signature_bodies,
  scanners_in, legacy_in, parse_signatures,
}

-- A line that opens a table or a section.
abbrev pub is_header : Str → Bool
is_header line = starts_with (codes "[") (code_of line)

abbrev pub text_of : List Str → Str
text_of [] = []
text_of (line ∷ ls) = line ++ text_of ls

-- The next line, if there is one, opens a table or a section.
abbrev pub EndsAt : List Str → Type 0
EndsAt [] = Unit
EndsAt (line ∷ after) = is_header line ≡ true

-- A body: the lines between the header of a signature and the next header, or the end.
pub record IsBody (all : List Str) (body : Str) : Type 0 where
  pub before : List Str
  pub header : Str
  pub inner : List Str
  pub after : List Str
  pub split : all ≡ (before ++ header ∷ inner) ++ after
  pub opens : code_of header ≡ signature_table
  pub plain : All (λ line. is_header line ≡ false) inner
  pub text : body ≡ text_of inner
  pub ends : EndsAt after

-- The lines so far, where a body is open.
record IsOpen (done : List Str) (body : Str) : Type 0 where
  before : List Str
  header : Str
  inner : List Str
  split : done ≡ before ++ header ∷ inner
  opens : code_of header ≡ signature_table
  plain : All (λ line. is_header line ≡ false) inner
  text : body ≡ text_of inner

abbrev Inside : List Str → Option Str → Type 0
Inside done none = Unit
Inside done (some body) = IsOpen done body

append_three :
    {A : Type 0} (xs ys : List A) (a b : A) → (xs ++ a ∷ ys) ++ b ∷ [] ≡ xs ++ a ∷ (ys ++ b ∷ [])
append_three [] ys a b = refl
append_three (x ∷ xs) ys a b = rw (append_three xs ys a b) refl

text_of-append : (ls : List Str) (line : Str) → text_of (ls ++ line ∷ []) ≡ text_of ls ++ line
text_of-append [] line = append-nil line
text_of-append (l ∷ ls) line = rw (text_of-append ls line) (sym (append_assoc l (text_of ls) line))

All-if :
    {A : Type 0} (P : A → Type 0) (b : Bool) (xs : List A)
    → (b ≡ true → All P xs)
    → All P (if b then xs else [])
All-if P true xs h = h refl
All-if P false xs h = tt

close_body-IsBody :
    (all done after : List Str) (inside : Option Str)
    → all ≡ done ++ after
    → Inside done inside
    → EndsAt after
    → All (IsBody all) (close_body inside)
unfolding close_body
close_body-IsBody all done after none h k l = tt
close_body-IsBody all done after (some body) h k l = (
  record {
    before = k.before;
    header = k.header;
    inner = k.inner;
    after = after;
    split = h ∙ ap (λ d. d ++ after) k.split;
    opens = k.opens;
    plain = k.plain;
    text = k.text;
    ends = l;
  },
  tt,
)

table-is_header : (line : Str) → code_of line ≡ signature_table → is_header line ≡ true
unfolding starts_with
table-is_header line h = rw h refl

next_body-Inside :
    (done : List Str) (inside : Option Str) (line : Str)
    → Inside done inside
    → Inside (done ++ line ∷ []) (next_body inside line)
unfolding next_body
next_body-Inside done inside line h = elim (Bool-cases (str_eq (code_of line) signature_table)) [
  | inl e ↦ rw e (record {
    before = done;
    header = line;
    inner = [];
    split = refl;
    opens = (str_eq_iff (code_of line) signature_table).0 e;
    plain = tt;
    text = refl;
  })
  | inr e ↦ elim (Bool-cases (is_header line)) [
    | inl k ↦ rw (e, k) tt
    | inr k ↦ rw (e, k) (longer inside h k)
  ]
]
  where
    longer :
        (inside : Option Str)
        → Inside done inside
        → is_header line ≡ false
        → Inside (done ++ line ∷ []) (inside >>= λ body. some (body ++ line))
    longer none h k = tt
    longer (some body) h k = record {
      before = h.before;
      header = h.header;
      inner = h.inner ++ line ∷ [];
      split = ap (λ d. d ++ line ∷ []) h.split ∙ append_three h.before h.inner h.header line;
      opens = h.opens;
      plain = All-last _ h.inner line h.plain k;
      text = ap (λ t. t ++ line) h.text ∙ sym (text_of-append h.inner line);
    }

bodies_from-IsBody :
    (all done ls : List Str) (inside : Option Str)
    → all ≡ done ++ ls
    → Inside done inside
    → All (IsBody all) (bodies_from inside ls)
unfolding bodies_from
bodies_from-IsBody all done [] inside h k = close_body-IsBody all done [] inside h k tt
bodies_from-IsBody all done (line ∷ ls) inside h k =
    let rest =
      bodies_from-IsBody all (done ++ line ∷ []) ls (next_body inside line)
        (h ∙ sym (append-last done ls line)) (next_body-Inside done inside line k) in
    All-append (IsBody all) (if is_header line then close_body inside else [])
      (bodies_from (next_body inside line) ls)
      (All-if (IsBody all) (is_header line) (close_body inside)
        (λ e. close_body-IsBody all done (line ∷ ls) inside h k e))
      rest

-- The lines before the next one that opens a table or a section, as one text.
abbrev text_before_header : List Str → Str
text_before_header [] = []
text_before_header (line ∷ ls) =
    let rest = text_before_header ls in if is_header line then [] else line ++ rest

-- One text for each line that is the header of a signature, in their order.
abbrev pub tables : List Str → List Str
tables [] = []
tables (line ∷ ls) =
    let rest = tables ls in
    if str_eq (code_of line) signature_table then text_before_header ls ∷ rest else rest

abbrev opened : Option Str → List Str → List Str
opened none ls = tables ls
opened (some body) ls = (body ++ text_before_header ls) ∷ tables ls

table-is_header_eq :
    (line : Str) → str_eq (code_of line) signature_table ≡ true → is_header line ≡ true
table-is_header_eq line e = table-is_header line ((str_eq_iff (code_of line) signature_table).0 e)

bodies_from-opened :
    (ls : List Str) (inside : Option Str) → bodies_from inside ls ≡ opened inside ls
unfolding bodies_from close_body next_body
bodies_from-opened [] none = refl
bodies_from-opened [] (some body) = rw (append-nil body) refl
bodies_from-opened (line ∷ ls) none =
    ground
      (arith, table-is_header_eq line, bodies_from-opened ls none, bodies_from-opened ls (some []))
bodies_from-opened (line ∷ ls) (some body) = ground (
  arith,
  append-nil body,
  append_assoc body line (text_before_header ls),
  table-is_header_eq line,
  bodies_from-opened ls none,
  bodies_from-opened ls (some []),
  bodies_from-opened ls (some (body ++ line)),
)

-- The texts that are searched for step names first are exactly one for each line that is the header
-- of a signature, in their order: the lines behind it up to the next line that opens a table or a
-- section, or the end. Each is such a run of lines of the directive, so that no key of another table
-- is in it, and no mention of the header in a comment opens one.
pub signature_bodies-IsBody :
    (raw : Str)
    → All (IsBody (split_inclusive raw)) (signature_bodies raw)
      × (signature_bodies raw ≡ tables (split_inclusive raw))
unfolding signature_bodies
signature_bodies-IsBody raw = (
  bodies_from-IsBody (split_inclusive raw) [] (split_inclusive raw) none refl tt,
  bodies_from-opened (split_inclusive raw) none,
)

scanners_in-is_usable :
    (bodies : List Str) → All (λ s. is_usable s.signature ≡ true) (scanners_in bodies)
unfolding scanners_in
scanners_in-is_usable [] = tt
scanners_in-is_usable (body ∷ rest) = ground (arith, scanners_in-is_usable rest)

-- Every signature that is kept is usable.
pub parse_signatures-is_usable :
    (raw : Str) → All (λ s. is_usable s.signature ≡ true) (parse_signatures raw).signatures
unfolding parse_signatures legacy_in
parse_signatures-is_usable raw = ground (arith, scanners_in-is_usable (signature_bodies raw))
