-- ===== src/Fight/Written.antt =====
-- A reference that is written out as a workflow writes it is read back.
use cicd_squabbler.Prelude.{
  ℕ, ◌≡◌, refl, ◌≢◌, false, Option, none, some, ◌∷◌, ◌++◌, is_nil, All, Str, codes, splitn,
}
use cicd_squabbler.Chains.{RepoId, pin_parse}
use cicd_squabbler.Startup.Pins.{rsplit_once-append, splitn-append, splitn-free, splitn-one}
use cicd_squabbler.Fight.Extract.{nonempty, segments, kind_of, version_of, is_local, parse_target}

abbrev pub IsFree : ℕ → Str → Type 0
IsFree sep s = All (λ c. c ≢ sep) s

-- `owner/name` or `owner/name/sub`.
abbrev pub written_path : Str → Str → Option Str → Str
written_path owner name none = owner ++ (b'/' ∷ name)
written_path owner name (some sub) = owner ++ (b'/' ∷ (name ++ (b'/' ∷ sub)))

abbrev pub written : Str → Str → Option Str → Str → Str
written owner name sub reference = written_path owner name sub ++ (b'@' ∷ reference)

-- A subpath that is named is not empty.
abbrev pub IsNamed : Option Str → Type 0
IsNamed none = Unit
IsNamed (some sub) = is_nil sub ≡ false

nonempty-some : (s : Str) → is_nil s ≡ false → nonempty s ≡ some s
unfolding nonempty
nonempty-some s h = rw h refl

segments-written :
    (owner name : Str) (sub : Option Str)
    → is_nil owner ≡ false
    → is_nil name ≡ false
    → IsFree b'/' owner
    → IsFree b'/' name
    → IsNamed sub
    → segments (splitn 3 b'/' (written_path owner name sub)) ≡ some (owner, (name, sub))
unfolding segments
segments-written owner name none h k free_owner free_name n =
    rw
      (
        splitn-append 1 b'/' owner name free_owner,
        splitn-free 1 b'/' name free_name,
        segments,
        nonempty-some owner h,
        nonempty-some name k,
      )
      refl
segments-written owner name (some sub) h k free_owner free_name n =
    rw
      (
        splitn-append 1 b'/' owner (name ++ (b'/' ∷ sub)) free_owner,
        splitn-append 0 b'/' name sub free_name,
        splitn-one b'/' sub,
        segments,
        nonempty-some owner h,
        nonempty-some name k,
        nonempty-some sub n,
      )
      refl

-- What is read of `owner/name@ref` or `owner/name/sub@ref`, with non-empty parts, no slash in the
-- owner and the name, no `@` in the reference, and no start that marks a local use: an edge to
-- `owner/name` with that subpath and the pin of the reference.
pub parse_target-written :
    (repo : RepoId) (file owner name reference : Str) (sub comment : Option Str)
    → is_nil owner ≡ false
    → is_nil name ≡ false
    → is_nil reference ≡ false
    → IsFree b'/' owner
    → IsFree b'/' name
    → IsFree b'@' reference
    → IsNamed sub
    → is_local (written owner name sub reference) ≡ false
    → parse_target repo file (written owner name sub reference) comment
      ≡ some (record {
        from = repo;
        file = file;
        to = record { slug = owner ++ (codes "/" ++ name) };
        kind = kind_of sub;
        path = sub;
        pin = pin_parse reference;
        version_hint = version_of (pin_parse reference) comment;
      })
unfolding parse_target
parse_target-written repo file owner name reference sub comment h k r free_owner free_name free_ref
      n l =
    rw
      (
        l,
        rsplit_once-append b'@' (written_path owner name sub) reference free_ref,
        r,
        segments-written owner name sub h k free_owner free_name n,
      )
      refl
