-- ===== src/Fight/Apply/Moves.antt =====
-- The outcome of `apply_moves` and the files that it leaves.
use cicd_squabbler.Prelude.{
  Bool-cases, ℕ, ◌+◌, ◌≡◌, refl, ◌≢◌, true, false, Option, none, some, Option-cases, List, [], ◌∷◌,
  inl, inr, arith, Str, length, str_eq, str_eq_iff, str_eq_refl, if_let, sym, ◌∙◌,
}
use cicd_squabbler.Moves.{Move, inject_path_filter_pass_through}
use cicd_squabbler.Workflows.Filter.{has_path_filter}
use cicd_squabbler.Fight.Apply.{
  remove_on_paths, Files, Disk, set_file, Stripped, ok, err, write_back, strip_path_filter, note,
  ApplyOutcome, apply_moves,
}
use cicd_squabbler.Fight.Apply.Rerun.{remove_on_paths-has_path_filter}

-- The moves that are appliable.
abbrev pub appliable : List Move → ℕ
appliable [] = 0
appliable (inject_path_filter_pass_through _ _ ∷ ms) = 1 + appliable ms
appliable (_ ∷ ms) = appliable ms

note-length :
    (check workflow : Str) (s : Stripped) (out : ApplyOutcome)
    → length (note check workflow s out).applied + length (note check workflow s out).skipped
      ≡ 1 + (length out.applied + length out.skipped)
unfolding note
note-length check workflow (ok (some d)) out = omega arith
note-length check workflow (ok none) out = omega arith
note-length check workflow (err e) out = omega arith

-- Every appliable move ends in exactly one of the two lists of the outcome.
pub apply_moves-length :
    (disk : Disk) (ms : List Move) (files : Files)
    → length (apply_moves disk ms files).0.applied + length (apply_moves disk ms files).0.skipped
      ≡ appliable ms
unfolding apply_moves
apply_moves-length disk [] files = omega arith
apply_moves-length disk (inject_path_filter_pass_through check workflow ∷ ms) files =
    let done = strip_path_filter disk workflow files in
    omega (
      arith,
      note-length check workflow done.0 (apply_moves disk ms done.1).0,
      apply_moves-length disk ms done.1,
    )
apply_moves-length disk (_ ∷ ms) files = apply_moves-length disk ms files

-- A property of every workflow that an appliable move names.
abbrev pub Named : (Str → Type 0) → List Move → Type 0
Named P [] = Unit
Named P (inject_path_filter_pass_through _ workflow ∷ ms) = P workflow × Named P ms
Named P (_ ∷ ms) = Named P ms

pub set_file-other :
    (path p : Str) (content : Option Str) (files : Files)
    → p ≢ path
    → set_file path content files p ≡ files p
set_file-other path p content files h = elim (Bool-cases (str_eq p path)) [
  | inl e ↦ absurd (h ((str_eq_iff p path).0 e))
  | inr e ↦ rw e refl
]

pub set_file-same :
    (path : Str) (content : Option Str) (files : Files) → set_file path content files path ≡ content
set_file-same path content files = rw (str_eq_refl path) refl

write_back-other :
    (disk : Disk) (path text p : Str) (files : Files)
    → p ≢ path
    → (write_back disk path text files).1 p ≡ files p
unfolding write_back
write_back-other disk path text p files h = elim (Option-cases (disk.write_error path text)) [
  | inl e ↦ rw (e, if_let) (set_file-other path p (some text) files h)
  | inr (x, e) ↦ rw (e, if_let) (set_file-other path p x.1 files h)
]

-- The three ways in which `strip_path_filter` ends.
pub data StripCases (disk : Disk) (path : Str) (files : Files) : Stripped × Files → Type 0 where
  unread : files path ≡ none → {e : Str} → StripCases disk path files (err e, files)
  no_filter :
      {text : Str}
      → files path ≡ some text
      → has_path_filter text ≡ false
      → StripCases disk path files (ok none, files)
  written :
      {text : Str}
      → files path ≡ some text
      → has_path_filter text ≡ true
      → StripCases disk path files (write_back disk path (remove_on_paths text).0 files)

pub strip_cases :
    (disk : Disk) (workflow : Str) (files : Files)
    → StripCases disk (disk.workflow_path workflow) files (strip_path_filter disk workflow files)
unfolding strip_path_filter
strip_cases disk workflow files = elim (Option-cases (files (disk.workflow_path workflow))) [
  | inl e ↦ rw (e, if_let) (unread e)
  | inr (text, e) ↦ elim (Bool-cases (remove_on_paths text).1) [
    | inl r ↦ rw (e, if_let, r) (written e (sym (remove_on_paths-has_path_filter text) ∙ r))
    | inr r ↦ rw (e, if_let, r) (no_filter e (sym (remove_on_paths-has_path_filter text) ∙ r))
  ]
]

strip_path_filter-other :
    (disk : Disk) (workflow p : Str) (files : Files)
    → p ≢ disk.workflow_path workflow
    → (strip_path_filter disk workflow files).1 p ≡ files p
strip_path_filter-other disk workflow p files h = other (strip_cases disk workflow files)
  where
    other :
        {r : Stripped × Files}
        → StripCases disk (disk.workflow_path workflow) files r
        → r.1 p ≡ files p
    other (unread e) = refl
    other (no_filter e k) = refl
    other (written {text = text} e k) =
        write_back-other disk (disk.workflow_path workflow) (remove_on_paths text).0 p files h

-- A file that no appliable move names is left as it is.
pub apply_moves-other :
    (disk : Disk) (p : Str) (ms : List Move) (files : Files)
    → Named (λ workflow. p ≢ disk.workflow_path workflow) ms
    → (apply_moves disk ms files).1 p ≡ files p
unfolding apply_moves
apply_moves-other disk p [] files h = refl
apply_moves-other disk p (inject_path_filter_pass_through check workflow ∷ ms) files h =
    apply_moves-other disk p ms (strip_path_filter disk workflow files).1 h.1
    ∙ strip_path_filter-other disk workflow p files h.0
apply_moves-other disk p (_ ∷ ms) files h = apply_moves-other disk p ms files h
