-- ===== src/Fight/Apply/Idempotent.antt =====
-- A second run of `apply_moves` over the files that the first one left.
use cicd_squabbler.Prelude.{
  Bool-cases, ◌≡◌, refl, false, Option, none, some, List, [], ◌∷◌, inl, inr, Str, str_eq, if_let,
}
use cicd_squabbler.Moves.{Move, inject_path_filter_pass_through}
use cicd_squabbler.Workflows.Filter.{has_path_filter}
use cicd_squabbler.Fight.Apply.{
  remove_on_paths, Files, Disk, set_file, Stripped, write_back, strip_path_filter, note,
  ApplyOutcome, apply_moves,
}
use cicd_squabbler.Fight.Apply.Rerun.{has_path_filter-remove_on_paths}
use cicd_squabbler.Fight.Apply.Moves.{
  Named, set_file-same, StripCases, unread, no_filter, written, strip_cases,
}

-- A file that reads has no path filter.
abbrev Clean : Option Str → Type 0
Clean none = Unit
Clean (some text) = has_path_filter text ≡ false

-- No write fails.
abbrev pub Writes : Disk → Type 0
Writes disk = (path text : Str) → disk.write_error path text ≡ none

write_back-Writes :
    (disk : Disk) (path text : Str) (files : Files)
    → Writes disk
    → (write_back disk path text files).1 ≡ set_file path (some text) files
unfolding write_back
write_back-Writes disk path text files w = rw (w path text, if_let) refl

set_file-Clean :
    (path p text : Str) (files : Files)
    → has_path_filter text ≡ false
    → Clean (files p)
    → Clean (set_file path (some text) files p)
set_file-Clean path p text files h k = elim (Bool-cases (str_eq p path)) [
  | inl e ↦ rw e h
  | inr e ↦ rw e k
]

module _ (disk : Disk) (writes : Writes disk) where
  strip_path_filter-Clean :
      (workflow p : Str) (files : Files)
      → Clean (files p)
      → Clean ((strip_path_filter disk workflow files).1 p)
  strip_path_filter-Clean workflow p files h = clean (strip_cases disk workflow files)
    where
      clean :
          {r : Stripped × Files}
          → StripCases disk (disk.workflow_path workflow) files r
          → Clean (r.1 p)
      clean (unread e) = h
      clean (no_filter e k) = h
      clean (written {text = text} e k) =
          rw
            (write_back-Writes disk (disk.workflow_path workflow) (remove_on_paths text).0 files
              writes)
            (set_file-Clean (disk.workflow_path workflow) p (remove_on_paths text).0 files
              (has_path_filter-remove_on_paths text) h)

  strip_path_filter-same :
      (workflow : Str) (files : Files)
      → Clean ((strip_path_filter disk workflow files).1 (disk.workflow_path workflow))
  strip_path_filter-same workflow files = clean (strip_cases disk workflow files)
    where
      clean :
          {r : Stripped × Files}
          → StripCases disk (disk.workflow_path workflow) files r
          → Clean (r.1 (disk.workflow_path workflow))
      clean (unread e) = rw e tt
      clean (no_filter e k) = rw e k
      clean (written {text = text} e k) =
          rw
            (
              write_back-Writes disk (disk.workflow_path workflow) (remove_on_paths text).0 files
                  writes,
              set_file-same (disk.workflow_path workflow) (some (remove_on_paths text).0) files,
            )
            (has_path_filter-remove_on_paths text)

  apply_moves-Clean :
      (p : Str) (ms : List Move) (files : Files)
      → Clean (files p)
      → Clean ((apply_moves disk ms files).1 p)
  unfolding apply_moves
  apply_moves-Clean p [] files h = h
  apply_moves-Clean p (inject_path_filter_pass_through check workflow ∷ ms) files h =
      apply_moves-Clean p ms (strip_path_filter disk workflow files).1
        (strip_path_filter-Clean workflow p files h)
  apply_moves-Clean p (_ ∷ ms) files h = apply_moves-Clean p ms files h

  apply_moves-Named :
      (ms : List Move) (files : Files)
      → Named (λ workflow. Clean ((apply_moves disk ms files).1 (disk.workflow_path workflow))) ms
  unfolding apply_moves
  apply_moves-Named [] files = tt
  apply_moves-Named (inject_path_filter_pass_through check workflow ∷ ms) files =
      let done = (strip_path_filter disk workflow files).1 in
      (
        apply_moves-Clean (disk.workflow_path workflow) ms done
            (strip_path_filter-same workflow files),
        apply_moves-Named ms done,
      )
  apply_moves-Named (_ ∷ ms) files = apply_moves-Named ms files

-- Nothing is applied and nothing is written where the named files are free of filters.
abbrev pub Idle : Files → ApplyOutcome × Files → Type 0
Idle files r = (r.0.applied ≡ []) × (r.1 ≡ files)

apply_moves-Idle :
    (disk : Disk) (ms : List Move) (files : Files)
    → Named (λ workflow. Clean (files (disk.workflow_path workflow))) ms
    → Idle files (apply_moves disk ms files)
unfolding apply_moves note
apply_moves-Idle disk [] files h = (refl, refl)
apply_moves-Idle disk (inject_path_filter_pass_through check workflow ∷ ms) files h =
    idle (strip_cases disk workflow files) (apply_moves-Idle disk ms files h.1)
  where
    idle :
        {r : Stripped × Files}
        → StripCases disk (disk.workflow_path workflow) files r
        → Idle files (apply_moves disk ms files)
        → Idle files
            (note check workflow r.0 (apply_moves disk ms r.1).0, (apply_moves disk ms r.1).1)
    idle (unread n) k = k
    idle (no_filter e n) k = k
    idle (written e f) k = cc (f, rw e at h.0)
apply_moves-Idle disk (_ ∷ ms) files h = apply_moves-Idle disk ms files h

-- Where no write fails, a second run of the same moves over the files that the first one left applies
-- nothing and leaves every file as it is.
pub apply_moves-rerun :
    (disk : Disk) (ms : List Move) (files : Files)
    → Writes disk
    → Idle (apply_moves disk ms files).1 (apply_moves disk ms (apply_moves disk ms files).1)
apply_moves-rerun disk ms files w =
    apply_moves-Idle disk ms (apply_moves disk ms files).1 (apply_moves-Named disk w ms files)
