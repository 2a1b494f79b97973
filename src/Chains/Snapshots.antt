-- ===== src/Chains/Snapshots.antt =====
-- When the workflow files of a snapshot may be used.
use cicd_squabbler.Prelude.{
  ℕ, ◌≡◌, ◌↔◌, ◌⊎◌, ◌≢◌, true, false, ◌==◌, List, [], ◌∷◌, any, length, All, In, mem_iff, ends_with,
  arith, Str, codes,
}
use cicd_squabbler.Chains.{
  ScanStatus, scanned, WorkflowFile, RepoSnapshot, ok, valid_names, check_population,
  workflow_files,
}

-- A name in the workflow directory itself with one of the two endings.
abbrev pub IsWorkflowFile : WorkflowFile → Type 0
IsWorkflowFile f =
    All (λ c. c ≢ b'/') f.path
    × ((ends_with (codes ".yml") f.path ≡ true) ⊎ (ends_with (codes ".yaml") f.path ≡ true))

abbrev pub AreDistinct : List WorkflowFile → Type 0
AreDistinct [] = Unit
AreDistinct (f ∷ fs) = All (λ g. f.path ≢ g.path) fs × AreDistinct fs

-- The scan read everything and counted `n` files.
abbrev pub IsScanOf : ScanStatus → ℕ → Type 0
IsScanOf (scanned revision workflow_files) n = workflow_files ≡ n
IsScanOf _ n = ⊥

All-not-In :
    (name : Str) (names : List Str) (fs : List WorkflowFile)
    → All (λ g. ¬ In g.path (name ∷ names)) fs
      ↔ (All (λ g. name ≢ g.path) fs × All (λ g. ¬ In g.path names) fs)
All-not-In name names [] = ground arith
All-not-In name names (f ∷ fs) = ground (arith, All-not-In name names fs)

slash_iff : (s : Str) → (any (λ c. c == b'/') s ≡ false) ↔ All (λ c. c ≢ b'/') s
slash_iff [] = ground arith
slash_iff (c ∷ s) = ground (arith, slash_iff s)

valid_names_iff :
    (names : List Str) (fs : List WorkflowFile)
    → (valid_names names fs ≡ true)
      ↔ (All IsWorkflowFile fs × (AreDistinct fs × All (λ f. ¬ In f.path names) fs))
unfolding valid_names
valid_names_iff names [] = ground arith
valid_names_iff names (f ∷ fs) = ground (
  arith,
  valid_names_iff (f.path ∷ names) fs,
  All-not-In f.path names fs,
  slash_iff f.path,
  mem_iff f.path names,
)

All-In-nil : (fs : List WorkflowFile) → All (λ f. ¬ In f.path []) fs
All-In-nil [] = tt
All-In-nil (f ∷ fs) = (λ h. h, All-In-nil fs)

-- The workflow files are handed out exactly when the scan was complete, its count is the number of
-- retained files, every file has a workflow's name and no two names are equal; then they are all of
-- the files of the snapshot.
pub workflow_files-ok_iff :
    (s : RepoSnapshot) (fs : List WorkflowFile)
    → (workflow_files s ≡ ok fs) ↔ (
        (fs ≡ s.files)
        × (IsScanOf s.status (length s.files) × (All IsWorkflowFile s.files × AreDistinct s.files)))
unfolding workflow_files check_population
workflow_files-ok_iff s fs = ground (arith, valid_names_iff [] s.files, All-In-nil s.files)
