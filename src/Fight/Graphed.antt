-- ===== src/Fight/Graphed.antt =====
-- What the graph of some snapshots holds: every edge stands in a repository that was read in full,
-- and the references of a requested repository are confirmed.
use cicd_squabbler.Prelude.{
  In-append-left, In-append-right, ℕ, ◌≡◌, refl, sym, ◌∙◌, true, Bool-cases, inl, inr, Option, List,
  [], ◌∷◌, In, Str, arith,
}
use mathlib.Core.Path.{subst}
use cicd_squabbler.Chains.{
  RepoId, Edge, ScanStatus, scanned, WorkflowFile, RepoSnapshot, Files, ok, err, workflow_files,
}
use cicd_squabbler.Chains.Graph.{
  ChainGraph, contains_repo, is_scanned, status_is_scanned, record_scan, record_subject,
  record_canonical, add_edges,
}
use cicd_squabbler.Chains.Records.{repo_eq_iff, get-record_scan}
use cicd_squabbler.Chains.Sets.{contains-set_insert}
use cicd_squabbler.Chains.Confirming.{is_scanned-cong}
use cicd_squabbler.Fight.Extract.{extract_edges}
use cicd_squabbler.Fight.Graphs.{
  Role, subject, upstream, status_for, note_role, note_canonical, add_notes, counts, add_files,
  add_population, add_snapshot,
}

add_files-kept :
    (repo : RepoId) (role : Role) (fs : List WorkflowFile) (g : ChainGraph)
    → ((add_files repo role fs g).scans ≡ g.scans)
      × ((add_files repo role fs g).subjects ≡ g.subjects)
unfolding add_files add_edges
add_files-kept repo role [] g = (refl, refl)
add_files-kept repo role (f ∷ fs) g = elim (Bool-cases (counts role f.path)) [
  | inl e ↦ rw (add_files, e) (add_files-kept repo role fs (add_edges g (extract_edges repo f)))
  | inr e ↦ rw (add_files, e) (add_files-kept repo role fs g)
]

pub add_population-kept :
    (repo : RepoId) (role : Role) (files : Files) (g : ChainGraph)
    → ((add_population repo role files g).scans ≡ g.scans)
      × ((add_population repo role files g).subjects ≡ g.subjects)
unfolding add_population
add_population-kept repo role (ok files) g = add_files-kept repo role files g
add_population-kept repo role (err reason) g = (refl, refl)

pub note_canonical-kept :
    (snap : RepoSnapshot) (g : ChainGraph)
    → ((note_canonical snap g).scans ≡ g.scans)
      × (((note_canonical snap g).subjects ≡ g.subjects)
          × ((note_canonical snap g).edges ≡ g.edges))
unfolding note_canonical record_canonical
note_canonical-kept snap g = ground arith

pub note_role-kept :
    (role : Role) (repo : RepoId) (g : ChainGraph)
    → ((note_role role repo g).scans ≡ g.scans) × ((note_role role repo g).edges ≡ g.edges)
unfolding note_role record_subject
note_role-kept subject repo g = (refl, refl)
note_role-kept (upstream files) repo g = (refl, refl)

pub record_scan-kept :
    (g : ChainGraph) (repo : RepoId) (status : ScanStatus)
    → ((record_scan g repo status).subjects ≡ g.subjects)
      × ((record_scan g repo status).edges ≡ g.edges)
unfolding record_scan
record_scan-kept g repo status = ground arith

-- A scan that succeeded is not forgotten.
is_scanned-record_scan :
    (g : ChainGraph) (repo q : RepoId) (status : ScanStatus)
    → is_scanned g q ≡ true
    → is_scanned (record_scan g repo status) q ≡ true
unfolding is_scanned
is_scanned-record_scan g repo q status h =
    ground (arith, h, get-record_scan g repo q status, is_scanned-cong g repo q)

pub is_scanned-recorded :
    (g : ChainGraph) (repo : RepoId) (revision : Option Str) (n : ℕ)
    → is_scanned (record_scan g repo (scanned revision n)) repo ≡ true
unfolding is_scanned status_is_scanned
is_scanned-recorded g repo revision n =
    ground (arith, get-record_scan g repo repo (scanned revision n), (repo_eq_iff repo repo).1 refl)

-- The graph before the files of a snapshot are added.
unfoldable pub probed : ChainGraph → RepoSnapshot × Role → ChainGraph
probed g entry = add_notes entry.0 (
    note_canonical entry.0 (
      note_role entry.1 entry.0.repo
        (record_scan g entry.0.repo (status_for (workflow_files entry.0) entry.0.status))))

pub probed-kept :
    (g : ChainGraph) (entry : RepoSnapshot × Role)
    → ((probed g entry).scans
        ≡ (record_scan g entry.0.repo (status_for (workflow_files entry.0) entry.0.status)).scans)
      × ((probed g entry).edges ≡ g.edges)
unfolding probed add_notes
probed-kept g entry =
    let start = record_scan g entry.0.repo (status_for (workflow_files entry.0) entry.0.status) in
    let next = note_role entry.1 entry.0.repo start in
    let a = note_canonical-kept entry.0 next in
    let b = note_role-kept entry.1 entry.0.repo start in
    let c = record_scan-kept g entry.0.repo (status_for (workflow_files entry.0) entry.0.status) in
    (a.0 ∙ b.0, a.1.1 ∙ b.1 ∙ c.1)

pub is_scanned-scans :
    (g h : ChainGraph) (r : RepoId) → g.scans ≡ h.scans → is_scanned g r ≡ is_scanned h r
unfolding is_scanned
is_scanned-scans g h r e = rw e refl

-- What a graph keeps when more is added to it.
pub record Extends (g h : ChainGraph) : Type 0 where
  pub still_scanned : (r : RepoId) → is_scanned g r ≡ true → is_scanned h r ≡ true
  pub still_subject :
      (r : RepoId) → contains_repo g.subjects r ≡ true → contains_repo h.subjects r ≡ true
  pub still_edge : (e : Edge) → In e g.edges → In e h.edges

pub Extends-trans : (g h k : ChainGraph) → Extends g h → Extends h k → Extends g k
Extends-trans g h k a b = record {
  still_scanned = λ r m. b.still_scanned r (a.still_scanned r m);
  still_subject = λ r m. b.still_subject r (a.still_subject r m);
  still_edge = λ e m. b.still_edge e (a.still_edge e m);
}

add_files-old :
    (repo : RepoId) (role : Role) (fs : List WorkflowFile) (g : ChainGraph) (e : Edge)
    → In e g.edges
    → In e (add_files repo role fs g).edges
unfolding add_files add_edges
add_files-old repo role [] g e m = m
add_files-old repo role (f ∷ fs) g e m = elim (Bool-cases (counts role f.path)) [
  | inl k ↦
      rw (add_files, k)
        (add_files-old repo role fs (add_edges g (extract_edges repo f)) e
          (In-append-left g.edges (extract_edges repo f) e m))
  | inr k ↦ rw (add_files, k) (add_files-old repo role fs g e m)
]

pub add_files-new :
    (repo : RepoId) (fs : List WorkflowFile) (g : ChainGraph) (f : WorkflowFile) (e : Edge)
    → In f fs
    → In e (extract_edges repo f)
    → In e (add_files repo subject fs g).edges
unfolding add_files add_edges counts
add_files-new repo [] g f e m h = absurd m
add_files-new repo (x ∷ fs) g f e (inl same) h =
    add_files-old repo subject fs (add_edges g (extract_edges repo x)) e (
      In-append-right g.edges (extract_edges repo x) e
        (subst (λ y. In e (extract_edges repo y)) (sym same) h))
add_files-new repo (x ∷ fs) g f e (inr m) h =
    add_files-new repo fs (add_edges g (extract_edges repo x)) f e m h

add_population-old :
    (repo : RepoId) (role : Role) (files : Files) (g : ChainGraph) (e : Edge)
    → In e g.edges
    → In e (add_population repo role files g).edges
unfolding add_population
add_population-old repo role (ok files) g e m = add_files-old repo role files g e m
add_population-old repo role (err reason) g e m = m

pub note_role-subjects :
    (role : Role) (repo : RepoId) (g : ChainGraph) (r : RepoId)
    → contains_repo g.subjects r ≡ true
    → contains_repo (note_role role repo g).subjects r ≡ true
unfolding note_role record_subject
note_role-subjects subject repo g r m = ground (arith, m, contains-set_insert g.subjects repo r)
note_role-subjects (upstream files) repo g r m = m

probed-subjects :
    (g : ChainGraph) (entry : RepoSnapshot × Role) (r : RepoId)
    → contains_repo g.subjects r ≡ true
    → contains_repo (probed g entry).subjects r ≡ true
unfolding probed add_notes
probed-subjects g entry r m =
    let start = record_scan g entry.0.repo (status_for (workflow_files entry.0) entry.0.status) in
    let kept = note_canonical-kept entry.0 (note_role entry.1 entry.0.repo start) in
    let before =
      record_scan-kept g entry.0.repo (status_for (workflow_files entry.0) entry.0.status) in
    subst (λ s. contains_repo s r ≡ true) (sym kept.1.0)
      (note_role-subjects entry.1 entry.0.repo start r
        (subst (λ s. contains_repo s r ≡ true) (sym before.0) m))

pub add_snapshot-probed :
    (g : ChainGraph) (entry : RepoSnapshot × Role)
    → add_snapshot g entry
      ≡ add_population entry.0.repo entry.1 (workflow_files entry.0) (probed g entry)
unfolding add_snapshot probed
add_snapshot-probed g entry = refl

pub add_snapshot-scans :
    (g : ChainGraph) (entry : RepoSnapshot × Role)
    → (add_snapshot g entry).scans
      ≡ (record_scan g entry.0.repo (status_for (workflow_files entry.0) entry.0.status)).scans
add_snapshot-scans g entry = rw (add_snapshot-probed g entry) (
    (add_population-kept entry.0.repo entry.1 (workflow_files entry.0) (probed g entry)).0
    ∙ (probed-kept g entry).0)

pub add_snapshot-Extends :
    (g : ChainGraph) (entry : RepoSnapshot × Role) → Extends g (add_snapshot g entry)
add_snapshot-Extends g entry =
    let files = workflow_files entry.0 in
    let start = record_scan g entry.0.repo (status_for files entry.0.status) in
    let kept = add_population-kept entry.0.repo entry.1 files (probed g entry) in
    record {
      still_scanned = λ r m.
          is_scanned-scans (add_snapshot g entry) start r (add_snapshot-scans g entry)
          ∙ is_scanned-record_scan g entry.0.repo r (status_for files entry.0.status) m;
      still_subject = λ r m. rw (add_snapshot-probed g entry, kept.1) (probed-subjects g entry r m);
      still_edge = λ e m. rw (add_snapshot-probed g entry) (
          add_population-old entry.0.repo entry.1 files (probed g entry) e
            (subst (λ es. In e es) (sym (probed-kept g entry).1) m));
    }
