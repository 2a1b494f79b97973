-- ===== src/Fight/Complete.antt =====
-- A local snapshot that counts as scanned holds every workflow file of its directory.
use cicd_squabbler.Prelude.{
  In-append-left, In-append-right, All-map, ℕ, ◌≡◌, refl, sym, ◌∙◌, ap, Bool, true, false,
  Bool-cases, Option-cases, inl, inr, Option, some, or_else, List, [], ◌∷◌, ◌++◌, is_nil, length,
  All, In, Str, codes, str_lt, arith,
}
use mathlib.Core.Path.{subst}
use cicd_squabbler.Chains.{RepoId, scanned, WorkflowFile}
use cicd_squabbler.Chains.Keys.{place_key, sort_onto}
use cicd_squabbler.Fight.Local.{
  directory, EntryKind, folder, regular, special, unknown, ReadText, text_is, unreadable, DirEntry,
  Listed, listed, unlisted, entries_are, Checkout, Workflows, is_workflow_extension, read_regular,
  read_named, read_entry, read_entries, inspect, read_listing, read_local_workflows, origin_slug,
  unread, local_status, head_revision, snapshot_of, snapshot_local,
}

-- What became of an entry of the directory: it is no workflow by its extension, it is a folder, or it
-- is a file whose name and text are kept.
pub data IsKept (files : List WorkflowFile) : Listed → Type 0 where
  not_workflow :
      (e : DirEntry) → is_workflow_extension e.extension ≡ false → IsKept files (listed e)
  is_folder : (e : DirEntry) → e.entry_kind ≡ folder → IsKept files (listed e)
  kept :
      (e : DirEntry) (name text : Str)
      → e.name ≡ some name
      → e.content ≡ text_is text
      → In (record { path = name; text = text }) files
      → IsKept files (listed e)

IsKept-grows :
    (files more : List WorkflowFile) (entry : Listed)
    → ((f : WorkflowFile) → In f files → In f more)
    → IsKept files entry
    → IsKept more entry
IsKept-grows files more _ h (not_workflow e k) = not_workflow e k
IsKept-grows files more _ h (is_folder e k) = is_folder e k
IsKept-grows files more _ h (kept e name text k l m) = kept e name text k l (h _ m)

append-nil-left :
    {A : Type 0} (xs ys : List A)
    → is_nil (xs ++ ys) ≡ true
    → (is_nil xs ≡ true) × (is_nil ys ≡ true)
append-nil-left [] ys h = (refl, h)
append-nil-left (x ∷ xs) ys h = cc

module _ {A : Type 0} (lt : A → A → Bool) where
  In-place_key-here : (s : List A) (a : A) → In a (place_key lt s a)
  unfolding place_key
  In-place_key-here [] a = inl refl
  In-place_key-here (x ∷ s) a = elim (Bool-cases (lt a x)) [
    | inl e ↦ rw e (inl refl)
    | inr e ↦ rw e (inr (In-place_key-here s a))
  ]

  In-place_key-old : (s : List A) (a b : A) → In b s → In b (place_key lt s a)
  unfolding place_key
  In-place_key-old [] a b m = absurd m
  In-place_key-old (x ∷ s) a b m = elim (Bool-cases (lt a x)) [
    | inl e ↦ rw e (inr m)
    | inr e ↦ rw e (elim m [ inl h ↦ inl h | inr h ↦ inr (In-place_key-old s a b h) ])
  ]

  In-sort_onto-old : (s xs : List A) (b : A) → In b s → In b (sort_onto lt s xs)
  unfolding sort_onto
  In-sort_onto-old s [] b m = m
  In-sort_onto-old s (x ∷ xs) b m =
      In-sort_onto-old (place_key lt s x) xs b (In-place_key-old s x b m)

  pub In-sort_onto : (s xs : List A) (b : A) → In b xs → In b (sort_onto lt s xs)
  unfolding sort_onto
  In-sort_onto s [] b m = absurd m
  In-sort_onto s (x ∷ xs) b (inl e) =
      In-sort_onto-old (place_key lt s x) xs b
        (subst (λ y. In y (place_key lt s x)) e (In-place_key-here s x))
  In-sort_onto s (x ∷ xs) b (inr m) = In-sort_onto (place_key lt s x) xs b m

read_named-IsKept :
    (e : DirEntry) (name : Str) (kind : EntryKind) (content : ReadText)
    → e.name ≡ some name
    → e.entry_kind ≡ kind
    → e.content ≡ content
    → is_nil (read_named name kind content).1 ≡ true
    → IsKept (read_named name kind content).0 (listed e)
unfolding read_named read_regular
read_named-IsKept e name folder content h k l n = is_folder e k
read_named-IsKept e name regular (text_is text) h k l n = kept e name text h l (inl refl)
read_named-IsKept e name regular (unreadable error) h k l n = cc n
read_named-IsKept e name special content h k l n = cc n
read_named-IsKept e name (unknown error) content h k l n = cc n

read_entry-named :
    (e : DirEntry) (name : Str)
    → is_workflow_extension e.extension ≡ true
    → e.name ≡ some name
    → read_entry (listed e) ≡ read_named name e.entry_kind e.content
unfolding read_entry
read_entry-named e name k l = rw (k, l) refl

read_entry-IsKept :
    (entry : Listed) → is_nil (read_entry entry).1 ≡ true → IsKept (read_entry entry).0 entry
unfolding read_entry
read_entry-IsKept (unlisted error) h = cc h
read_entry-IsKept (listed e) h = elim (Bool-cases (is_workflow_extension e.extension)) [
  | inr k ↦ not_workflow e k
  | inl k ↦ elim (Option-cases e.name) [
    | inl l ↦ cc (rw (k, l) at h)
    | inr (name, l) ↦
        let same = read_entry-named e name k l in
        subst (λ w. IsKept w.0 (listed e)) (sym same)
          (read_named-IsKept e name e.entry_kind e.content l refl refl
            (subst (λ w. is_nil w.1 ≡ true) same h))
  ]
]

read_entries-IsKept :
    (entries : List Listed)
    → is_nil (read_entries entries).1 ≡ true
    → All (IsKept (read_entries entries).0) entries
unfolding read_entries
read_entries-IsKept [] h = tt
read_entries-IsKept (entry ∷ rest) h =
    let quiet = append-nil-left (read_entry entry).1 (read_entries rest).1 h in
    let here = (read_entry entry).0 in
    let later = (read_entries rest).0 in
    (
      IsKept-grows here (here ++ later) entry (λ f m. In-append-left here later f m)
          (read_entry-IsKept entry quiet.0),
      All-map _ _ rest
          (λ x k. IsKept-grows later (here ++ later) x (λ f m. In-append-right here later f m) k)
          (read_entries-IsKept rest quiet.1),
    )

-- Where a snapshot counts as scanned, nothing was left unread.
local_status-nil :
    (revision : Option Str) (w : Workflows) (r : Option Str) (n : ℕ)
    → local_status revision w ≡ scanned r n
    → (is_nil w.1 ≡ true) × (n ≡ length w.0)
unfolding local_status
local_status-nil revision w r n h = ground (arith, h)

snapshot_of-scanned :
    (c : Checkout) (repo : RepoId) (r : Option Str) (n : ℕ)
    → (snapshot_of c repo).status ≡ scanned r n
    → (is_nil (read_local_workflows c).1 ≡ true)
      × ((n ≡ length (read_local_workflows c).0)
          × ((snapshot_of c repo).files ≡ (read_local_workflows c).0))
unfolding snapshot_of unread
snapshot_of-scanned c repo r n h = elim (Bool-cases c.is_dir) [
  | inr k ↦ cc (rw k at h)
  | inl k ↦
      let found = local_status-nil (head_revision c) (read_local_workflows c) r n (rw k at h) in
      (found.0, (found.1, rw k refl))
]

snapshot_local-scanned :
    (c : Checkout) (slug : Option Str) (r : Option Str) (n : ℕ)
    → (snapshot_local c slug).status ≡ scanned r n
    → (is_nil (read_local_workflows c).1 ≡ true)
      × ((n ≡ length (read_local_workflows c).0)
          × ((snapshot_local c slug).files ≡ (read_local_workflows c).0))
unfolding snapshot_local unread
snapshot_local-scanned c slug r n h = elim (Option-cases (or_else slug (origin_slug c))) [
  | inl k ↦ cc (rw k at h)
  | inr (s, k) ↦
      let found = snapshot_of-scanned c (record { slug = s }) r n (rw k at h) in
      (found.0, (found.1.0, rw k found.1.1))
]

read_local-listing :
    (c : Checkout) (entries : List Listed)
    → c.component (codes ".github") ≡ directory
    → c.component (codes ".github/workflows") ≡ directory
    → c.listing ≡ entries_are entries
    → read_local_workflows c ≡ (
      sort_onto (λ a b. str_lt a.path b.path) [] (read_entries entries).0,
      (read_entries entries).1,
    )
unfolding read_local_workflows inspect read_listing
read_local-listing c entries k l m = rw (k, l, m) refl

-- A checkout whose snapshot counts as scanned was read in full: the count is that of the files, and
-- each entry of its workflow directory is a folder, or no workflow by its extension, or is kept with
-- its name and its text.
pub snapshot_local-IsKept :
    (c : Checkout) (slug revision : Option Str) (n : ℕ) (entries : List Listed)
    → (snapshot_local c slug).status ≡ scanned revision n
    → c.component (codes ".github") ≡ directory
    → c.component (codes ".github/workflows") ≡ directory
    → c.listing ≡ entries_are entries
    → (n ≡ length (snapshot_local c slug).files)
      × All (IsKept (snapshot_local c slug).files) entries
snapshot_local-IsKept c slug revision n entries h k l m =
    let found = snapshot_local-scanned c slug revision n h in
    let read = read_local-listing c entries k l m in
    let quiet = subst (λ w. is_nil w.1 ≡ true) read found.0 in
    let sorted = sort_onto (λ a b. str_lt a.path b.path) [] (read_entries entries).0 in
    let same : (snapshot_local c slug).files ≡ sorted = found.1.1 ∙ ap (λ w. w.0) read in
    (
      found.1.0 ∙ ap length (sym found.1.1),
      subst (λ files. All (IsKept files) entries) (sym same)
          (All-map _ _ entries
            (λ x kept.
              IsKept-grows (read_entries entries).0 sorted x
                (λ f there.
                  In-sort_onto (λ a b. str_lt a.path b.path) [] (read_entries entries).0 f there)
                kept)
            (read_entries-IsKept entries quiet)),
    )
