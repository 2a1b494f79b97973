-- ===== src/Fight/Checkouts.antt =====
-- A checkout with one workflow, a folder and a note, and the theorem about complete reads applied.
use cicd_squabbler.Prelude.{
  ◌≡◌, refl, true, Option, none, some, List, [], ◌∷◌, length, All, Str, codes, lines, trim,
  trim_start, trim_end, is_whitespace, split, starts_with, strip_prefix, strip_suffix, str_eq,
  str_lt, str_len, utf8_width, is_hexdigit, is_digit, to_ascii_lowercase, to_lower,
  trim_start_matches, trim_end_matches, join, if◌then◌else◌,
}
use cicd_squabbler.Chains.{scanned}
use cicd_squabbler.Chains.Keys.{place_key, sort_onto}
use cicd_squabbler.Fight.Extract.{text_behind}
use cicd_squabbler.Fight.Local.{
  directory, regular, folder, text_is, DirEntry, Listed, listed, entries_are, Checkout,
  is_workflow_extension, read_regular, read_named, read_entry, read_entries, inspect, read_listing,
  read_local_workflows, strip_tails, slug_of, github_slug, origin_in, origin_slug, is_commit,
  commit_of, split_at, packed_commit, commit_of_ref, head_revision, unread, local_status,
  snapshot_of, snapshot_local,
}
use cicd_squabbler.Fight.Complete.{IsKept, snapshot_local-IsKept}

checkout_opened : Unit {0}
unfolding lines trim trim_start trim_end is_whitespace split starts_with strip_prefix strip_suffix
    str_eq str_lt str_len utf8_width is_hexdigit is_digit to_ascii_lowercase to_lower
    trim_start_matches trim_end_matches join place_key sort_onto text_behind is_workflow_extension
    read_regular read_named read_entry read_entries inspect read_listing read_local_workflows
    strip_tails slug_of github_slug origin_in origin_slug is_commit commit_of split_at packed_commit
    commit_of_ref head_revision unread local_status snapshot_of snapshot_local
checkout_opened = tt

abbrev workflow_entry : DirEntry
workflow_entry = record {
  extension = some (codes "yml");
  name = some (codes "ci.yml");
  display = codes "ci.yml";
  entry_kind = regular;
  content = text_is (codes "jobs:\n");
}

abbrev folder_entry : DirEntry
folder_entry = record workflow_entry { name = some (codes "old.yml"); entry_kind = folder }

abbrev note_entry : DirEntry
note_entry = record workflow_entry { extension = none; name = some (codes "README") }

abbrev found_entries : List Listed
found_entries = listed folder_entry ∷ listed workflow_entry ∷ listed note_entry ∷ []

abbrev files_of : Str → Option Str
files_of path =
    if str_eq path (codes ".git/config")
    then some (codes "[core]\nurl = x\n[remote \"origin\"]\n\turl = git@github.com:octo/app.git\n")
    else if str_eq path (codes ".git/HEAD")
    then some (codes "ref: refs/heads/main\n")
    else if str_eq path (codes ".git/packed-refs")
    then some (codes "# packed\nAAAAAAAAAABBBBBBBBBBCCCCCCCCCCDDDDDDDDDD refs/heads/main\n")
    else none

abbrev checkout : Checkout
checkout = record {
  is_dir = true;
  file_name = some (codes "app");
  shown = codes "/work/app";
  component = λ name. directory;
  listing = entries_are found_entries;
  read_file = files_of;
  read_ref = λ name. none;
}

abbrev commit : Str
commit = codes "aaaaaaaaaabbbbbbbbbbccccccccccdddddddddd"

checkout-read : snapshot_local checkout none ≡ record {
  repo = record { slug = codes "octo/app" };
  status = scanned (some commit) 1;
  files = record { path = codes "ci.yml"; text = codes "jobs:\n" } ∷ [];
  notes = [];
  canonical = none;
}
unfolding checkout_opened
checkout-read = refl

checkout-scanned : (snapshot_local checkout none).status ≡ scanned (some commit) 1
unfolding checkout_opened
checkout-scanned = refl

snapshot_local-IsKept_example :
    (1 ≡ length (snapshot_local checkout none).files)
    × All (IsKept (snapshot_local checkout none).files) found_entries
snapshot_local-IsKept_example =
    snapshot_local-IsKept checkout none (some commit) 1 found_entries checkout-scanned refl refl
      refl
