-- ===== src/Fight/Triage.antt =====
-- crates/squabble-fight/src/gate_triage.rs and execution.rs: the step names of the classifiers, read
-- from the directives of a repository. `read` is the text of a file of the checkout, empty where it
-- cannot be read.
use cicd_squabbler.Prelude.{
  Bool, ◌==◌, if◌then◌else◌, Option, none, some, or_else, unwrap_or, if_let, ◌>>=◌, List, [], ◌∷◌,
  ◌++◌, is_nil, Str, codes, cons_head, lines, trim, trim_start, starts_with, strip_prefix, str_eq,
  first_part,
}
use cicd_squabbler.Polarity.{
  VacuitySignature, is_usable, ScannerSignature, SignatureSet, Applicability, RepoDeclaration,
}
use cicd_squabbler.Execution.{PhaseSignatures}
use cicd_squabbler.Fight.Extract.{text_behind}
use cicd_squabbler.Fight.Context.{extract_array}

abbrev pub signature_table : Str
signature_table = codes "[[gate-triage.detection.signatures]]"

-- `s.split_inclusive('\n')`
unfoldable pub split_inclusive : Str → List Str
split_inclusive [] = []
split_inclusive (c ∷ s) =
    let rest = split_inclusive s in if c == 10 then (c ∷ []) ∷ rest else cons_head c rest

unfoldable pub code_of : Str → Str
code_of line = trim (first_part b'#' line)

-- The bodies that are closed when a line opens a table or a section, and the text of the open one.
unfoldable pub close_body : Option Str → List Str
close_body none = []
close_body (some body) = body ∷ []

unfoldable pub next_body : Option Str → Str → Option Str
unfolding code_of
next_body inside line =
    if str_eq (code_of line) signature_table
    then some []
    else if starts_with (codes "[") (code_of line)
    then none
    else (inside >>= λ body. some (body ++ line))

unfoldable pub bodies_from : Option Str → List Str → List Str
unfolding close_body next_body code_of
bodies_from inside [] = close_body inside
bodies_from inside (line ∷ ls) =
    (if starts_with (codes "[") (code_of line) then close_body inside else [])
    ++ bodies_from (next_body inside line) ls

unfoldable pub signature_bodies : Str → List Str
unfolding bodies_from split_inclusive
signature_bodies raw = bodies_from none (split_inclusive raw)

unfoldable pub before_header : (Str → Bool) → List Str → Str
before_header opens [] = []
before_header opens (line ∷ ls) =
    let rest = before_header opens ls in if opens line then [] else line ++ rest

unfoldable pub until_next_header : Str → Str
unfolding before_header split_inclusive
until_next_header chunk =
    before_header (λ line. starts_with (codes "[") (trim_start line)) (split_inclusive chunk)

unfoldable pub section_of : Str → Str → Str
unfolding text_behind until_next_header
section_of raw header = if_let (text_behind header raw) until_next_header raw

-- The value that stands in quotes behind the key of a line.
unfoldable pub scalar_on : Str → Str → Option Str
unfolding text_behind
scalar_on key line =
    if starts_with (codes "#") (trim line)
    then none
    else strip_prefix key (trim line) >>= λ rest.
        or_else (strip_prefix (codes "=") (trim_start rest))
          (strip_prefix (codes ":") (trim_start rest))
        >>= λ value. strip_prefix (codes "\"") (trim_start value) >>= λ inside.
            if_let (text_behind (codes "\"") inside) (λ behind. some (first_part b'"' inside)) none

unfoldable pub scalar_from : Str → List Str → Option Str
unfolding scalar_on
scalar_from key [] = none
scalar_from key (line ∷ ls) = or_else (scalar_on key line) (scalar_from key ls)

unfoldable pub extract_scalar : Str → Str → Option Str
unfolding scalar_from
extract_scalar text key = scalar_from key (lines text)

unfoldable pub signature_in : Str → Str → Str → VacuitySignature
unfolding extract_array
signature_in text skipped success = record {
  skipped_steps = extract_array text skipped;
  success_steps = extract_array text success;
}

unfoldable pub scanners_in : List Str → List ScannerSignature
unfolding signature_in is_usable extract_scalar
scanners_in [] = []
scanners_in (body ∷ rest) =
    let scanners = scanners_in rest in
    let found = signature_in body (codes "skipped-steps") (codes "success-steps") in
    if is_usable found
    then record {
      scanner = unwrap_or (extract_scalar body (codes "scanner")) (codes "unnamed");
      signature = found;
    }
      ∷ scanners
    else scanners

-- The flat keys of older directives, where no table gave a signature.
unfoldable pub legacy_in : Str → List ScannerSignature
unfolding signature_in is_usable
legacy_in raw =
    let legacy =
      signature_in raw (codes "signature-skipped-steps") (codes "signature-success-steps") in
    if is_usable legacy
    then record { scanner = codes "legacy-flat-keys"; signature = legacy } ∷ []
    else []

unfoldable pub parse_signatures : Str → SignatureSet
unfolding scanners_in legacy_in signature_bodies
parse_signatures raw = record {
  signatures =
      if is_nil (scanners_in (signature_bodies raw))
      then legacy_in raw
      else scanners_in (signature_bodies raw);
}

unfoldable pub parse_applicability : Str → Applicability
unfolding section_of extract_array
parse_applicability raw =
    let section = section_of raw (codes "[gate-triage.applicability]") in
    record {
      runs_for_operator_types = extract_array section (codes "runs-for-operator-types");
      runs_on_channels = extract_array section (codes "runs-on-channels");
    }

abbrev pub directive_path : Str
directive_path = codes ".machine_readable/bot_directives/gate_triage.a2ml"

unfoldable pub load_signatures : (Str → Str) → SignatureSet
unfolding parse_signatures
load_signatures read = parse_signatures (read directive_path)

unfoldable pub load_applicability : (Str → Str) → Applicability
unfolding parse_applicability
load_applicability read = parse_applicability (read directive_path)

unfoldable pub load_declaration : (Str → Str) → RepoDeclaration
unfolding section_of extract_scalar
load_declaration read =
    let section = section_of (read directive_path) (codes "[gate-triage.applicability]") in
    let manifest =
      read
        (unwrap_or (extract_scalar section (codes "manifest-file")) (codes "0-AI-MANIFEST.a2ml")) in
    record {
      operator_type = extract_scalar manifest (
          unwrap_or (extract_scalar section (codes "operator-type-key"))
            (codes "@gitforge_OperatorType"));
      channel =
          extract_scalar manifest
            (unwrap_or (extract_scalar section (codes "channel-key")) (codes "@channel"));
    }

-- execution.rs: the section of the phase signatures, empty where there is none.
unfoldable pub phase_section : Str → Str
unfolding text_behind before_header split_inclusive code_of
phase_section raw =
    if_let (text_behind (codes "[execution-taxonomy]") raw)
      (λ rest.
        before_header (λ line. starts_with (codes "[") (code_of line)) (split_inclusive rest))
      []

unfoldable pub parse_phases : Str → PhaseSignatures
unfolding phase_section extract_array
parse_phases raw = record {
  setup_steps = extract_array (phase_section raw) (codes "setup-steps");
  prerequisite_steps = extract_array (phase_section raw) (codes "prerequisite-steps");
}

unfoldable pub load_phases : (Str → Str) → PhaseSignatures
unfolding parse_phases
load_phases read =
    parse_phases (read (codes ".machine_readable/bot_directives/execution_taxonomy.a2ml"))
