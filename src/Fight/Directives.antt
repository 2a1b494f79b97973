-- ===== src/Fight/Directives.antt =====
-- A directive with a table and a comment that mentions it, and the theorem about the tables applied.
use cicd_squabbler.Prelude.{
  ◌≡◌, refl, All, Str, codes, [], ◌∷◌, lines, trim, trim_start, trim_end, is_whitespace,
  starts_with, contains, strip_prefix, str_eq, first_part,
}
use cicd_squabbler.Polarity.{is_usable}
use cicd_squabbler.Fight.Extract.{text_behind}
use cicd_squabbler.Fight.Context.{
  advance, closed, quoted_from, assigns, opens_array, array_from, extract_array,
}
use cicd_squabbler.Fight.Triage.{
  split_inclusive, code_of, close_body, next_body, bodies_from, signature_bodies, before_header,
  until_next_header, section_of, scalar_on, scalar_from, extract_scalar, signature_in, scanners_in,
  legacy_in, parse_signatures, parse_applicability,
}
use cicd_squabbler.Fight.Tables.{IsBody, tables, signature_bodies-IsBody}

directive_opened : Unit {0}
unfolding lines trim trim_start trim_end is_whitespace starts_with contains strip_prefix str_eq
    first_part is_usable text_behind advance closed quoted_from assigns opens_array array_from
    extract_array split_inclusive code_of close_body next_body bodies_from signature_bodies
    before_header until_next_header section_of scalar_on scalar_from extract_scalar signature_in
    scanners_in legacy_in parse_signatures parse_applicability
directive_opened = tt

abbrev directive : Str
directive =
    codes
      "# [[gate-triage.detection.signatures]] per scanner\n[[gate-triage.detection.signatures]]\nscanner = \"lint\"\nskipped-steps = [\n  \"Scan\",\n]\nsuccess-steps = [\"Stub\"]\n[other]\nskipped-steps = [\"No\"]\n"

directive-read : parse_signatures directive ≡ record {
  signatures =
      record {
        scanner = codes "lint";
        signature = record { skipped_steps = codes "Scan" ∷ []; success_steps = codes "Stub" ∷ [] };
      }
      ∷ [];
}
unfolding directive_opened
directive-read = refl

-- The name of the section in a comment of an earlier one is taken for its header.
mention-read :
    parse_applicability (
      codes
        "# see [gate-triage.applicability]\n[other]\n[gate-triage.applicability]\nruns-on-channels = [\"alpha\"]\n")
    ≡ record { runs_for_operator_types = []; runs_on_channels = [] }
unfolding directive_opened
mention-read = refl

signature_bodies-IsBody_example :
    All (IsBody (split_inclusive directive)) (signature_bodies directive)
    × (signature_bodies directive ≡ tables (split_inclusive directive))
signature_bodies-IsBody_example = signature_bodies-IsBody directive
