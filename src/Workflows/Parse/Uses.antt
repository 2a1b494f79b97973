-- ===== src/Workflows/Parse/Uses.antt =====
-- The references that a workflow file uses.
use cicd_squabbler.Prelude.{◌≡◌, Bool, not, Option, none, some, filter, Str}
use cicd_squabbler.Workflows.{WorkflowInfo}
use cicd_squabbler.Workflows.Tokens.{is_sha_pin, reference_of}
use cicd_squabbler.Workflows.Parse.{Parsing}

-- A reference that is pinned to a tag or a branch.
abbrev pub is_tag_pinned : Str → Bool
is_tag_pinned norm = not (is_sha_pin (reference_of norm))

-- The references with a tag or a branch are those of all references, in their order.
abbrev Pinned : Parsing → Type 0
Pinned s = s.tag_pinned_uses ≡ filter is_tag_pinned s.external_uses

-- A property of the facts that were read, without a panic.
abbrev pub Reads : (WorkflowInfo → Type 0) → Option WorkflowInfo → Type 0
Reads P none = ⊥
Reads P (some w) = P w
