-- ===== src/Workflows/Posture.antt =====
-- When the change of the repository's Actions setting is proposed.
use cicd_squabbler.Prelude.{◌≡◌, Option, none, some, [], All, codes, first_part}
use cicd_squabbler.Startup.Covered.{Covers}
use cicd_squabbler.Workflows.{allow_list, WorkflowInfo, ActionsPolicyFacts}

-- The posture is known, allows selected actions only, lists no pattern, and does not cover something
-- that the workflow uses.
abbrev pub RefusesAll : Option ActionsPolicyFacts → WorkflowInfo → Type 0
RefusesAll none w = ⊥
RefusesAll (some p) w =
    (p.allowed_actions ≡ codes "selected")
    × ((p.patterns_allowed ≡ [])
        × ¬ All (λ u. Covers (allow_list p) (first_part b'@' u)) w.external_uses)
