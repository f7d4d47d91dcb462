-- ===== src/Workflow/Condition/Tests.antt =====
-- condition-node.executor.ts: two conditions.
use micro_saas_api.Base.{◌≡◌, ◌↔◌, refl, Bool, true, false, Option, none, some}
use micro_saas_api.Text.{Text, codes, to_lower, includes, starts_with, same_text}
use micro_saas_api.Workflow.Condition.{is_matched, operator_of, condition_result}
use micro_saas_api.Workflow.Condition.Meets.{Meets, condition_result-Meets}

-- No number exceeds another here, and no expression can be built.
abbrev exceeds : Text → Text → Bool
exceeds a b = false

abbrev matches : Text → Text → Option Bool
matches pattern text = none

holds :
    is_matched exceeds matches (operator_of (codes "has")) (codes "The PRICE list") (codes "Price")
    ≡ true
unfolding is_matched operator_of to_lower includes starts_with same_text
holds = refl

begins :
    is_matched exceeds matches (operator_of (codes "starts_with")) (codes "The") (codes "the")
    ≡ false
unfolding is_matched operator_of starts_with same_text
begins = refl

condition_result-Meets_example :
    ((condition_result exceeds matches (codes "ends_with") (codes "list") (codes "st")).branch
      ≡ some "true")
    ↔ Meets exceeds matches (operator_of (codes "ends_with")) (codes "list") (codes "st")
condition_result-Meets_example =
    condition_result-Meets exceeds matches (codes "ends_with") (codes "list") (codes "st")
