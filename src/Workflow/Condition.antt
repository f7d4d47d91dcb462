-- ===== src/Workflow/Condition.antt =====
-- condition-node.executor.ts: the test of a condition node, on the texts of the field and of the value
-- that the executor has read out of the context and the node.
pub mod Meets
pub mod Tests
use micro_saas_api.Base.{
  Bool, true, false, not, [], ◌∷◌, Option, none, some, if◌then◌else◌, length, ltb,
}
use micro_saas_api.Text.{Text, codes, same_text, trim, to_lower, starts_with, ends_with, includes}
use micro_saas_api.Workflow.Execution.{NodeResult}
use micro_saas_api.Workflow.Context.{Context, bool}

-- The cases of the switch; any other operator is the default one.
pub data Operator : Type 0 where
  equals not_equals starts ends not_empty greater_than less_than regex contains : Operator

unfoldable pub operator_of : Text → Operator
unfolding same_text
operator_of s =
    if same_text s (codes "equals")
    then equals
    else if same_text s (codes "not_equals")
    then not_equals
    else if same_text s (codes "starts_with")
    then starts
    else if same_text s (codes "ends_with")
    then ends
    else if same_text s (codes "not_empty")
    then not_empty
    else if same_text s (codes "greater_than")
    then greater_than
    else if same_text s (codes "less_than")
    then less_than
    else if same_text s (codes "regex")
    then regex
    else contains

-- A regular expression that cannot be built matches nothing.
abbrev pub tested : Option Bool → Bool
tested none = false
tested (some b) = b

-- `exceeds` is `Number(a) > Number(b)`, and `matches` the test of an expression of JavaScript without
-- regard to case, none where it throws.
module _ (exceeds : Text → Text → Bool) (matches : (pattern text : Text) → Option Bool) where
  unfoldable pub is_matched : Operator → (actual compare : Text) → Bool
  is_matched equals actual compare = same_text actual compare
  is_matched not_equals actual compare = not (same_text actual compare)
  is_matched starts actual compare = starts_with actual compare
  is_matched ends actual compare = ends_with actual compare
  is_matched not_empty actual compare = ltb 0 (length (trim actual))
  is_matched greater_than actual compare = exceeds actual compare
  is_matched less_than actual compare = exceeds compare actual
  is_matched regex actual compare = tested (matches compare actual)
  is_matched contains actual compare = includes (to_lower actual) (to_lower compare)

  -- The result, without the field and the value that it reports.
  unfoldable pub condition_result : Text → (actual compare : Text) → NodeResult
  condition_result operator actual compare =
      let matched = is_matched (operator_of operator) actual compare in
      record {
        success = true;
        output = some (("matched", bool matched) ∷ []);
        error = none;
        stop = false;
        pause = false;
        branch = some (if matched then "true" else "false");
      }
