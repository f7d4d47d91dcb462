-- ===== src/Workflow/Context.antt =====
-- The context of an execution: a JavaScript object, as the list of its keys and values. An array is
-- the object of its indices, which is how a spread reads it; numbers are only passed on.

use micro_saas_api.Base.{
  ℕ, Bool, true, false, not, List, [], ◌∷◌, Option, none, some, String, str_eq, ◌==◌,
}

mutual
  pub data Value : Type 0 where
    null : Value
    bool : Bool → Value
    num : ℕ → Value
    str : String → Value
    obj : Fields → Value

  pub data Fields : Type 0 where
    end : Fields
    field : String → Value → Fields → Fields

abbrev pub Context : Type 0
Context = List (String × Value)

abbrev pub entries : Fields → Context
entries end = []
entries (field k v fs) = (k, v) ∷ entries fs

-- `v === true`
abbrev pub is_true : Option Value → Bool
is_true (some (bool b)) = b
is_true _ = false

-- The text of a value that is a string.
abbrev pub as_text : Option Value → Option String
as_text (some (str s)) = some s
as_text _ = none

-- A value that counts as true.
abbrev pub truthy : Option Value → Bool
truthy none = false
truthy (some null) = false
truthy (some (bool b)) = b
truthy (some (num n)) = not (n == 0)
truthy (some (str s)) = not (str_eq s "")
truthy (some (obj fs)) = true
