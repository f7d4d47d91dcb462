-- ===== src/Workflow/Condition/Meets.antt =====
-- condition-node.executor.ts: what the operators ask, and the edge that is taken.
use micro_saas_api.Base.{
  ◌≡◌, ◌≢◌, refl, subst, ap, inl, inr, Bool, true, Option, none, some, arith, Bool-cases, ◌↔◌, not,
  false, String, if◌then◌else◌,
}
use micro_saas_api.Text.{Text, same_text, to_lower}
use micro_saas_api.Text.Laws.{same_text_sound, same_text_refl}
use micro_saas_api.Text.Searches.{
  StartsWith, EndsWith, Includes, starts_with_sound, starts_with-append, ends_with_sound,
  ends_with-append, includes_sound, includes-append,
}
use micro_saas_api.Text.Spaces.{IsInked, trim-length, trim-IsInked}
use micro_saas_api.Workflow.Condition.{
  Operator, equals, not_equals, starts, ends, not_empty, greater_than, less_than, regex, contains,
  tested, operator_of, is_matched, condition_result,
}

differs : (a c : Text) → not (same_text a c) ≡ true → a ≢ c
differs a c h same =
    let yes : same_text a c ≡ true = subst (λ x. same_text a x ≡ true) same (same_text_refl a) in
    ground (arith, h, yes)

-- The branch names the test.
of_branch :
    (b : Bool)
    → ◌≡◌ {A = Option String} (some (if b then "true" else "false")) (some "true")
    → b ≡ true
of_branch true h = refl
of_branch false h = cc h

tested_sound : (b : Option Bool) → tested b ≡ true → b ≡ some true
tested_sound none h = cc
tested_sound (some b) h = ap (λ x. some x) h

module _ (exceeds : Text → Text → Bool) (matches : (pattern text : Text) → Option Bool) where
  -- What an operator asks of the two texts.
  abbrev pub Meets : Operator → (actual compare : Text) → Type 0
  Meets equals actual compare = actual ≡ compare
  Meets not_equals actual compare = actual ≢ compare
  Meets starts actual compare = StartsWith actual compare
  Meets ends actual compare = EndsWith actual compare
  Meets not_empty actual compare = IsInked actual
  Meets greater_than actual compare = exceeds actual compare ≡ true
  Meets less_than actual compare = exceeds compare actual ≡ true
  Meets regex actual compare = matches compare actual ≡ some true
  Meets contains actual compare = Includes (to_lower actual) (to_lower compare)

  is_matched_sound :
      (o : Operator) (a c : Text) → is_matched exceeds matches o a c ≡ true → Meets o a c
  unfolding is_matched
  is_matched_sound equals a c h = same_text_sound a c h
  is_matched_sound not_equals a c h = differs a c h
  is_matched_sound starts a c h = starts_with_sound a c h
  is_matched_sound ends a c h = ends_with_sound a c h
  is_matched_sound not_empty a c h = trim-IsInked a (ground (arith, h))
  is_matched_sound greater_than a c h = h
  is_matched_sound less_than a c h = h
  is_matched_sound regex a c h = tested_sound (matches c a) h
  is_matched_sound contains a c h = includes_sound (to_lower a) (to_lower c) h

  is_matched_complete :
      (o : Operator) (a c : Text) → Meets o a c → is_matched exceeds matches o a c ≡ true
  unfolding is_matched
  is_matched_complete equals a c h = subst (λ x. same_text a x ≡ true) h (same_text_refl a)
  is_matched_complete not_equals a c h = elim (Bool-cases (same_text a c)) [
    | inl y ↦ elim (h (same_text_sound a c y)) [ ]
    | inr n ↦ rw n refl
  ]
  is_matched_complete starts a c (rest, e) = rw e (starts_with-append c rest)
  is_matched_complete ends a c (first, e) = rw e (ends_with-append first c)
  is_matched_complete not_empty a c h = ground (arith, trim-length a h)
  is_matched_complete greater_than a c h = h
  is_matched_complete less_than a c h = h
  is_matched_complete regex a c h = rw h refl
  is_matched_complete contains a c (first, (rest, e)) =
      rw e (includes-append first (to_lower c) rest)

  -- A condition node takes the branch `true` exactly where the texts meet what its operator asks:
  -- they are equal or differ, one begins or ends with the other or holds it without regard to case,
  -- the first has more than white space, the numbers compare, the expression matches.
  pub condition_result-Meets :
      (operator : Text) (a c : Text)
      → ((condition_result exceeds matches operator a c).branch ≡ some "true")
        ↔ Meets (operator_of operator) a c
  unfolding condition_result
  condition_result-Meets operator a c = (
    λ h.
        is_matched_sound (operator_of operator) a c
          (of_branch (is_matched exceeds matches (operator_of operator) a c) h),
    λ m. rw (is_matched_complete (operator_of operator) a c m) refl,
  )
