-- ===== src/Text/Laws.antt =====
-- What the text methods promise.
use micro_saas_api.Base.{
  List, ◌-◌, ◌+◌, sym, ap, ◌∙◌, ℕ, zero, suc, ◌≡◌, ◌≤◌, refl, inl, inr, true, [], ◌∷◌, arith,
  length, All, Bool-cases,
}
use micro_saas_api.Text.{Text, same_text, is_digit, digits_only, take, drop}

pub same_text_sound : (a b : Text) → same_text a b ≡ true → a ≡ b
unfolding same_text
same_text_sound [] [] h = refl
same_text_sound [] (b ∷ t) h = cc
same_text_sound (a ∷ s) [] h = cc
same_text_sound (a ∷ s) (b ∷ t) h = ground (arith, same_text_sound s t)

pub same_text_refl : (a : Text) → same_text a a ≡ true
unfolding same_text
same_text_refl [] = refl
same_text_refl (a ∷ s) = ground (arith, same_text_refl s)

pub digits_only-All : (s : Text) → All (λ c. is_digit c ≡ true) (digits_only s)
unfolding digits_only
digits_only-All [] = tt
digits_only-All (c ∷ s) = elim (Bool-cases (is_digit c)) [
  | inl e ↦ rw e (e, digits_only-All s)
  | inr e ↦ rw e (digits_only-All s)
]

pub length-take-le : (n : ℕ) (s : Text) → length (take n s) ≤ n
length-take-le zero s = omega arith
length-take-le (suc n) [] = omega arith
length-take-le (suc n) (c ∷ s) = omega (arith, length-take-le n s)

pub All-take {ℓ} : (P : ℕ → Type ℓ) (n : ℕ) (s : Text) → All P s → All P (take n s)
All-take P zero s h = tt
All-take P (suc n) [] h = tt
All-take P (suc n) (c ∷ s) h = (h.0, All-take P n s h.1)

module _ {ℓ} {A : Type ℓ} where
  pub drop-nil : (n : ℕ) → drop {A = A} n [] ≡ []
  drop-nil zero = refl
  drop-nil (suc n) = refl

  pub drop-add : (n m : ℕ) (xs : List A) → drop m (drop n xs) ≡ drop (n + m) xs
  drop-add zero m xs = ap (λ n. drop n xs) (omega arith)
  drop-add (suc n) m [] = drop-nil m ∙ sym (drop-nil (suc n + m))
  drop-add (suc n) m (x ∷ xs) =
      let same : suc (n + m) ≡ suc n + m = omega arith in
      drop-add n m xs ∙ ap (λ z. drop z (x ∷ xs)) same

  pub length-drop : (n : ℕ) (xs : List A) → length (drop n xs) ≡ length xs - n
  length-drop zero xs = omega arith
  length-drop (suc n) [] = omega arith
  length-drop (suc n) (x ∷ xs) = omega (arith, length-drop n xs)
