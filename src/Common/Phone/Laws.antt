-- ===== src/Common/Phone/Laws.antt =====
-- phone.util.ts: the formats agree.
use micro_saas_api.Base.{
  ◌≡◌, refl, Bool, true, List, [], ◌∷◌, ◌++◌, some, length, filter, all, arith,
}
use micro_saas_api.Text.{Text, codes, digits_only, is_digit, starts_with}
use micro_saas_api.Common.Phone.{
  extract_digits, national, normalize_indian_mobile, is_mobile, is_valid_indian_mobile,
  to_e164_indian, strict_digits, checked, parse_strict_indian_mobile,
}

filter-all {ℓ} : {A : Type ℓ} (p : A → Bool) (xs : List A) → all p xs ≡ true → filter p xs ≡ xs
filter-all p [] h = refl
filter-all p (x ∷ xs) h = ground (arith, h, filter-all p xs)

-- A mobile number is its own digits, ten of them.
is_mobile-digits : (m : Text) → is_mobile m ≡ true → (digits_only m ≡ m) × (length m ≡ 10)
unfolding digits_only is_digit
is_mobile-digits [] h = cc
is_mobile-digits (c ∷ s) h = (ground (arith, h, filter-all is_digit s), ground (arith, h))

strict_digits_lem : (m : Text) → length m ≡ 10 → strict_digits (codes "91" ++ m) ≡ some m
unfolding starts_with
strict_digits_lem m h = ground (arith, h)

parse_strict-mobile :
    (m : Text) → is_mobile m ≡ true → parse_strict_indian_mobile (codes "+91" ++ m) ≡ some m
unfolding parse_strict_indian_mobile extract_digits digits_only is_digit
parse_strict-mobile m h =
    let (d, l) = is_mobile-digits m h in rw d (rw (strict_digits_lem m l) (rw h refl))

-- The E.164 form of a valid number is read by the strict parser as the number's ten digits.
pub parse_strict-to_e164 :
    (phone : Text)
    → is_valid_indian_mobile phone ≡ true
    → parse_strict_indian_mobile (to_e164_indian phone) ≡ some (normalize_indian_mobile phone)
unfolding to_e164_indian is_valid_indian_mobile
parse_strict-to_e164 phone h = parse_strict-mobile (normalize_indian_mobile phone) h

strict_digits-national :
    (digits m : Text)
    → checked (strict_digits digits) ≡ some m
    → (is_mobile m ≡ true) × (national digits ≡ m)
unfolding starts_with
strict_digits-national digits m h = ground (arith, h)

-- What the strict parser accepts is ten digits from 6 to 9 on, and what `normalizeIndianMobile`
-- makes of the same text.
pub parse_strict-normalize :
    (phone m : Text)
    → parse_strict_indian_mobile phone ≡ some m
    → (is_mobile m ≡ true) × (normalize_indian_mobile phone ≡ m)
unfolding parse_strict_indian_mobile normalize_indian_mobile
parse_strict-normalize phone m h = strict_digits-national (extract_digits phone) m h
