-- ===== src/Common/Phone/Tests.antt =====
-- phone.util.ts on some numbers.
use micro_saas_api.Base.{◌≡◌, refl, true, none, some}
use micro_saas_api.Text.{Text, codes, digits_only, is_digit, starts_with}
use micro_saas_api.Common.Phone.{
  extract_digits, normalize_indian_mobile, is_valid_indian_mobile, parse_strict_indian_mobile,
}

leading_zero : normalize_indian_mobile (codes "098765 43210") ≡ codes "9876543210"
unfolding normalize_indian_mobile extract_digits digits_only is_digit starts_with
leading_zero = refl

-- The lenient form keeps the last ten digits of a longer number, which the strict one refuses.
too_long :
    (normalize_indian_mobile (codes "+1 9876543210987") ≡ codes "6543210987")
    × (parse_strict_indian_mobile (codes "+1 9876543210987") ≡ none)
unfolding normalize_indian_mobile extract_digits digits_only is_digit starts_with
    parse_strict_indian_mobile
too_long = (refl, refl)

abbrev phone : Text
phone = codes "+91 98765-43210"

phone_valid : is_valid_indian_mobile phone ≡ true
unfolding is_valid_indian_mobile normalize_indian_mobile extract_digits digits_only is_digit
    starts_with
phone_valid = refl

phone_strict : parse_strict_indian_mobile phone ≡ some (codes "9876543210")
unfolding parse_strict_indian_mobile extract_digits digits_only is_digit starts_with
phone_strict = refl
