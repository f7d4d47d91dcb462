-- ===== src/Common/Phone.antt =====
-- common/phone.util.ts: Indian mobile numbers, of ten digits from 6 to 9 on.
pub mod Laws
pub mod Tests
use micro_saas_api.Base.{
  ◌+◌, ◌-◌, Bool, false, not, ◌&&◌, [], ◌∷◌, ◌++◌, Option, none, some, if◌then◌else◌, length, all,
  ltb, leb, ◌==◌,
}
use micro_saas_api.Text.{Text, codes, digits_only, is_digit, starts_with, drop}

unfoldable pub extract_digits : Text → Text
unfolding digits_only
extract_digits phone = digits_only phone

abbrev pub national : Text → Text
national digits =
    if length digits == 12 && starts_with digits (codes "91")
    then drop 2 digits
    else if length digits == 11 && starts_with digits (codes "0")
    then drop 1 digits
    else if ltb 10 (length digits)
    then drop (length digits - 10) digits
    else digits

unfoldable pub normalize_indian_mobile : Text → Text
unfolding extract_digits starts_with
normalize_indian_mobile phone = national (extract_digits phone)

-- `/^[6-9]\d{9}$/`
abbrev pub is_mobile : Text → Bool
is_mobile [] = false
is_mobile (c ∷ s) = leb b'6' c && leb c b'9' && (length s == 9) && all is_digit s

unfoldable pub is_valid_indian_mobile : Text → Bool
unfolding normalize_indian_mobile is_digit
is_valid_indian_mobile phone = is_mobile (normalize_indian_mobile phone)

unfoldable pub to_e164_indian : Text → Text
unfolding normalize_indian_mobile
to_e164_indian phone = codes "+91" ++ normalize_indian_mobile phone

abbrev pub strict_digits : Text → Option Text
strict_digits digits =
    if length digits == 10
    then some digits
    else if length digits == 12 && starts_with digits (codes "91")
    then some (drop 2 digits)
    else if length digits == 11 && starts_with digits (codes "0")
    then some (drop 1 digits)
    else none

abbrev pub checked : Option Text → Option Text
checked none = none
checked (some mobile) = if not (is_mobile mobile) then none else some mobile

unfoldable pub parse_strict_indian_mobile : Text → Option Text
unfolding extract_digits starts_with is_digit
parse_strict_indian_mobile phone = checked (strict_digits (extract_digits phone))
