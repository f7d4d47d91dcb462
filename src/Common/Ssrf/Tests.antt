-- ===== src/Common/Ssrf/Tests.antt =====
-- ssrf-guard.ts with a small `isIP` and a parser of one URL.
use micro_saas_api.Base.{
  ℕ, ◌≡◌, ◌≢◌, refl, true, false, [], ◌∷◌, Option, some, if◌then◌else◌, length, any, Member, here,
  arith, ◌==◌, ok,
}
use micro_saas_api.Text.{Text, codes, same_text, starts_with, to_lower, is_digit}
use micro_saas_api.Common.Ssrf.{
  split, is_blocked_ip, Url, host_of, is_local_host, ends_with, assert_allowed_url, guarded_lookup,
  is_blocked_ipv4, number_from, blocked_octets,
}
use micro_saas_api.Common.Ssrf.Ranges.{address, is_reserved}
use micro_saas_api.Common.Ssrf.Dotted.{dotted}
use micro_saas_api.Common.Ssrf.Guard.{assert_allowed_url-dotted}

abbrev is_ip : Text → ℕ
unfolding split
is_ip s = if length (split s) == 4 then 4 else if any (λ c. c == b':') s then 6 else 0

abbrev public_url : Url
public_url = record { protocol = codes "https:"; hostname = codes "93.184.216.34" }

abbrev parse_url : Text → Option Url
parse_url _ = some public_url

public_allowed : assert_allowed_url is_ip parse_url (codes "https://93.184.216.34/") ≡ ok public_url
unfolding assert_allowed_url is_blocked_ip is_blocked_ipv4 number_from blocked_octets split host_of
    to_lower is_local_host ends_with starts_with same_text is_ip is_digit
public_allowed = refl

metadata_blocked : is_blocked_ip is_ip (codes "169.254.169.254") ≡ true
unfolding is_blocked_ip is_blocked_ipv4 number_from blocked_octets split is_ip is_digit
metadata_blocked = refl

lookup_passes :
    guarded_lookup is_ip {E = Unit {0}} (ok (codes "93.184.216.34" ∷ []))
    ≡ ok (codes "93.184.216.34" ∷ [])
unfolding guarded_lookup is_blocked_ip is_blocked_ipv4 number_from blocked_octets split is_ip
    is_digit
lookup_passes = refl

four : is_ip (dotted 93 184 216 34) ≡ 4
unfolding is_ip split dotted
four = refl

host : host_of public_url ≡ dotted 93 184 216 34
unfolding host_of to_lower dotted
host = refl

first_listed : Member (dotted 93 184 216 34) (codes "93.184.216.34" ∷ [])
unfolding dotted
first_listed = here refl

assert_allowed_url-dotted_example : is_reserved (address 93 184 216 34) ≡ false
assert_allowed_url-dotted_example =
    assert_allowed_url-dotted is_ip parse_url (codes "https://93.184.216.34/") public_url 93 184 216
      34 (omega arith) (omega arith) (omega arith) (omega arith) public_allowed host four

six : is_ip (codes "::ffff:7f00:1") ≡ 6
unfolding is_ip split
six = refl

no_address : is_ip (to_lower (codes "7f00:1")) ≢ 4
unfolding is_ip split to_lower
no_address h = omega (arith, h)
