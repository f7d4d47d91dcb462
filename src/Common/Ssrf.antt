-- ===== src/Common/Ssrf.antt =====
-- common/net/ssrf-guard.ts: the addresses that outgoing requests may not reach. Node's `isIP` and
-- its parser of URLs are parameters; an address that `isIP` calls a version 4 address is digits and
-- dots, so that `Number` is read on digits alone.
pub mod Ranges
pub mod Dotted
pub mod Guard
pub mod Tests
use micro_saas_api.Base.{
  ℕ, ◌+◌, ◌-◌, ◌*◌, ◌⊎◌, inl, inr, Bool, true, not, ◌&&◌, ◌||◌, List, [], ◌∷◌, Option, none, some,
  if◌then◌else◌, find, leb, ◌==◌, Result, ok, err,
}
use mathlib.Core.List.{reverse}
use micro_saas_api.Text.{Text, codes, is_digit, same_text, starts_with, to_lower, drop}

abbrev pub dot : ℕ
dot = b'.'

abbrev pub cons_first : ℕ → List Text → List Text
cons_first c [] = (c ∷ []) ∷ []
cons_first c (p ∷ ps) = (c ∷ p) ∷ ps

-- `ip.split('.')`
unfoldable pub split : Text → List Text
split [] = [] ∷ []
split (c ∷ s) = let rest = split s in if c == dot then [] ∷ rest else cons_first c rest

-- `Number(p)`: the empty text is 0, and what is not digits is no integer.
unfoldable pub number_from : ℕ → Text → Option ℕ
number_from n [] = some n
number_from n (c ∷ s) =
    let rest = number_from (10 * n + (c - b'0')) s in if is_digit c then rest else none

abbrev pub number : Text → Option ℕ
number p = number_from 0 p

-- The tests on the first three numbers of an address.
unfoldable pub blocked_octets : ℕ → ℕ → ℕ → Bool
blocked_octets a b c =
    if a == 0
    then true
    else if a == 10
    then true
    else if a == 127
    then true
    else if a == 169 && b == 254
    then true
    else if a == 172 && leb 16 b && leb b 31
    then true
    else if a == 192 && b == 168
    then true
    else if a == 192 && b == 0 && c == 0
    then true
    else if a == 100 && leb 64 b && leb b 127
    then true
    else if a == 198 && (b == 18 || b == 19)
    then true
    else leb 224 a

-- The numbers of the parts, where all are integers from 0 to 255.
abbrev pub octet : Text → Option ℕ
octet p = elim (number p) [ none ↦ none | some n ↦ if leb n 255 then some n else none ]

abbrev pub blocked_parts : Option ℕ → Option ℕ → Option ℕ → Option ℕ → Bool
blocked_parts (some a) (some b) (some c) (some d) = blocked_octets a b c
blocked_parts _ _ _ _ = true

abbrev pub blocked_split : List Text → Bool
blocked_split (p ∷ (q ∷ (r ∷ (s ∷ [])))) = blocked_parts (octet p) (octet q) (octet r) (octet s)
blocked_split _ = true

unfoldable pub is_blocked_ipv4 : Text → Bool
unfolding split number_from blocked_octets
is_blocked_ipv4 ip = blocked_split (split ip)

module _ (is_ip : Text → ℕ) where
  abbrev pub is_blocked_ipv6 : Text → Bool
  is_blocked_ipv6 s =
      if starts_with s (codes "::ffff:") && (is_ip (drop 7 s) == 4)
      then is_blocked_ipv4 (drop 7 s)
      else same_text s (codes "::1")
        || same_text s (codes "::")
        || starts_with s (codes "fc")
        || starts_with s (codes "fd")
        || starts_with s (codes "fe8")
        || starts_with s (codes "fe9")
        || starts_with s (codes "fea")
        || starts_with s (codes "feb")

  unfoldable pub is_blocked_ip : Text → Bool
  unfolding is_blocked_ipv4 same_text starts_with to_lower
  is_blocked_ip ip =
      if is_ip ip == 4
      then is_blocked_ipv4 ip
      else if is_ip ip == 6
      then is_blocked_ipv6 (to_lower ip)
      else true

-- `new URL(rawUrl)`, as far as the guard reads it.
pub record Url : Type 0 where
  pub protocol : Text
  pub hostname : Text

pub data Blocked : Type 0 where
  invalid_url unsupported_protocol local_host private_address : Blocked

unfoldable pub ends_with : Text → Text → Bool
unfolding starts_with
ends_with s p = starts_with (reverse s) (reverse p)

abbrev pub drop_char : ℕ → Text → Text
drop_char b [] = []
drop_char b (c ∷ s) = if c == b then s else c ∷ s

-- `.replace(/^\[|\]$/g, '')`
abbrev pub drop_brackets : Text → Text
drop_brackets s = reverse (drop_char b']' (reverse (drop_char b'[' s)))

unfoldable pub host_of : Url → Text
unfolding to_lower
host_of url = drop_brackets (to_lower url.hostname)

unfoldable pub is_local_host : Text → Bool
unfolding same_text ends_with
is_local_host host =
    same_text host (codes "localhost")
    || ends_with host (codes ".localhost")
    || ends_with host (codes ".local")
    || ends_with host (codes ".internal")
    || same_text host (codes "0.0.0.0")

module _ (is_ip : Text → ℕ) where
  abbrev pub check_url : Url → Result Blocked Url
  check_url url =
      if not (same_text url.protocol (codes "http:"))
        && not (same_text url.protocol (codes "https:"))
      then err unsupported_protocol
      else if is_local_host (host_of url)
      then err local_host
      else if not (is_ip (host_of url) == 0) && is_blocked_ip is_ip (host_of url)
      then err private_address
      else ok url

  unfoldable pub assert_allowed_url : (Text → Option Url) → Text → Result Blocked Url
  unfolding same_text
  assert_allowed_url parse_url raw_url = elim (parse_url raw_url) [
    | none ↦ err invalid_url
    | some url ↦ check_url url
  ]

  -- What `dnsLookup` answers, and what the guard passes on: the addresses, the error, or the address
  -- that is blocked.
  unfoldable pub guarded_lookup {ℓ} :
      {E : Type ℓ} → Result E (List Text) → Result (E ⊎ Text) (List Text)
  guarded_lookup (err e) = err (inl e)
  guarded_lookup (ok resolved) = elim (find (is_blocked_ip is_ip) resolved) [
    | none ↦ ok resolved
    | some blocked ↦ err (inr blocked)
  ]
