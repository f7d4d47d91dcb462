-- ===== src/Common/Ssrf/Guard.antt =====
-- ssrf-guard.ts: what a request can reach.
use micro_saas_api.Base.{
  ℕ, ◌≡◌, ◌≢◌, ◌<◌, inl, inr, sym, subst, ◌∙◌, Bool, false, not, ◌&&◌, List, [], ◌∷◌, ◌++◌, Option,
  none, find, Member, Bool-cases, Option-cases, arith, All, All-Member, ◌==◌, Result, ok, err,
}
use micro_saas_api.Text.{Text, codes, same_text, starts_with, to_lower}
use micro_saas_api.Common.Ssrf.{
  is_blocked_ip, Url, host_of, check_url, assert_allowed_url, guarded_lookup,
}
use micro_saas_api.Common.Ssrf.Ranges.{address, is_reserved}
use micro_saas_api.Common.Ssrf.Dotted.{dotted, is_blocked_ipv4-dotted}

find-none {ℓ} :
    {A : Type ℓ} (p : A → Bool) (xs : List A) → find p xs ≡ none → All (λ x. p x ≡ false) xs
find-none p [] h = tt
find-none p (x ∷ xs) h = elim (Bool-cases (p x)) [
  | inl e ↦ absurd (ground (arith, h, e))
  | inr e ↦ (e, find-none p xs (ground (arith, h, e)))
]

module _ (is_ip : Text → ℕ) where
  blocked_dotted :
      (a b c d : ℕ)
      → a < 256
      → b < 256
      → c < 256
      → d < 256
      → is_ip (dotted a b c d) ≡ 4
      → is_blocked_ip is_ip (dotted a b c d) ≡ is_reserved (address a b c d)
  unfolding is_blocked_ip
  blocked_dotted a b c d ha hb hc hd v = rw v (is_blocked_ipv4-dotted a b c d ha hb hc hd)

  check_url-ok :
      (url u : Url)
      → check_url is_ip url ≡ ok u
      → (url ≡ u) × ((not (is_ip (host_of url) == 0) && is_blocked_ip is_ip (host_of url)) ≡ false)
  check_url-ok url u h = ground (arith, h)

  -- A URL that the guard lets through, with an address in dotted decimal for a host, does not point
  -- at a reserved range, where `isIP` calls the host a version 4 address.
  pub assert_allowed_url-dotted :
      (parse_url : Text → Option Url) (raw_url : Text) (u : Url) (a b c d : ℕ)
      → a < 256
      → b < 256
      → c < 256
      → d < 256
      → assert_allowed_url is_ip parse_url raw_url ≡ ok u
      → host_of u ≡ dotted a b c d
      → is_ip (dotted a b c d) ≡ 4
      → is_reserved (address a b c d) ≡ false
  unfolding assert_allowed_url
  assert_allowed_url-dotted parse_url raw_url u a b c d ha hb hc hd h e v =
      elim (Option-cases (parse_url raw_url)) [
        | inl n ↦ absurd (ground (arith, h, n))
        | inr (url, p) ↦
            let (same, k) = check_url-ok url u (rw (assert_allowed_url, p) at h) in
            let open_host : is_blocked_ip is_ip (dotted a b c d) ≡ false =
              ground (arith, k, v, e, same) in
            sym (blocked_dotted a b c d ha hb hc hd v) ∙ open_host
      ]

  guarded_lookup-ok {ℓ} :
      {E : Type ℓ} (answer : Result E (List Text)) (addresses : List Text)
      → guarded_lookup is_ip answer ≡ ok addresses
      → All (λ x. is_blocked_ip is_ip x ≡ false) addresses
  unfolding guarded_lookup
  guarded_lookup-ok (err e) addresses h = cc
  guarded_lookup-ok (ok resolved) addresses h =
      elim (Option-cases (find (is_blocked_ip is_ip) resolved)) [
        | inl n ↦
            let same : resolved ≡ addresses = ground (arith, h, n) in
            subst (All (λ x. is_blocked_ip is_ip x ≡ false)) same
              (find-none (is_blocked_ip is_ip) resolved n)
        | inr (x, f) ↦ absurd (ground (arith, h, f))
      ]

  -- Of the addresses that a lookup passes on, none in dotted decimal lies in a reserved range, where
  -- `isIP` calls it a version 4 address.
  pub guarded_lookup-dotted {ℓ} :
      {E : Type ℓ} (answer : Result E (List Text)) (addresses : List Text) (a b c d : ℕ)
      → a < 256
      → b < 256
      → c < 256
      → d < 256
      → guarded_lookup is_ip answer ≡ ok addresses
      → Member (dotted a b c d) addresses
      → is_ip (dotted a b c d) ≡ 4
      → is_reserved (address a b c d) ≡ false
  unfolding guarded_lookup
  guarded_lookup-dotted answer addresses a b c d ha hb hc hd h m v =
      sym (blocked_dotted a b c d ha hb hc hd v)
      ∙ All-Member (λ x. is_blocked_ip is_ip x ≡ false) addresses
          (guarded_lookup-ok answer addresses h) m

  -- A text `::ffff:` and a rest, which `isIP` calls a version 6 address while it does not call the
  -- rest a version 4 address, is not blocked.
  pub mapped_hex_passes :
      (rest : Text)
      → is_ip (codes "::ffff:" ++ rest) ≡ 6
      → is_ip (to_lower rest) ≢ 4
      → is_blocked_ip is_ip (codes "::ffff:" ++ rest) ≡ false
  unfolding is_blocked_ip to_lower same_text starts_with
  mapped_hex_passes rest v w = ground (arith, v, w)
