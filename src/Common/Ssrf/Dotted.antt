-- ===== src/Common/Ssrf/Dotted.antt =====
-- ssrf-guard.ts: addresses in dotted decimal.
use micro_saas_api.Base.{
  ℕ, ◌+◌, ◌/◌, ◌%◌, ◌≡◌, ◌≢◌, ◌<◌, refl, ap, ◌∙◌, [], ◌∷◌, ◌++◌, some, if◌then◌else◌, arith, All,
  ltb,
}
use micro_saas_api.Text.{Text, is_digit}
use micro_saas_api.Common.Ssrf.{dot, split, number_from, octet, blocked_split, is_blocked_ipv4}
use micro_saas_api.Common.Ssrf.Ranges.{address, is_reserved, blocked_octets-is_reserved}

-- A number below 256 in decimal.
abbrev pub decimal : ℕ → Text
decimal n =
    if ltb n 10
    then (b'0' + n) ∷ []
    else if ltb n 100
    then (b'0' + n / 10) ∷ ((b'0' + n % 10) ∷ [])
    else (b'0' + n / 100) ∷ ((b'0' + n / 10 % 10) ∷ ((b'0' + n % 10) ∷ []))

unfoldable pub dotted : ℕ → ℕ → ℕ → ℕ → Text
dotted a b c d = decimal a ++ dot ∷ (decimal b ++ dot ∷ (decimal c ++ dot ∷ decimal d))

octet-decimal : (n : ℕ) → n < 256 → octet (decimal n) ≡ some n
unfolding number_from is_digit
octet-decimal n h = ground (arith, h)

split-append : (s rest : Text) → All (λ c. c ≢ dot) s → split (s ++ dot ∷ rest) ≡ s ∷ split rest
unfolding split
split-append [] rest h = refl
split-append (c ∷ s) rest (k, h) = ground (arith, k, split-append s rest h)

split-whole : (s : Text) → All (λ c. c ≢ dot) s → split s ≡ s ∷ []
unfolding split
split-whole [] h = refl
split-whole (c ∷ s) (k, h) = ground (arith, k, split-whole s h)

decimal-dot : (n : ℕ) → n < 256 → All (λ c. c ≢ dot) (decimal n)
decimal-dot n h = ground (arith, h)

split-dotted :
    (a b c d : ℕ)
    → a < 256
    → b < 256
    → c < 256
    → d < 256
    → split (dotted a b c d) ≡ decimal a ∷ (decimal b ∷ (decimal c ∷ (decimal d ∷ [])))
unfolding dotted
split-dotted a b c d ha hb hc hd =
    split-append (decimal a) (decimal b ++ dot ∷ (decimal c ++ dot ∷ decimal d)) (decimal-dot a ha)
    ∙ ap (λ r. decimal a ∷ r)
        (split-append (decimal b) (decimal c ++ dot ∷ decimal d) (decimal-dot b hb)
          ∙ ap (λ r. decimal b ∷ r)
              (split-append (decimal c) (decimal d) (decimal-dot c hc)
                ∙ ap (λ r. decimal c ∷ r) (split-whole (decimal d) (decimal-dot d hd))))

-- An address in dotted decimal is blocked when it lies in one of the reserved ranges, and only then.
pub is_blocked_ipv4-dotted :
    (a b c d : ℕ)
    → a < 256
    → b < 256
    → c < 256
    → d < 256
    → is_blocked_ipv4 (dotted a b c d) ≡ is_reserved (address a b c d)
unfolding is_blocked_ipv4
is_blocked_ipv4-dotted a b c d ha hb hc hd =
    ap blocked_split (split-dotted a b c d ha hb hc hd)
    ∙ rw (octet-decimal a ha, octet-decimal b hb, octet-decimal c hc, octet-decimal d hd)
        (blocked_octets-is_reserved a b c d ha hb hc hd)
