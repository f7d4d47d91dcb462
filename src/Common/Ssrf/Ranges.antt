-- ===== src/Common/Ssrf/Ranges.antt =====
-- ssrf-guard.ts: the tests on the numbers of an address, and the ranges that the comments name.
use micro_saas_api.Base.{
  ℕ, ◌+◌, ◌*◌, ◌/◌, ◌≡◌, ◌<◌, Bool, ◌&&◌, ◌||◌, List, [], ◌∷◌, any, arith, ltb, leb, ◌==◌,
}
use micro_saas_api.Common.Ssrf.{blocked_octets}

-- A range of addresses in CIDR notation: its first address and how many addresses it has.
pub record Range : Type 0 where
  pub first : ℕ
  pub size : ℕ

abbrev pub address : ℕ → ℕ → ℕ → ℕ → ℕ
address a b c d = ((a * 256 + b) * 256 + c) * 256 + d

abbrev pub in_range : ℕ → Range → Bool
in_range x r = x / r.size == r.first / r.size

abbrev pub range : ℕ → ℕ → ℕ → ℕ → Range
range a b c size = record { first = address a b c 0; size = size }

-- 0/8, 10/8, 127/8, 169.254/16, 172.16/12, 192.168/16, 192.0.0/24, 100.64/10, 198.18/15, 224/4, 240/4;
-- the last number is how many addresses have the same prefix.
abbrev pub reserved : List Range
reserved =
    range 0 0 0 0x1000000
    ∷ (range 10 0 0 0x1000000
        ∷ (range 127 0 0 0x1000000
            ∷ (range 169 254 0 0x10000
                ∷ (range 172 16 0 0x100000
                    ∷ (range 192 168 0 0x10000
                        ∷ (range 192 0 0 0x100
                            ∷ (range 100 64 0 0x400000
                                ∷ (range 198 18 0 0x20000
                                    ∷ (range 224 0 0 0x10000000
                                        ∷ (range 240 0 0 0x10000000 ∷ []))))))))))

unfoldable pub is_reserved : ℕ → Bool
is_reserved x = any (in_range x) reserved

-- The numbers of an address that lies in a range.
module _ (a b c d : ℕ) (hb : b < 256) (hc : c < 256) (hd : d < 256) where
  prefix8 : (n : ℕ) → in_range (address a b c d) (range n 0 0 0x1000000) ≡ (a == n)
  prefix8 n = ground (arith, hb, hc, hd)

  prefix16 :
      (n m : ℕ) → m < 256 → in_range (address a b c d) (range n m 0 0x10000) ≡ (a == n && b == m)
  prefix16 n m hm = ground (arith, hb, hc, hd, hm)

  prefix24 : in_range (address a b c d) (range 192 0 0 0x100) ≡ (a == 192 && b == 0 && c == 0)
  prefix24 = ground (arith, hb, hc, hd)

  prefix12 :
      in_range (address a b c d) (range 172 16 0 0x100000) ≡ (a == 172 && leb 16 b && leb b 31)
  prefix12 = ground (arith, hb, hc, hd)

  prefix10 :
      in_range (address a b c d) (range 100 64 0 0x400000) ≡ (a == 100 && leb 64 b && leb b 127)
  prefix10 = ground (arith, hb, hc, hd)

  prefix15 :
      in_range (address a b c d) (range 198 18 0 0x20000) ≡ (a == 198 && (b == 18 || b == 19))
  prefix15 = ground (arith, hb, hc, hd)

  prefix4 :
      (n : ℕ)
      → in_range (address a b c d) (range (16 * n) 0 0 0x10000000)
        ≡ (leb (16 * n) a && ltb a (16 * n + 16))
  prefix4 n = ground (arith, hb, hc, hd)

-- The tests on the numbers of an address hold of the addresses in the reserved ranges alone.
pub blocked_octets-is_reserved :
    (a b c d : ℕ)
    → a < 256
    → b < 256
    → c < 256
    → d < 256
    → blocked_octets a b c ≡ is_reserved (address a b c d)
unfolding blocked_octets is_reserved
blocked_octets-is_reserved a b c d ha hb hc hd =
    rw
      (
        prefix8 a b c d hb hc hd 0,
        prefix8 a b c d hb hc hd 10,
        prefix8 a b c d hb hc hd 127,
        prefix16 a b c d hb hc hd 169 254 (omega arith),
        prefix12 a b c d hb hc hd,
        prefix16 a b c d hb hc hd 192 168 (omega arith),
        prefix24 a b c d hb hc hd,
        prefix10 a b c d hb hc hd,
        prefix15 a b c d hb hc hd,
        prefix4 a b c d hb hc hd 14,
        prefix4 a b c d hb hc hd 15,
      )
      (ground (arith, ha))
