-- ===== src/Text.antt =====
-- Text as the sequence of its UTF-16 code units, with the methods of JavaScript strings that the
-- services use: `trim`, `includes`, `startsWith`, `endsWith`, `slice`, `replace(/\D/g, '')`, `toLowerCase`.
-- `to_lower` folds the ASCII letters only.
pub mod Laws
pub mod Searches
pub mod Spaces
use Prim.Native.Char.{code}
use micro_saas_api.Base.{
  ℕ, zero, suc, ◌+◌, Bool, true, false, ◌&&◌, ◌||◌, List, [], ◌∷◌, map, Option, none, some, String,
  leb, ◌==◌, if◌then◌else◌, filter,
}
use mathlib.Core.List.{reverse}

abbrev pub Text : Type 0
Text = List ℕ

-- A literal.
abbrev pub codes : String → Text
codes String.[] = []
codes (String.◌∷◌ c s) = code c ∷ codes s

-- `a === b` on strings.
unfoldable pub same_text : Text → Text → Bool
same_text [] [] = true
same_text (a ∷ s) (b ∷ t) = a == b && same_text s t
same_text _ _ = false

-- White space and line ends, as `trim` and `\s` have it.
unfoldable pub is_space : ℕ → Bool
is_space c =
    leb 9 c && leb c 13
    || c == 32
    || c == 160
    || c == 0x1680
    || leb 0x2000 c && leb c 0x200a
    || c == 0x2028
    || c == 0x2029
    || c == 0x202f
    || c == 0x205f
    || c == 0x3000
    || c == 0xfeff

unfoldable pub is_digit : ℕ → Bool
is_digit c = leb b'0' c && leb c b'9'

unfoldable pub drop_spaces : Text → Text
unfolding is_space
drop_spaces [] = []
drop_spaces (c ∷ s) = let rest = drop_spaces s in if is_space c then rest else c ∷ s

unfoldable pub trim : Text → Text
unfolding drop_spaces
trim s = reverse (drop_spaces (reverse (drop_spaces s)))

-- `s.replace(/\D/g, '')`
unfoldable pub digits_only : Text → Text
unfolding is_digit
digits_only s = filter is_digit s

unfoldable pub to_lower : Text → Text
to_lower s = map (λ c. if leb b'A' c && leb c b'Z' then c + 32 else c) s

-- `s.slice(0, n)` and `s.slice(n)`, on texts and arrays.
abbrev pub take {ℓ} : {A : Type ℓ} → ℕ → List A → List A
take zero s = []
take (suc n) [] = []
take (suc n) (c ∷ s) = c ∷ take n s

abbrev pub drop {ℓ} : {A : Type ℓ} → ℕ → List A → List A
drop zero s = s
drop (suc n) [] = []
drop (suc n) (c ∷ s) = drop n s

unfoldable pub starts_with : Text → Text → Bool
starts_with s [] = true
starts_with [] (p ∷ ps) = false
starts_with (c ∷ s) (p ∷ ps) = c == p && starts_with s ps

unfoldable pub includes : Text → Text → Bool
unfolding starts_with
includes [] p = starts_with [] p
includes (c ∷ s) p = starts_with (c ∷ s) p || includes s p

unfoldable pub ends_with : Text → Text → Bool
unfolding same_text
ends_with [] p = same_text [] p
ends_with (c ∷ s) p = same_text (c ∷ s) p || ends_with s p

-- `s || null`: the empty text counts as absent.
abbrev pub nonempty : Text → Option Text
nonempty [] = none
nonempty (c ∷ s) = some (c ∷ s)

-- `a || b`, where `a` may be absent or empty.
abbrev pub or_else : Option Text → Option Text → Option Text
or_else none b = b
or_else (some []) b = b
or_else (some (c ∷ s)) b = some (c ∷ s)

-- `s?.trim() || b`
abbrev pub trimmed_or : Option Text → Option Text → Option Text
trimmed_or none b = b
trimmed_or (some s) b = or_else (some (trim s)) b
