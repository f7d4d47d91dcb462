-- ===== src/Text/Searches.antt =====
-- Where `startsWith`, `endsWith` and `includes` find a text.
use micro_saas_api.Base.{[], ◌∷◌, ◌++◌, ap, ◌≡◌, refl, inl, inr, true, arith, Bool-cases}
use micro_saas_api.Text.{Text, same_text, starts_with, ends_with, includes}
use micro_saas_api.Text.Laws.{same_text_sound, same_text_refl}

abbrev pub StartsWith : Text → Text → Type 0
StartsWith s p = (rest : Text) × (s ≡ p ++ rest)

abbrev pub EndsWith : Text → Text → Type 0
EndsWith s p = (first : Text) × (s ≡ first ++ p)

abbrev pub Includes : Text → Text → Type 0
Includes s p = (first : Text) × ((rest : Text) × (s ≡ first ++ (p ++ rest)))

pub starts_with_sound : (s p : Text) → starts_with s p ≡ true → StartsWith s p
unfolding starts_with
starts_with_sound s [] h = (s, refl)
starts_with_sound [] (p ∷ ps) h = cc
starts_with_sound (c ∷ s) (p ∷ ps) h =
    let same : c ≡ p = ground (arith, h) in
    let more : starts_with s ps ≡ true = ground (arith, h) in
    let (rest, e) = starts_with_sound s ps more in (rest, cc (same, e))

pub starts_with-append : (p rest : Text) → starts_with (p ++ rest) p ≡ true
unfolding starts_with
starts_with-append [] rest = refl
starts_with-append (c ∷ p) rest = ground (arith, starts_with-append p rest)

pub ends_with_sound : (s p : Text) → ends_with s p ≡ true → EndsWith s p
unfolding ends_with
ends_with_sound [] p h = ([], same_text_sound [] p h)
ends_with_sound (c ∷ s) p h = elim (Bool-cases (same_text (c ∷ s) p)) [
  | inl y ↦ ([], same_text_sound (c ∷ s) p y)
  | inr n ↦
      let more : ends_with s p ≡ true = ground (arith, h, n) in
      let (first, e) = ends_with_sound s p more in (c ∷ first, ap (λ x. c ∷ x) e)
]

pub ends_with_self : (p : Text) → ends_with p p ≡ true
unfolding ends_with same_text
ends_with_self [] = refl
ends_with_self (c ∷ p) = rw (same_text_refl (c ∷ p)) refl

pub ends_with-append : (first p : Text) → ends_with (first ++ p) p ≡ true
unfolding ends_with
ends_with-append [] p = ends_with_self p
ends_with-append (c ∷ first) p = ground (arith, ends_with-append first p)

pub includes_sound : (s p : Text) → includes s p ≡ true → Includes s p
unfolding includes
includes_sound [] p h = let (rest, e) = starts_with_sound [] p h in ([], (rest, e))
includes_sound (c ∷ s) p h = elim (Bool-cases (starts_with (c ∷ s) p)) [
  | inl y ↦ let (rest, e) = starts_with_sound (c ∷ s) p y in ([], (rest, e))
  | inr n ↦
      let more : includes s p ≡ true = ground (arith, h, n) in
      let (first, (rest, e)) = includes_sound s p more in (c ∷ first, (rest, ap (λ x. c ∷ x) e))
]

pub includes-start : (s p : Text) → starts_with s p ≡ true → includes s p ≡ true
unfolding includes
includes-start [] p h = h
includes-start (c ∷ s) p h = ground (arith, h)

pub includes-append : (first p rest : Text) → includes (first ++ (p ++ rest)) p ≡ true
unfolding includes
includes-append [] p rest = includes-start (p ++ rest) p (starts_with-append p rest)
includes-append (c ∷ first) p rest = ground (arith, includes-append first p rest)
