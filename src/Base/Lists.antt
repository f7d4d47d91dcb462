-- ===== src/Base/Lists.antt =====
-- Lists measured by native numbers, predicates on lists, and tables of rows with a key.
use Prim.Native.Nat.{ℕ, suc, ◌+◌, ◌≤◌}
use mathlib.Core.Path.{◌≡◌, refl, sym, subst}
use mathlib.Core.Logic.{◌⊎◌, inl, inr}
use mathlib.Core.Bool.{Bool, true, false, ◌&&◌, ◌||◌}
use mathlib.Core.List.{List, [], ◌∷◌, ◌++◌}
use mathlib.Core.Option.{Option, none, some}
use native.Mathlib.Omega.{arith}
use micro_saas_api.Base.Tests.{if◌then◌else◌, Bool-cases}

module _ {ℓ} {A : Type ℓ} where
  abbrev pub length : List A → ℕ
  length [] = 0
  length (x ∷ xs) = suc (length xs)

  pub length-append : (xs ys : List A) → length (xs ++ ys) ≡ length xs + length ys
  length-append [] ys = omega arith
  length-append (x ∷ xs) ys = omega (arith, length-append xs ys)

  -- `xs.some(p)`, `xs.every(p)`, `xs.find(p)`, `xs.filter(p)`
  abbrev pub any : (A → Bool) → List A → Bool
  any p [] = false
  any p (x ∷ xs) = p x || any p xs

  abbrev pub all : (A → Bool) → List A → Bool
  all p [] = true
  all p (x ∷ xs) = p x && all p xs

  abbrev pub find : (A → Bool) → List A → Option A
  find p [] = none
  find p (x ∷ xs) = if p x then some x else find p xs

  abbrev pub filter : (A → Bool) → List A → List A
  filter p [] = []
  filter p (x ∷ xs) = let rest = filter p xs in if p x then x ∷ rest else rest

  abbrev pub sum_by : (A → ℕ) → List A → ℕ
  sum_by g [] = 0
  sum_by g (x ∷ xs) = g x + sum_by g xs

module _ {ℓ κ} {A : Type ℓ} where
  abbrev pub All : (A → Type κ) → List A → Type κ
  All P [] = Unit
  All P (x ∷ xs) = P x × All P xs

module _ {ℓ} {A : Type ℓ} where
  pub data Member (a : A) : List A → Type ℓ where
    here : {x : A} {xs : List A} → x ≡ a → Member a (x ∷ xs)
    there : {x : A} {xs : List A} → Member a xs → Member a (x ∷ xs)

  pub All-Member {κ} : (P : A → Type κ) {a : A} (xs : List A) → All P xs → Member a xs → P a
  All-Member P [] h m = elim m [ ]
  All-Member P (x ∷ xs) (h, hs) (here e) = subst P e h
  All-Member P (x ∷ xs) (h, hs) (there m) = All-Member P xs hs m

  pub front : {x a : A} {xs : List A} → Member a (x ∷ xs) → (x ≡ a) ⊎ Member a xs
  front (here same) = inl same
  front (there m) = inr m

  pub Member-All {κ} : (P : A → Type κ) (xs : List A) → ((a : A) → Member a xs → P a) → All P xs
  Member-All P [] h = tt
  Member-All P (x ∷ xs) h = (h x (here refl), Member-All P xs (λ a m. h a (there m)))

  pub Member-filter :
      (p : A → Bool) (xs : List A) {a : A} → Member a xs → p a ≡ true → Member a (filter p xs)
  Member-filter p [] m h = elim m [ ]
  Member-filter p (x ∷ xs) (here same) h = rw (subst (λ y. p y ≡ true) (sym same) h) (here same)
  Member-filter p (x ∷ xs) (there m) h = elim (Bool-cases (p x)) [
    | inl y ↦ rw y (there (Member-filter p xs m h))
    | inr n ↦ rw n (Member-filter p xs m h)
  ]

  pub Member-unfilter :
      (p : A → Bool) (xs : List A) {a : A} → Member a (filter p xs) → Member a xs × (p a ≡ true)
  Member-unfilter p [] m = elim m [ ]
  Member-unfilter p (x ∷ xs) {a} m = elim (Bool-cases (p x)) [
    | inl y ↦ elim (front (rw y at m)) [
      | inl same ↦ (here same, subst (λ z. p z ≡ true) same y)
      | inr n ↦ let (i, h) = Member-unfilter p xs n in (there i, h)
    ]
    | inr n ↦ let (i, h) = Member-unfilter p xs (rw n at m) in (there i, h)
  ]

  pub any-eq-false : (p : A → Bool) (xs : List A) → any p xs ≡ false → All (λ x. p x ≡ false) xs
  any-eq-false p [] h = tt
  any-eq-false p (x ∷ xs) h = ground (arith, any-eq-false p xs)

  pub length-filter-le : (p : A → Bool) (xs : List A) → length (filter p xs) ≤ length xs
  length-filter-le p [] = omega arith
  length-filter-le p (x ∷ xs) = ground (arith, length-filter-le p xs)

  pub All-filter {κ} :
      (P : A → Type κ) (p : A → Bool) (xs : List A) → All P xs → All P (filter p xs)
  All-filter P p [] h = tt
  All-filter P p (x ∷ xs) (h, hs) = elim (Bool-cases (p x)) [
    | inl e ↦ rw e (h, All-filter P p xs hs)
    | inr e ↦ rw e (All-filter P p xs hs)
  ]

  pub All-append {κ} : (P : A → Type κ) (xs ys : List A) → All P xs → All P ys → All P (xs ++ ys)
  All-append P [] ys h k = k
  All-append P (x ∷ xs) ys h k = (h.0, All-append P xs ys h.1 k)

  pub All-map {κ ν} :
      (P : A → Type κ) (Q : A → Type ν) (xs : List A) → ((x : A) → P x → Q x) → All P xs → All Q xs
  All-map P Q [] f h = tt
  All-map P Q (x ∷ xs) f h = (f x h.0, All-map P Q xs f h.1)

  pub sum_by-append : (g : A → ℕ) (xs ys : List A) → sum_by g (xs ++ ys) ≡ sum_by g xs + sum_by g ys
  sum_by-append g [] ys = omega arith
  sum_by-append g (x ∷ xs) ys = omega (arith, sum_by-append g xs ys)

  pub length-filter-none :
      (p : A → Bool) (xs : List A) → All (λ x. p x ≡ false) xs → length (filter p xs) ≡ 0
  length-filter-none p [] h = refl
  length-filter-none p (x ∷ xs) (h, hs) = rw h (length-filter-none p xs hs)

  -- A last element that does not count, and one that may.
  pub length-filter-last :
      (p : A → Bool) (xs : List A) (x : A)
      → p x ≡ false
      → length (filter p (xs ++ x ∷ [])) ≡ length (filter p xs)
  length-filter-last p [] x h = rw h refl
  length-filter-last p (y ∷ ys) x h = ground (arith, length-filter-last p ys x h)

  pub length-filter-last-le :
      (p : A → Bool) (xs : List A) (x : A)
      → length (filter p (xs ++ x ∷ [])) ≤ 1 + length (filter p xs)
  length-filter-last-le p [] x = ground arith
  length-filter-last-le p (y ∷ ys) x = ground (arith, length-filter-last-le p ys x)
