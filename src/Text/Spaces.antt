-- ===== src/Text/Spaces.antt =====
-- What `trim` leaves.
use mathlib.Core.List.{reverse_aux, reverse}
use micro_saas_api.Base.{
  [], ◌∷◌, ℕ, ◌≡◌, ◌<◌, ◌⊎◌, refl, subst, inl, inr, true, false, arith, Bool-cases, Member, here,
  there, front, length,
}
use micro_saas_api.Text.{Text, is_space, drop_spaces, trim}

-- A text with more than white space.
abbrev pub IsInked : Text → Type 0
IsInked s = (c : ℕ) × (Member c s × (is_space c ≡ false))

Member-reverse_aux : {c : ℕ} (s r : Text) → Member c s ⊎ Member c r → Member c (reverse_aux s r)
Member-reverse_aux [] r (inl m) = elim m [ ]
Member-reverse_aux [] r (inr m) = m
Member-reverse_aux (x ∷ s) r (inl (here e)) = Member-reverse_aux s (x ∷ r) (inr (here e))
Member-reverse_aux (x ∷ s) r (inl (there m)) = Member-reverse_aux s (x ∷ r) (inl m)
Member-reverse_aux (x ∷ s) r (inr m) = Member-reverse_aux s (x ∷ r) (inr (there m))

Member-unreverse_aux : {c : ℕ} (s r : Text) → Member c (reverse_aux s r) → Member c s ⊎ Member c r
Member-unreverse_aux [] r m = inr m
Member-unreverse_aux (x ∷ s) r m = elim (Member-unreverse_aux s (x ∷ r) m) [
  | inl k ↦ inl (there k)
  | inr k ↦ elim (front k) [ inl e ↦ inl (here e) | inr i ↦ inr i ]
]

reverse-IsInked : (s : Text) → IsInked s → IsInked (reverse s)
reverse-IsInked s (c, (m, h)) = (c, (Member-reverse_aux s [] (inl m), h))

unreverse-IsInked : (s : Text) → IsInked (reverse s) → IsInked s
unreverse-IsInked s (c, (m, h)) = elim (Member-unreverse_aux s [] m) [
  | inl k ↦ (c, (k, h))
  | inr k ↦ elim k [ ]
]

drop_spaces-IsInked : (s : Text) → IsInked s → IsInked (drop_spaces s)
unfolding drop_spaces
drop_spaces-IsInked [] i = i
drop_spaces-IsInked (x ∷ s) (c, (m, h)) = elim (Bool-cases (is_space x)) [
  | inr n ↦ rw n (c, (m, h))
  | inl y ↦ elim (front m) [
    | inl e ↦ let k : is_space c ≡ true = subst (λ z. is_space z ≡ true) e y in cc (k, h)
    | inr i ↦ rw y (drop_spaces-IsInked s (c, (i, h)))
  ]
]

-- What is left starts with more than white space.
rest-IsInked : (s : Text) → 0 < length (drop_spaces s) → IsInked s
unfolding drop_spaces
rest-IsInked [] h = let clash : ◌≡◌ {A = ℕ} 0 1 = omega (arith, h) in cc clash
rest-IsInked (x ∷ s) h = elim (Bool-cases (is_space x)) [
  | inr n ↦ (x, (here refl, n))
  | inl y ↦
      let short : 0 < length (drop_spaces s) = ground (arith, h, y) in
      let (c, (m, k)) = rest-IsInked s short in (c, (there m, k))
]

drop_spaces-back : (s : Text) → IsInked (drop_spaces s) → IsInked s
unfolding drop_spaces
drop_spaces-back [] i = i
drop_spaces-back (x ∷ s) i = elim (Bool-cases (is_space x)) [
  | inr n ↦ subst IsInked (rw n refl) i
  | inl y ↦ let (c, (m, k)) = drop_spaces-back s (subst IsInked (rw y refl) i) in (c, (there m, k))
]

inked-length : (s : Text) → IsInked s → 0 < length s
inked-length [] (c, (m, h)) = elim m [ ]
inked-length (x ∷ s) i = omega arith

length-reverse_aux : (s r : Text) → 0 < length (reverse_aux s r) → (0 < length s) ⊎ (0 < length r)
length-reverse_aux [] r h = inr h
length-reverse_aux (x ∷ s) r h = inl (omega arith)

pub trim-length : (s : Text) → IsInked s → 0 < length (trim s)
unfolding trim
trim-length s i =
    inked-length _
      (reverse-IsInked _ (drop_spaces-IsInked _ (reverse-IsInked _ (drop_spaces-IsInked s i))))

pub trim-IsInked : (s : Text) → 0 < length (trim s) → IsInked s
unfolding trim
trim-IsInked s h = elim (length-reverse_aux (drop_spaces (reverse (drop_spaces s))) [] h) [
  | inl k ↦ drop_spaces-back s (unreverse-IsInked _ (rest-IsInked _ k))
  | inr k ↦ let clash : ◌≡◌ {A = ℕ} 0 1 = omega (arith, k) in cc clash
]
