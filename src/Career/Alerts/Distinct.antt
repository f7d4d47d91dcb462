-- ===== src/Career/Alerts/Distinct.antt =====
-- career-alert-state.util.ts: lists of jobs without repetition.
use micro_saas_api.Base.{
  ℕ, zero, suc, ◌+◌, ◌-◌, ◌≡◌, ◌≢◌, ◌≤◌, inl, inr, refl, ap, ◌∙◌, Bool, false, ◌||◌, List, [], ◌∷◌,
  ◌++◌, length, filter, Bool-cases, arith, All, length-append,
}
use micro_saas_api.Base.{All-append, All-filter}
use micro_saas_api.Database.Rows.{IsKey}
use micro_saas_api.Text.{take, drop}
use micro_saas_api.Text.Laws.{drop-add, length-drop}
use micro_saas_api.Career.Alerts.{has, unique, keep_last}

abbrev pub IsDistinct : List ℕ → Type 0
IsDistinct js = IsKey (λ j. j) js

has-append : (j : ℕ) (xs ys : List ℕ) → has j (xs ++ ys) ≡ (has j xs || has j ys)
has-append j [] ys = refl
has-append j (x ∷ xs) ys = ground (arith, has-append j xs ys)

-- Distinct numbers that were not seen all stay.
pub unique-IsDistinct :
    (seen js : List ℕ) → IsDistinct js → All (λ j. has j seen ≡ false) js → unique seen js ≡ js
unfolding unique
unique-IsDistinct seen [] d h = refl
unique-IsDistinct seen (j ∷ js) (ne, d) (n, h) =
    rw n (ap (λ r. j ∷ r) (unique-IsDistinct (j ∷ seen) js d (unseen js ne h)))
  where
    unseen :
        (ks : List ℕ)
        → All (λ k. k ≢ j) ks
        → All (λ k. has k seen ≡ false) ks
        → All (λ k. has k (j ∷ seen) ≡ false) ks
    unseen [] a b = tt
    unseen (k ∷ ks) (a, others_hold) (b, bs) = (ground (arith, a, b), unseen ks others_hold bs)

pub IsDistinct-append :
    (xs ys : List ℕ)
    → IsDistinct xs
    → IsDistinct ys
    → All (λ j. has j xs ≡ false) ys
    → IsDistinct (xs ++ ys)
IsDistinct-append [] ys d e h = e
IsDistinct-append (x ∷ xs) ys (n, d) e h =
    (All-append (λ j. j ≢ x) xs ys n (others ys h), IsDistinct-append xs ys d e (rest ys h))
  where
    others : (ks : List ℕ) → All (λ j. has j (x ∷ xs) ≡ false) ks → All (λ j. j ≢ x) ks
    others [] a = tt
    others (k ∷ ks) (a, others_hold) = ((λ s. ground (arith, a, s)), others ks others_hold)

    rest : (ks : List ℕ) → All (λ j. has j (x ∷ xs) ≡ false) ks → All (λ j. has j xs ≡ false) ks
    rest [] a = tt
    rest (k ∷ ks) (a, others_hold) = (ground (arith, a), rest ks others_hold)

pub IsDistinct-drop : (n : ℕ) (xs : List ℕ) → IsDistinct xs → IsDistinct (drop n xs)
IsDistinct-drop zero xs d = d
IsDistinct-drop (suc n) [] d = tt
IsDistinct-drop (suc n) (x ∷ xs) (h, d) = IsDistinct-drop n xs d

drop-append : (n : ℕ) (xs ys : List ℕ) → n ≤ length xs → drop n xs ++ ys ≡ drop n (xs ++ ys)
drop-append zero xs ys h = refl
drop-append (suc n) [] ys h = absurd (omega (arith, h))
drop-append (suc n) (x ∷ xs) ys h = drop-append n xs ys (omega (arith, h))

pub keep_last-append :
    (n : ℕ) (xs ys : List ℕ) → keep_last n (keep_last n xs ++ ys) ≡ keep_last n (xs ++ ys)
keep_last-append n xs ys =
    let k = length xs - n in
    let joined = drop-append k xs ys (omega arith) in
    let kept = length-append (drop k xs) ys in
    let counted = length-append xs ys in
    let dropped = length-drop k xs in
    let total : k + (length (drop k xs ++ ys) - n) ≡ length (xs ++ ys) - n =
      omega (arith, kept, counted, dropped) in
    ap (λ r. drop (length (drop k xs ++ ys) - n) r) joined
    ∙ drop-add k (length (drop k xs ++ ys) - n) (xs ++ ys)
    ∙ ap (λ z. drop z (xs ++ ys)) total

pub All-take : (P : ℕ → Type 0) (n : ℕ) (xs : List ℕ) → All P xs → All P (take n xs)
All-take P zero xs h = tt
All-take P (suc n) [] h = tt
All-take P (suc n) (x ∷ xs) (h, hs) = (h, All-take P n xs hs)

pub IsDistinct-take : (n : ℕ) (xs : List ℕ) → IsDistinct xs → IsDistinct (take n xs)
IsDistinct-take zero xs d = tt
IsDistinct-take (suc n) [] d = tt
IsDistinct-take (suc n) (x ∷ xs) (h, d) = (All-take (λ j. j ≢ x) n xs h, IsDistinct-take n xs d)

pub IsDistinct-filter : (p : ℕ → Bool) (xs : List ℕ) → IsDistinct xs → IsDistinct (filter p xs)
IsDistinct-filter p [] d = tt
IsDistinct-filter p (x ∷ xs) (h, d) = elim (Bool-cases (p x)) [
  | inl y ↦ rw y (All-filter (λ j. j ≢ x) p xs h, IsDistinct-filter p xs d)
  | inr n ↦ rw n (IsDistinct-filter p xs d)
]
