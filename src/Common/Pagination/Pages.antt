-- ===== src/Common/Pagination/Pages.antt =====
-- pagination.ts: the pages make up the list.
use micro_saas_api.Base.{
  ℕ, zero, suc, ◌+◌, ◌-◌, ◌*◌, ◌/◌, ◌%◌, ◌≡◌, ◌≤◌, ◌<◌, refl, sym, subst, ap, ◌∙◌, List, [], ◌∷◌,
  ◌++◌, if◌then◌else◌, length, map, arith, ◌==◌, min, max,
}
use native.Mathlib.Omega.{div_fact, mod_fact}
use micro_saas_api.Text.Laws.{drop-add}
use micro_saas_api.Text.{Text, take, drop}
use micro_saas_api.Common.Pagination.{last_page_of, paginate, page_rows}

module _ {ℓ} {A : Type ℓ} where
  take-drop : (n : ℕ) (xs : List A) → take n xs ++ drop n xs ≡ xs
  take-drop zero xs = refl
  take-drop (suc n) [] = refl
  take-drop (suc n) (x ∷ xs) = ap (λ r. x ∷ r) (take-drop n xs)

  drop-all : (n : ℕ) (xs : List A) → length xs ≤ n → drop n xs ≡ []
  drop-all zero [] h = refl
  drop-all zero (x ∷ xs) h = absurd (omega (arith, h))
  drop-all (suc n) [] h = refl
  drop-all (suc n) (x ∷ xs) h = drop-all n xs (omega (arith, h))

  pub length-take : (n : ℕ) (xs : List A) → length (take n xs) ≡ min n (length xs)
  length-take zero xs = omega arith
  length-take (suc n) [] = omega arith
  length-take (suc n) (x ∷ xs) = omega (arith, length-take n xs)

  -- `count` pages after the first `i`.
  abbrev pub pages_after : ℕ → ℕ → ℕ → List A → List A
  pages_after per_page i zero rows = []
  pages_after per_page i (suc count) rows =
      page_rows (suc i) per_page rows ++ pages_after per_page (suc i) count rows

  pages_after-drop :
      (per_page i count : ℕ) (rows : List A)
      → length rows ≤ (i + count) * per_page
      → pages_after per_page i count rows ≡ drop (i * per_page) rows
  pages_after-drop per_page i zero rows h =
      let enough : length rows ≤ i * per_page =
        subst (λ z. length rows ≤ z * per_page) (omega arith) h in
      sym (drop-all (i * per_page) rows enough)
  pages_after-drop per_page i (suc count) rows h =
      let here_first : suc i - 1 ≡ i = omega arith in
      let next : suc i * per_page ≡ i * per_page + per_page = omega arith in
      let shifted : i + suc count ≡ suc i + count = omega arith in
      let rest =
        pages_after-drop per_page (suc i) count rows
          (subst (λ z. length rows ≤ z * per_page) shifted h) in
      let split =
        ap (λ r. take per_page (drop (i * per_page) rows) ++ r)
          (rest ∙ ap (λ z. drop z rows) next ∙ sym (drop-add (i * per_page) per_page rows)) in
      rw here_first (split ∙ take-drop per_page (drop (i * per_page) rows))

enough_pages :
    (q r n k l : ℕ)
    → suc k * q + r ≡ n
    → r < suc k
    → l ≡ max 1 (if r == 0 then q else q + 1)
    → n ≤ l * suc k
enough_pages zero r n k l e h m =
    let one : l ≡ 1 = ground (arith, m) in rw one (omega (arith, e, h))
enough_pages (suc q) zero n k l e h m =
    let same : l ≡ suc q = ground (arith, m) in rw same (omega (arith, e))
enough_pages (suc q) (suc r) n k l e h m =
    let same : l ≡ suc (suc q) = ground (arith, m) in rw same (omega (arith, e, h))

length-last_page_of : (n k : ℕ) → 0 < k → n ≤ last_page_of n k * k
length-last_page_of n zero h = absurd (omega (arith, h))
length-last_page_of n (suc k) h =
    enough_pages (n / suc k) (n % suc k) n k (last_page_of n (suc k)) (div_fact n k) (mod_fact n k)
      refl

module _ {ℓ κ} {A : Type ℓ} {B : Type κ} where
  -- The rows that `paginate` shows of the first `count` pages from page `i + 1` on, one after the other.
  abbrev pub shown : ℕ → ℕ → ℕ → Text → (A → B) → List A → List B
  shown per_page i zero path serialize rows = []
  shown per_page i (suc count) path serialize rows =
      (paginate (page_rows (suc i) per_page rows) (length rows) (suc i) per_page path
        serialize).data_rows
      ++ shown per_page (suc i) count path serialize rows

  map-append : (f : A → B) (xs ys : List A) → map f (xs ++ ys) ≡ map f xs ++ map f ys
  map-append f [] ys = refl
  map-append f (x ∷ xs) ys = ap (λ r. f x ∷ r) (map-append f xs ys)

  shown-map :
      (per_page i count : ℕ) (path : Text) (serialize : A → B) (rows : List A)
      → shown per_page i count path serialize rows
        ≡ map serialize (pages_after per_page i count rows)
  unfolding paginate
  shown-map per_page i zero path serialize rows = refl
  shown-map per_page i (suc count) path serialize rows =
      ap (λ r. map serialize (page_rows (suc i) per_page rows) ++ r)
        (shown-map per_page (suc i) count path serialize rows)
      ∙ sym (
          map-append serialize (page_rows (suc i) per_page rows)
            (pages_after per_page (suc i) count rows))

  -- The pages from the first to `last_page`, of a row at least each, one after the other, show every
  -- row once and in order.
  pub shown-all :
      (per_page : ℕ) (path : Text) (serialize : A → B) (rows : List A)
      → 0 < per_page
      → shown per_page 0
          (paginate (page_rows 1 per_page rows) (length rows) 1 per_page path serialize).last_page
          path
          serialize
          rows
        ≡ map serialize rows
  unfolding paginate
  shown-all per_page path serialize rows h =
      let last = last_page_of (length rows) per_page in
      let enough : length rows ≤ (0 + last) * per_page =
        omega (arith, length-last_page_of (length rows) per_page h) in
      let none_skipped : 0 * per_page ≡ 0 = omega arith in
      shown-map per_page 0 last path serialize rows
      ∙ ap (λ r. map serialize r)
          (pages_after-drop per_page 0 last rows enough ∙ ap (λ n. drop n rows) none_skipped)
