-- ===== src/Database/Rows.antt =====
-- Tables as lists of rows: selecting, updating, keys.
use micro_saas_api.Base.{
  ℕ, ◌+◌, ◌<◌, ◌≤◌, ◌≡◌, ◌≢◌, refl, sym, ap, subst, ◌∙◌, inl, inr, Bool, true, false, List, [], ◌∷◌,
  ◌++◌, All-append, Option, none, some, arith, if◌then◌else◌, All, Member, here, there, length,
  filter, find, sum_by, Bool-cases, ◌⊎◌,
}

module _ {Row : Type 0} where
  -- The rows that satisfy `p` are changed by `f`.
  abbrev pub update_rows : (Row → Bool) → (Row → Row) → List Row → List Row
  update_rows p f [] = []
  update_rows p f (r ∷ rs) = (if p r then f r else r) ∷ update_rows p f rs

  abbrev pub list_first : (Row → Bool) → List Row → Option Row
  list_first = find

  pub first_matches :
      (p : Row → Bool) (rows : List Row) (r : Row)
      → list_first p rows ≡ some r
      → (p r ≡ true) × Member r rows
  first_matches p [] r h = cc
  first_matches p (x ∷ xs) r h = elim (Bool-cases (p x)) [
    | inl e ↦ let same : x ≡ r = ground arith in (rw (← same) e, here same)
    | inr e ↦ let (m, i) = first_matches p xs r (ground arith) in (m, there i)
  ]

  pub none_matches :
      (p : Row → Bool) (rows : List Row) → list_first p rows ≡ none → All (λ r. p r ≡ false) rows
  none_matches p [] h = tt
  none_matches p (x ∷ xs) h = ground (arith, none_matches p xs)

  -- No two rows have one key.
  abbrev pub IsKey : (Row → ℕ) → List Row → Type 0
  IsKey key [] = Unit
  IsKey key (r ∷ rs) = All (λ x. key x ≢ key r) rs × IsKey key rs

  IsKey-ne :
      (key : Row → ℕ) (x : Row) (rows : List Row) {b : Row}
      → All (λ y. key y ≢ key x) rows
      → Member b rows
      → key b ≢ key x
  IsKey-ne key x [] h m = elim m [ ]
  IsKey-ne key x (y ∷ ys) (h, hs) (here e) = subst (λ z. key z ≢ key x) e h
  IsKey-ne key x (y ∷ ys) (h, hs) (there m) = IsKey-ne key x ys hs m

  -- A key finds one row.
  pub IsKey-unique :
      (key : Row → ℕ) (rows : List Row) {a b : Row}
      → IsKey key rows
      → Member a rows
      → Member b rows
      → key a ≡ key b
      → a ≡ b
  IsKey-unique key [] k m n h = elim m [ ]
  IsKey-unique key (x ∷ xs) k (here e) (here d) h = sym e ∙ d
  IsKey-unique key (x ∷ xs) k (here e) (there m) h =
      absurd (IsKey-ne key x xs k.0 m (sym h ∙ sym (ap key e)))
  IsKey-unique key (x ∷ xs) k (there m) (here d) h =
      absurd (IsKey-ne key x xs k.0 m (h ∙ sym (ap key d)))
  IsKey-unique key (x ∷ xs) k (there m) (there n) h = IsKey-unique key xs k.1 m n h

  -- Updates leave the keys alone.
  pub All-update_rows {ℓ} :
      (P : Row → Type ℓ) (p : Row → Bool) (f : Row → Row) (rows : List Row)
      → ((r : Row) → Member r rows → p r ≡ true → P r → P (f r))
      → All P rows
      → All P (update_rows p f rows)
  All-update_rows P p f [] h a = tt
  All-update_rows P p f (x ∷ xs) h a =
      let rest = All-update_rows P p f xs (λ r m. h r (there m)) a.1 in
      elim (Bool-cases (p x)) [
        | inl e ↦ rw e (h x (here refl) e a.0, rest)
        | inr e ↦ rw e (a.0, rest)
      ]

  pub IsKey-update_rows :
      (key : Row → ℕ) (p : Row → Bool) (f : Row → Row) (rows : List Row)
      → ((r : Row) → key (f r) ≡ key r)
      → IsKey key rows
      → IsKey key (update_rows p f rows)
  IsKey-update_rows key p f [] h k = tt
  IsKey-update_rows key p f (x ∷ xs) h k = elim (Bool-cases (p x)) [
    | inl e ↦ rw (e, h x) (others, IsKey-update_rows key p f xs h k.1)
    | inr e ↦ rw e (others, IsKey-update_rows key p f xs h k.1)
  ]
    where
      others : All (λ y. key y ≢ key x) (update_rows p f xs)
      others = All-update_rows (λ y. key y ≢ key x) p f xs (λ r _ _ ne. rw (h r) ne) k.0

  pub sum_by-update_same :
      (g : Row → ℕ) (p : Row → Bool) (f : Row → Row) (rows : List Row)
      → ((r : Row) → Member r rows → p r ≡ true → g (f r) ≡ g r)
      → sum_by g (update_rows p f rows) ≡ sum_by g rows
  sum_by-update_same g p f [] h = refl
  sum_by-update_same g p f (x ∷ xs) h =
      let rest = sum_by-update_same g p f xs (λ r m. h r (there m)) in
      elim (Bool-cases (p x)) [
        | inl e ↦ rw e (omega (arith, rest, h x (here refl) e))
        | inr e ↦ rw e (omega (arith, rest))
      ]

  -- One row satisfies `p`: the sum changes by what that row contributes.
  pub sum_by-update_one :
      (g : Row → ℕ) (key : Row → ℕ) (p : Row → Bool) (f : Row → Row) (rows : List Row) {a : Row}
      → IsKey key rows
      → ((r : Row) → p r ≡ true → key r ≡ key a)
      → Member a rows
      → p a ≡ true
      → sum_by g (update_rows p f rows) + g a ≡ sum_by g rows + g (f a)
  sum_by-update_one g key p f [] k h m pa = elim m [ ]
  sum_by-update_one g key p f (x ∷ xs) {a} k h (here e) pa =
      let same : sum_by g (update_rows p f xs) ≡ sum_by g xs =
        sum_by-update_same g p f xs
          λ r m pr. absurd (IsKey-ne key x xs k.0 m (h r pr ∙ sym (ap key e))) in
      rw (e, pa) (omega (arith, same))
  sum_by-update_one g key p f (x ∷ xs) {a} k h (there m) pa = elim (Bool-cases (p x)) [
    | inl e ↦ absurd (IsKey-ne key x xs k.0 m (sym (h x e)))
    | inr e ↦ rw e (omega (arith, sum_by-update_one g key p f xs k.1 h m pa))
  ]

  -- A row counts itself.
  pub filter-nonempty :
      (p : Row → Bool) (rows : List Row)
      → length (filter p rows) ≢ 0
      → (a : Row) × Member a rows × (p a ≡ true)
  filter-nonempty p [] h = absurd (h refl)
  filter-nonempty p (x ∷ xs) h = elim (Bool-cases (p x)) [
    | inl e ↦ (x, here refl, e)
    | inr e ↦ let (a, m, pa) = filter-nonempty p xs (rw e at h) in (a, there m, pa)
  ]

  pub filter-pos :
      (p : Row → Bool) (rows : List Row) {a : Row}
      → Member a rows
      → p a ≡ true
      → 0 < length (filter p rows)
  filter-pos p [] m pa = elim m [ ]
  filter-pos p (x ∷ xs) (here e) pa = rw (e, pa) (omega arith)
  filter-pos p (x ∷ xs) (there m) pa = ground (arith, filter-pos p xs m pa)

  -- Once the rows that satisfied `p` no longer do, none is left.
  pub filter-update_none :
      (p : Row → Bool) (f : Row → Row) (rows : List Row)
      → ((r : Row) → p (f r) ≡ false)
      → length (filter p (update_rows p f rows)) ≡ 0
  filter-update_none p f [] h = refl
  filter-update_none p f (x ∷ xs) h = elim (Bool-cases (p x)) [
    | inl e ↦ rw (e, h x) (filter-update_none p f xs h)
    | inr e ↦ rw (e, e) (filter-update_none p f xs h)
  ]

  pub IsKey-append :
      (key : Row → ℕ) (rows : List Row) (r : Row)
      → IsKey key rows
      → All (λ x. key x ≢ key r) rows
      → IsKey key (rows ++ r ∷ [])
  IsKey-append key [] r k h = (tt, tt)
  IsKey-append key (x ∷ xs) r k h = (
    All-append (λ y. key y ≢ key x) xs (r ∷ []) k.0 (λ e. h.0 (sym e), tt),
    IsKey-append key xs r k.1 h.1,
  )

  pub sum_by-ge : (g : Row → ℕ) (rows : List Row) {a : Row} → Member a rows → g a ≤ sum_by g rows
  sum_by-ge g [] m = elim m [ ]
  sum_by-ge g (x ∷ xs) (here e) = rw e (omega arith)
  sum_by-ge g (x ∷ xs) (there m) = omega (arith, sum_by-ge g xs m)

  -- A row of an updated table: a changed one, or one that the update passes over.
  abbrev pub Origin : (Row → Bool) → (Row → Row) → List Row → Row → Type 0
  Origin p f xs r =
      ((x : Row) × (Member x xs × ((p x ≡ true) × (r ≡ f x)))) ⊎ (Member r xs × (p r ≡ false))

  pub Member-update_rows :
      (p : Row → Bool) (f : Row → Row) (xs : List Row) (r : Row)
      → Member r (update_rows p f xs)
      → Origin p f xs r
  Member-update_rows p f [] r m = elim m [ ]
  Member-update_rows p f (x ∷ xs) r (here e) = elim (Bool-cases (p x)) [
    | inl y ↦ inl (x, (here refl, (y, sym (rw y at e))))
    | inr n ↦ let same : x ≡ r = rw n at e in inr (here same, subst (λ z. p z ≡ false) same n)
  ]
  Member-update_rows p f (x ∷ xs) r (there m) = elim (Member-update_rows p f xs r m) [
    | inl (y, (n, e)) ↦ inl (y, (there n, e))
    | inr (n, e) ↦ inr (there n, e)
  ]

  -- A row that an update passes over stays.
  pub Member-kept :
      (p : Row → Bool) (f : Row → Row) (xs : List Row) {r : Row}
      → Member r xs
      → p r ≡ false
      → Member r (update_rows p f xs)
  Member-kept p f [] m h = elim m [ ]
  Member-kept p f (x ∷ xs) (here e) h = let kept : p x ≡ false = ap p e ∙ h in rw kept (here e)
  Member-kept p f (x ∷ xs) (there m) h = there (Member-kept p f xs m h)

  pub Member-updated :
      (p : Row → Bool) (f : Row → Row) (xs : List Row) {r : Row}
      → Member r xs
      → p r ≡ true
      → Member (f r) (update_rows p f xs)
  Member-updated p f [] m h = elim m [ ]
  Member-updated p f (x ∷ xs) (here e) h =
      let changed : p x ≡ true = ap p e ∙ h in rw changed (here (ap f e))
  Member-updated p f (x ∷ xs) (there m) h = there (Member-updated p f xs m h)

  pub Member-front : (xs ys : List Row) {r : Row} → Member r xs → Member r (xs ++ ys)
  Member-front [] ys m = elim m [ ]
  Member-front (x ∷ xs) ys (here e) = here e
  Member-front (x ∷ xs) ys (there m) = there (Member-front xs ys m)

  pub Member-last : (xs : List Row) (r : Row) → Member r (xs ++ r ∷ [])
  Member-last [] r = here refl
  Member-last (x ∷ xs) r = there (Member-last xs r)
