-- ===== src/Billing/ManualPayments/Once.antt =====
-- manual-payment.service.ts: the transaction ids of approved submissions.
use micro_saas_api.Base.{
  ℕ, ◌≡◌, ◌≢◌, ◌⊎◌, inl, inr, sym, subst, ap, ◌∙◌, true, false, List, [], ◌∷◌, ◌++◌, Member, here,
  there, arith, All, ◌==◌,
}
use micro_saas_api.Database.Rows.{
  update_rows, Member-update_rows, IsKey, IsKey-update_rows, IsKey-append,
}
use micro_saas_api.Billing.ManualPayments.{Submission, is_approved}

-- Submissions have their keys, and a transaction id of a product is approved on one of them at most.
pub record IsOnce (ps : List Submission) : Type 0 where
  pub keys : IsKey (λ (p : Submission). p.id) ps
  pub once :
      (a b : Submission)
      → Member a ps
      → Member b ps
      → is_approved a.status ≡ true
      → is_approved b.status ≡ true
      → a.product ≡ b.product
      → a.utr ≡ b.utr
      → a.id ≡ b.id

Member-append :
    (xs : List Submission) (n r : Submission) → Member r (xs ++ n ∷ []) → Member r xs ⊎ (r ≡ n)
Member-append [] n r (here e) = inr (sym e)
Member-append [] n r (there m) = elim m [ ]
Member-append (x ∷ xs) n r (here e) = inl (here e)
Member-append (x ∷ xs) n r (there m) = elim (Member-append xs n r m) [
  | inl k ↦ inl (there k)
  | inr e ↦ inr e
]

pub IsOnce-append :
    (xs : List Submission) (n : Submission)
    → IsOnce xs
    → All (λ p. p.id ≢ n.id) xs
    → is_approved n.status ≡ false
    → IsOnce (xs ++ n ∷ [])
IsOnce-append xs n h fresh new = record {
  keys = IsKey-append (λ p. p.id) xs n h.keys fresh;
  once = λ a b ma mb sa sb ep eu. elim (Member-append xs n a ma) [
    | inr e ↦ absurd (ground (arith, new, sa, ap (λ z. z.status) e))
    | inl ka ↦ elim (Member-append xs n b mb) [
      | inr e ↦ absurd (ground (arith, new, sb, ap (λ z. z.status) e))
      | inl kb ↦ h.once a b ka kb sa sb ep eu
    ]
  ];
}

-- A change of one row that leaves what identifies it.
pub record IsChange (f : Submission → Submission) : Type 0 where
  pub keeps_id : (a : Submission) → (f a).id ≡ a.id
  pub keeps_product : (a : Submission) → (f a).product ≡ a.product
  pub keeps_utr : (a : Submission) → (f a).utr ≡ a.utr

-- A row that becomes approved shares its transaction id with no other approved one.
pub IsOnce-update :
    (id : ℕ) (f : Submission → Submission) (xs : List Submission)
    → IsOnce xs
    → IsChange f
    → ((a b : Submission)
        → Member a xs
        → Member b xs
        → (a.id == id) ≡ true
        → (b.id == id) ≡ false
        → is_approved (f a).status ≡ true
        → is_approved b.status ≡ true
        → a.product ≡ b.product
        → a.utr ≡ b.utr
        → a.id ≡ b.id)
    → IsOnce (update_rows (λ p. p.id == id) f xs)
IsOnce-update id f xs h k alone = record {
  keys = IsKey-update_rows (λ p. p.id) (λ p. p.id == id) f xs k.keeps_id h.keys;
  once = λ a b ma mb sa sb ep eu. elim (Member-update_rows (λ p. p.id == id) f xs a ma) [
    | inl (x, (mx, (px, ex))) ↦ elim (Member-update_rows (λ p. p.id == id) f xs b mb) [
      | inl (y, (my, (py, ey))) ↦
          ground (arith, px, py, ap (λ z. z.id) ex, ap (λ z. z.id) ey, k.keeps_id x, k.keeps_id y)
      | inr (nb, qb) ↦
          ap (λ z. z.id) ex
          ∙ k.keeps_id x
          ∙ alone x b mx nb px qb (subst (λ z. is_approved z.status ≡ true) ex sa) sb
              (sym (k.keeps_product x) ∙ sym (ap (λ z. z.product) ex) ∙ ep)
              (sym (k.keeps_utr x) ∙ sym (ap (λ z. z.utr) ex) ∙ eu)
    ]
    | inr (na, qa) ↦ elim (Member-update_rows (λ p. p.id == id) f xs b mb) [
      | inl (y, (my, (py, ey))) ↦ sym (
          ap (λ z. z.id) ey
          ∙ k.keeps_id y
          ∙ alone y a my na py qa (subst (λ z. is_approved z.status ≡ true) ey sb) sa
              (sym (k.keeps_product y) ∙ sym (ap (λ z. z.product) ey) ∙ sym ep)
              (sym (k.keeps_utr y) ∙ sym (ap (λ z. z.utr) ey) ∙ sym eu))
      | inr (nb, qb) ↦ h.once a b na nb sa sb ep eu
    ]
  ];
}
