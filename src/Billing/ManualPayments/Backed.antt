-- ===== src/Billing/ManualPayments/Backed.antt =====
-- manual-payment.service.ts and manual-payment-expiry.service.ts: an account that waits for the
-- verification of a payment has a submission that somebody can still decide.
pub mod Calls
pub mod Expires
pub mod Submits
pub mod Reach
use micro_saas_api.Base.{
  ℕ, ◌-◌, ◌≡◌, ◌≢◌, inl, inr, refl, sym, subst, ap, ◌∙◌, true, false, List, Member, Bool-cases,
  arith, ◌==◌,
}
use micro_saas_api.Database.{Client}
use micro_saas_api.Database.Rows.{
  update_rows, IsKey, IsKey-unique, IsKey-update_rows, Member-update_rows, Member-kept,
}
use micro_saas_api.Billing.Access.{Account}
use micro_saas_api.Billing.ManualPayments.{
  Product, platform, website, same_product, Submission, Ledger, is_pending,
}
use micro_saas_api.Billing.ManualPayments.Expiry.{waits}

-- A pending submission of a payer for a product.
pub record Backing (ps : List Submission) (user_id : ℕ) (product : Product) : Type 0 where
  pub row : Submission
  pub listed : Member row ps
  pub payer : row.user_id ≡ user_id
  pub buys : row.product ≡ product
  pub undecided : is_pending row.status ≡ true

-- Accounts and submissions have their keys, and an account that waits for a product has a pending
-- submission for it.
pub record IsBacked (l : Ledger) : Type 0 where
  pub account_keys : IsKey (λ (u : Account). u.id) l.accounts
  pub submission_keys : IsKey (λ (p : Submission). p.id) l.submissions
  pub backed :
      (u : Account) (product : Product)
      → Member u l.accounts
      → waits product u ≡ true
      → Backing l.submissions u.id product

-- The same without the submission `id`.
pub record IsBackedBut (id : ℕ) (l : Ledger) : Type 0 where
  pub account_keys : IsKey (λ (u : Account). u.id) l.accounts
  pub submission_keys : IsKey (λ (p : Submission). p.id) l.submissions
  pub backed :
      (u : Account) (product : Product)
      → Member u l.accounts
      → waits product u ≡ true
      → (b : Backing l.submissions u.id product) × (b.row.id ≢ id)

pub IsBackedBut-IsBacked : (id : ℕ) (l : Ledger) → IsBackedBut id l → IsBacked l
IsBackedBut-IsBacked id l h = record {
  account_keys = h.account_keys;
  submission_keys = h.submission_keys;
  backed = λ u product m w. (h.backed u product m w).0;
}

-- The submission that nothing depends on may change.
pub IsBacked-update :
    (id : ℕ) (g : Submission → Submission) (l : Ledger)
    → ((p : Submission) → (g p).id ≡ p.id)
    → IsBackedBut id l
    → IsBacked (record l { submissions = update_rows (λ p. p.id == id) g l.submissions })
IsBacked-update id g l k h = record {
  account_keys = h.account_keys;
  submission_keys =
      IsKey-update_rows (λ p. p.id) (λ p. p.id == id) g l.submissions k h.submission_keys;
  backed = λ u product m w.
      let (b, other_row) = h.backed u product m w in
      record {
        row = b.row;
        listed = Member-kept (λ p. p.id == id) g l.submissions b.listed (ground (arith, other_row));
        payer = b.payer;
        buys = b.buys;
        undecided = b.undecided;
      };
}

pub same_product_sound : (a b : Product) → same_product a b ≡ true → a ≡ b
same_product_sound platform platform h = refl
same_product_sound website website h = refl
same_product_sound platform website h = cc
same_product_sound website platform h = cc

pub different : (a b : Product) → same_product a b ≡ false → a ≢ b
different platform platform h e = cc
different website website h e = cc
different platform website h e = cc
different website platform h e = cc

-- A change of an account after which it does not wait for the product.
pub record Releases (product : Product) (f : Account → Account) : Type 0 where
  pub keeps_id : (u : Account) → (f u).id ≡ u.id
  pub released : (u : Account) → waits product (f u) ≡ false
  pub others :
      (u : Account) (r : Product)
      → same_product r product ≡ false
      → waits r (f u) ≡ true
      → waits r u ≡ true

module _ (l : Ledger) (p : Submission) (h : IsBacked l) (m : Member p l.submissions) where
  pub same_row : (b : Submission) → Member b l.submissions → b.id ≡ p.id → b ≡ p
  same_row b k e = IsKey-unique (λ (q : Submission). q.id) l.submissions h.submission_keys k m e

  -- Once the payer does not wait for the product, nothing depends on the submission.
  pub IsBackedBut-release :
      (f : Account → Account)
      → Releases p.product f
      → IsBackedBut p.id (record l { accounts = update_rows (λ u. u.id == p.user_id) f l.accounts })
  IsBackedBut-release f k = record {
    account_keys =
        IsKey-update_rows (λ u. u.id) (λ u. u.id == p.user_id) f l.accounts k.keeps_id
          h.account_keys;
    submission_keys = h.submission_keys;
    backed = λ u product n w. elim (Member-update_rows (λ u. u.id == p.user_id) f l.accounts u n) [
      | inl (x, (mx, (px, e))) ↦ elim (Bool-cases (same_product product p.product)) [
        | inl s ↦
            absurd (ground (arith, w, e, k.released x, same_product_sound product p.product s))
        | inr d ↦
            let waited : waits product x ≡ true =
              k.others x product d (subst (λ z. waits product z ≡ true) e w) in
            let b = h.backed x product mx waited in
            (
              record {
                row = b.row;
                listed = b.listed;
                payer = b.payer ∙ sym (ap (λ z. z.id) e ∙ k.keeps_id x);
                buys = b.buys;
                undecided = b.undecided;
              },
              λ i.
                  different product p.product d
                    (sym b.buys ∙ ap (λ z. z.product) (same_row b.row b.listed i)),
            )
      ]
      | inr (mu, ne) ↦
          let b = h.backed u product mu w in
          (b, (λ e. ground (arith, ne, b.payer, ap (λ z. z.user_id) (same_row b.row b.listed e))))
    ];
  }
