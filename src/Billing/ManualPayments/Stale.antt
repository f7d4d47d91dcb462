-- ===== src/Billing/ManualPayments/Stale.antt =====
-- manual-payment-expiry.service.ts: what the sweep of a user leaves.
pub mod Sweep
use micro_saas_api.Base.{
  ℕ, ◌-◌, ◌≡◌, ◌≢◌, inl, inr, refl, sym, subst, ap, ◌∙◌, true, false, List, Member, Bool-cases,
  arith, All, All-Member, ◌==◌,
}
use micro_saas_api.Database.{Client}
use micro_saas_api.Database.Rows.{
  Origin, update_rows, IsKey, IsKey-unique, IsKey-update_rows, Member-update_rows, Member-kept,
  Member-updated,
}
use micro_saas_api.Billing.Access.{Account}
use micro_saas_api.Billing.ManualPayments.{
  same_product, Submission, Ledger, is_pending, turn_down, expire_row,
}
use micro_saas_api.Billing.ManualPayments.Calls.{update_submission}
use micro_saas_api.Billing.ManualPayments.Reach.{settle_account-submissions, same_product_refl}
use micro_saas_api.Billing.ManualPayments.Backed.Calls.{turn_down-Releases}
use micro_saas_api.Billing.ManualPayments.Expiry.{
  waits, settle_account, is_other_pending, expire_found, is_open, expire_submission, expire_each,
  is_stale,
}

-- Submissions have their keys, and their payers' accounts are there.
pub record IsSound (l : Ledger) : Type 0 where
  pub keys : IsKey (λ (p : Submission). p.id) l.submissions
  pub payers :
      (p : Submission)
      → Member p l.submissions
      → (u : Account) × (Member u l.accounts × (u.id ≡ p.user_id))

-- The row with the key and the product of `p`.
pub record Stands (p : Submission) (l : Ledger) : Type 0 where
  pub row : Submission
  pub listed : Member row l.submissions
  pub same_id : row.id ≡ p.id
  pub same_buys : row.product ≡ p.product

pub account_kept :
    (f : Account → Account) (us : List Account) (id payer : ℕ)
    → ((u : Account) → (f u).id ≡ u.id)
    → (u : Account) × (Member u us × (u.id ≡ payer))
    → (u : Account) × (Member u (update_rows (λ u. u.id == id) f us) × (u.id ≡ payer))
account_kept f us id payer k (u, (m, e)) = elim (Bool-cases (u.id == id)) [
  | inl y ↦ (f u, (Member-updated (λ u. u.id == id) f us m y, k u ∙ e))
  | inr n ↦ (u, (Member-kept (λ u. u.id == id) f us m n, e))
]

-- What the expiry of a submission leaves: of the pending rows all others.
pub record IsExpired (id : ℕ) (l m : Ledger) : Type 0 where
  pub sound : IsSound m
  pub stands : (q : Submission) → Stands q l → Stands q m
  pub left :
      (q : Submission)
      → Member q m.submissions
      → is_pending q.status ≡ true
      → Member q l.submissions × (q.id ≢ id)

pub expire_row-IsExpired :
    (id : ℕ) (l m : Ledger)
    → IsSound l
    → m.submissions ≡ update_rows (λ p. p.id == id) expire_row l.submissions
    → ((payer : ℕ)
        → (u : Account) × (Member u l.accounts × (u.id ≡ payer))
        → (u : Account) × (Member u m.accounts × (u.id ≡ payer)))
    → IsExpired id l m
expire_row-IsExpired id l m h e payers = record {
  sound = record {
    keys = subst (IsKey (λ p. p.id)) (sym e) (
        IsKey-update_rows (λ p. p.id) (λ p. p.id == id) expire_row l.submissions (λ p. refl)
          h.keys);
    payers = λ q k. elim (origin q k) [
      | inl (x, (mx, (px, d))) ↦
          let (u, (mu, same)) = payers x.user_id (h.payers x mx) in
          (u, (mu, same ∙ sym (ap (λ z. z.user_id) d)))
      | inr (mq, n) ↦ payers q.user_id (h.payers q mq)
    ];
  };
  stands = λ q s. elim (Bool-cases (s.row.id == id)) [
    | inl y ↦ record {
      row = expire_row s.row;
      listed =
          subst (Member (expire_row s.row)) (sym e)
            (Member-updated (λ p. p.id == id) expire_row l.submissions s.listed y);
      same_id = s.same_id;
      same_buys = s.same_buys;
    }
    | inr n ↦ record {
      row = s.row;
      listed =
          subst (Member s.row) (sym e)
            (Member-kept (λ p. p.id == id) expire_row l.submissions s.listed n);
      same_id = s.same_id;
      same_buys = s.same_buys;
    }
  ];
  left = λ q k w. elim (origin q k) [
    | inl (x, (mx, (px, d))) ↦ absurd (ground (arith, w, ap (λ z. z.status) d))
    | inr (mq, n) ↦ (mq, ground (arith, n))
  ];
}
  where
    origin :
        (q : Submission)
        → Member q m.submissions
        → Origin (λ p. p.id == id) expire_row l.submissions q
    origin q k =
        Member-update_rows (λ p. p.id == id) expire_row l.submissions q (subst (Member q) e k)

-- Where nothing is found to expire, the submission is not pending.
pub nothing-IsExpired :
    (p : Submission) (l : Ledger)
    → IsSound l
    → Stands p l
    → All (λ q. is_open p.product p.id q ≡ false) l.submissions
    → IsExpired p.id l l
nothing-IsExpired p l h s n = record {
  sound = h;
  stands = λ q t. t;
  left = λ q k w. (
    k,
    λ i.
        let row : q ≡ s.row =
          IsKey-unique (λ (z : Submission). z.id) l.submissions h.keys k s.listed
            (i ∙ sym s.same_id) in
        let bought : same_product q.product p.product ≡ true =
          subst (λ z. same_product z p.product ≡ true)
            (sym s.same_buys ∙ sym (ap (λ z. z.product) row)) (same_product_refl p.product) in
        ground (
          arith,
          w,
          i,
          bought,
          All-Member (λ z. is_open p.product p.id z ≡ false) l.submissions n k,
        ),
  );
}
