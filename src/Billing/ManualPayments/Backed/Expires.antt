-- ===== src/Billing/ManualPayments/Backed/Expires.antt =====
-- manual-payment-expiry.service.ts: what an expiry keeps.
use micro_saas_api.Base.{
  ℕ, ◌≡◌, inl, inr, refl, sym, subst, ap, ◌∙◌, true, false, length, filter, Member, Bool-cases,
  Option-cases, arith, ◌==◌,
}
use micro_saas_api.Database.{Client}
use micro_saas_api.Database.Rows.{update_rows, IsKey-unique, Member-update_rows, filter-nonempty}
use micro_saas_api.Billing.Access.{Account}
use micro_saas_api.Billing.ManualPayments.{
  Product, same_product, Submission, Ledger, turn_down, expire_row,
}
use micro_saas_api.Billing.ManualPayments.Calls.{update_account, update_submission}
use micro_saas_api.Billing.ManualPayments.Expiry.{
  waits, settle_account, is_other_pending, expire_found, is_open, expire_submission,
}
use micro_saas_api.Billing.ManualPayments.Backed.{
  IsBacked, IsBackedBut, same_row, same_product_sound,
}
use micro_saas_api.Billing.ManualPayments.Backed.Calls.{release, decide, turn_down-Releases}

module _ (l : Ledger) (p : Submission) (h : IsBacked l) (m : Member p l.submissions) where
  -- A payer who does not wait needs no submission.
  not_waiting-IsBackedBut :
      (u : Account)
      → Member u l.accounts
      → u.id ≡ p.user_id
      → waits p.product u ≡ false
      → IsBackedBut p.id l
  not_waiting-IsBackedBut u mu e n = record {
    account_keys = h.account_keys;
    submission_keys = h.submission_keys;
    backed = λ v r mv w.
        let b = h.backed v r mv w in
        (
          b,
          λ i.
              let row = same_row l p h m b.row b.listed i in
              let payer : v.id ≡ u.id = sym b.payer ∙ ap (λ z. z.user_id) row ∙ sym e in
              let account =
                IsKey-unique (λ (z : Account). z.id) l.accounts h.account_keys mv mu payer in
              let product : r ≡ p.product = sym b.buys ∙ ap (λ z. z.product) row in
              let waited : waits p.product u ≡ true =
                subst (λ z. waits p.product z ≡ true) account
                  (subst (λ z. waits z v ≡ true) product w) in
              cc,
        );
  }

  -- Another pending submission takes the place of one.
  other-IsBackedBut :
      (q : Submission) → Member q l.submissions → is_other_pending p q ≡ true → IsBackedBut p.id l
  other-IsBackedBut q mq o = record {
    account_keys = h.account_keys;
    submission_keys = h.submission_keys;
    backed = λ v r mv w.
        let b = h.backed v r mv w in
        elim (Bool-cases (b.row.id == p.id)) [
          | inl i ↦
              let row = same_row l p h m b.row b.listed (ground (arith, i)) in
              let payer : p.user_id ≡ v.id = sym (ap (λ z. z.user_id) row) ∙ b.payer in
              let product : p.product ≡ r = sym (ap (λ z. z.product) row) ∙ b.buys in
              let same : same_product q.product p.product ≡ true = ground (arith, o) in
              (
                record {
                  row = q;
                  listed = mq;
                  payer = ground (arith, o, payer);
                  buys = same_product_sound q.product p.product same ∙ product;
                  undecided = ground (arith, o);
                },
                ground (arith, o),
              )
          | inr d ↦ (b, ground (arith, d))
        ];
  }

module _ (db : Client) where
  -- A submission that is still pending once `p` has lapsed was there before, and is another.
  other_listed :
      (l : Ledger) (p q : Submission)
      → Member q (update_submission db p.id expire_row l).submissions
      → is_other_pending p q ≡ true
      → Member q l.submissions
  other_listed l p q m o =
      let listed : Member q (update_rows (λ x. x.id == p.id) expire_row l.submissions) =
        subst (Member q)
          (db.update_many_rows (λ (x : Submission). x.id == p.id) expire_row l.submissions) m in
      elim (Member-update_rows (λ x. x.id == p.id) expire_row l.submissions q listed) [
        | inl (x, (mx, (px, e))) ↦ absurd (ground (arith, o, ap (λ z. z.status) e))
        | inr (k, n) ↦ k
      ]

  expire_found-IsBacked :
      (now : ℕ) (l : Ledger) (p : Submission) (u : Account)
      → IsBacked l
      → Member p l.submissions
      → Member u l.accounts
      → u.id ≡ p.user_id
      → IsBacked (settle_account db now p u (update_submission db p.id expire_row l))
  expire_found-IsBacked now l p u h m mu e =
      let left = filter (is_other_pending p) (update_submission db p.id expire_row l).submissions in
      elim (Bool-cases (waits p.product u)) [
        | inr n ↦
            rw n
              (decide db l p.id expire_row (λ q. refl) (not_waiting-IsBackedBut l p h m u mu e n))
        | inl y ↦ elim (Bool-cases (length left == 0)) [
          | inl z ↦
              rw (y, z)
                (decide db (update_account db p.user_id (turn_down p.product p.plan now) l) p.id
                  expire_row (λ q. refl)
                  (release db l p (turn_down p.product p.plan now) h m
                    (turn_down-Releases p.product p.plan now)))
          | inr z ↦
              let (q, mq, o) =
                filter-nonempty (is_other_pending p)
                  (update_submission db p.id expire_row l).submissions
                  (λ c. ground (arith, z, c)) in
              rw (y, z)
                (decide db l p.id expire_row (λ x. refl)
                  (other-IsBackedBut l p h m q (other_listed l p q mq o) o))
        ]
      ]

  pub expire_submission-IsBacked :
      (now : ℕ) (product : Product) (id : ℕ) (l : Ledger)
      → IsBacked l
      → IsBacked (expire_submission db now product id l).1
  unfolding expire_submission expire_found
  expire_submission-IsBacked now product id l h =
      elim (Option-cases (db.find_first (is_open product id) l.submissions)) [
        | inl n ↦ rw n h
        | inr (p, f) ↦
            elim (Option-cases (db.find_first (λ (u : Account). u.id == p.user_id) l.accounts)) [
              | inl n ↦ rw (f, n) h
              | inr (u, g) ↦
                  let (open_row, listed) =
                    db.find_first-some (is_open product id) l.submissions p f in
                  let (payer, account) =
                    db.find_first-some (λ (v : Account). v.id == p.user_id) l.accounts u g in
                  rw (f, g)
                    (expire_found-IsBacked now l p u h listed account (ground (arith, payer)))
            ]
      ]
