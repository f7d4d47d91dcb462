-- ===== src/Billing/ManualPayments/Backed/Calls.antt =====
-- manual-payment.service.ts and manual-payment-expiry.service.ts: what each call keeps.
use micro_saas_api.Base.{
  ℕ, ◌≡◌, inl, inr, refl, sym, subst, ap, ◌∙◌, true, false, Option, none, some, Member, Bool-cases,
  ltb, ◌==◌, Result, ok, err,
}
use micro_saas_api.Base.{Ends-ok}
use micro_saas_api.Text.{Text}
use micro_saas_api.Database.{Client}
use micro_saas_api.Database.Rows.{update_rows}
use micro_saas_api.Billing.Access.{Plan, Account}
use micro_saas_api.Billing.ManualPayments.{
  Product, platform, website, same_product, Submission, Ledger, PaymentError, Outcome, turn_down,
  activate, approve_row, reject_row, reason_of,
}
use micro_saas_api.Billing.ManualPayments.Calls.{
  RejectFate, not_decided, not_recorded, recorded, update_account, update_submission, checked,
  load_pending, load_approvable, finish_approval, approve_submission, finish_rejection,
  reject_submission,
}
use micro_saas_api.Billing.ManualPayments.Reach.{load_pending-listed, load_approvable-clear}
use micro_saas_api.Billing.ManualPayments.Expiry.{waits, is_waiting}
use micro_saas_api.Billing.ManualPayments.Backed.{
  IsBacked, IsBackedBut, IsBackedBut-IsBacked, IsBacked-update, Releases, IsBackedBut-release,
}

-- A change of the columns of one product leaves who waits for the other.
abbrev Others : Product → (Account → Account) → Type 0
Others product f =
    (u : Account) (r : Product)
    → same_product r product ≡ false
    → waits r (f u) ≡ true
    → waits r u ≡ true

platform-Others :
    (f : Account → Account)
    → ((u : Account) → (f u).website_status ≡ u.website_status)
    → Others platform f
platform-Others f k u platform d w = cc
platform-Others f k u website d w = sym (ap is_waiting (k u)) ∙ w

website-Others :
    (f : Account → Account) → ((u : Account) → (f u).status ≡ u.status) → Others website f
website-Others f k u website d w = cc
website-Others f k u platform d w = sym (ap is_waiting (k u)) ∙ w

pub turn_down-Releases :
    (product : Product) (plan : Plan) (now : ℕ) → Releases product (turn_down product plan now)
turn_down-Releases platform plan now = record {
  keeps_id = λ u. refl;
  released =
      λ u. elim (Bool-cases (ltb now u.trial_ends_at)) [ inl e ↦ rw e refl | inr e ↦ rw e refl ];
  others = platform-Others (turn_down platform plan now) (λ u. refl);
}
turn_down-Releases website plan now = record {
  keeps_id = λ u. refl;
  released =
      λ u. elim (Bool-cases (ltb now u.trial_ends_at)) [ inl e ↦ rw e refl | inr e ↦ rw e refl ];
  others = website-Others (turn_down website plan now) (λ u. refl);
}

activate-Releases :
    (product : Product) (plan : Plan) (end : ℕ) → Releases product (activate product plan end)
activate-Releases platform plan end = record {
  keeps_id = λ u. refl;
  released = λ u. refl;
  others = platform-Others (activate platform plan end) (λ u. refl);
}
activate-Releases website plan end = record {
  keeps_id = λ u. refl;
  released = λ u. refl;
  others = website-Others (activate website plan end) (λ u. refl);
}

module _ (db : Client) where
  pub update_account-rows :
      (id : ℕ) (f : Account → Account) (l : Ledger)
      → update_account db id f l
        ≡ record l { accounts = update_rows (λ u. u.id == id) f l.accounts }
  update_account-rows id f l =
      ap (λ us. record l { accounts = us })
        (db.update_many_rows (λ (u : Account). u.id == id) f l.accounts)

  pub update_submission-rows :
      (id : ℕ) (f : Submission → Submission) (l : Ledger)
      → update_submission db id f l
        ≡ record l { submissions = update_rows (λ p. p.id == id) f l.submissions }
  update_submission-rows id f l =
      ap (λ ps. record l { submissions = ps })
        (db.update_many_rows (λ (p : Submission). p.id == id) f l.submissions)

  pub release :
      (l : Ledger) (p : Submission) (f : Account → Account)
      → IsBacked l
      → Member p l.submissions
      → Releases p.product f
      → IsBackedBut p.id (update_account db p.user_id f l)
  release l p f h m k =
      subst (IsBackedBut p.id) (sym (update_account-rows p.user_id f l))
        (IsBackedBut-release l p h m f k)

  pub decide :
      (l : Ledger) (id : ℕ) (g : Submission → Submission)
      → ((p : Submission) → (g p).id ≡ p.id)
      → IsBackedBut id l
      → IsBacked (update_submission db id g l)
  decide l id g k h =
      subst IsBacked (sym (update_submission-rows id g l)) (IsBacked-update id g l k h)

  pub checked-IsBacked {ℓ} :
      {A : Type ℓ} (r : Result PaymentError A) (l : Ledger) (go : A → Outcome)
      → IsBacked l
      → ((a : A) → r ≡ ok a → IsBacked (go a).ledger)
      → IsBacked (checked r l go).ledger
  unfolding checked
  checked-IsBacked (err e) l go h k = h
  checked-IsBacked (ok a) l go h k = k a refl

  pub approve_submission-IsBacked :
      (period_end : Plan → ℕ) (admin now : ℕ) (txn : Option ℕ) (id : ℕ) (l : Ledger)
      → IsBacked l
      → IsBacked (approve_submission db period_end admin now txn id l).ledger
  unfolding approve_submission finish_approval
  approve_submission-IsBacked period_end admin now txn id l h =
      checked-IsBacked (load_approvable db id l) l _ h λ p loaded.
        let (listed, clear) = Ends-ok (load_approvable-clear db id l) loaded in
        finished txn p _ (
          release l p (activate p.product p.plan (period_end p.plan)) h listed
            (activate-Releases p.product p.plan (period_end p.plan)))
    where
      finished :
          (o : Option ℕ) (p : Submission) (m : Ledger)
          → IsBackedBut p.id m
          → IsBacked (finish_approval db admin now o p m).ledger
      finished none p m k = IsBackedBut-IsBacked p.id m k
      finished (some t) p m k = decide m p.id (approve_row admin now) (λ q. refl) k

  pub reject_submission-IsBacked :
      (default : Text) (admin now : ℕ) (fate : RejectFate) (reason : Text) (id : ℕ) (l : Ledger)
      → IsBacked l
      → IsBacked (reject_submission db default admin now fate reason id l).ledger
  unfolding reject_submission finish_rejection
  reject_submission-IsBacked default admin now fate reason id l h =
      checked-IsBacked (load_pending db id l) l _ h λ p loaded.
        let released =
          release l p (turn_down p.product p.plan now) h
            (Ends-ok (load_pending-listed db id l) loaded)
            (turn_down-Releases p.product p.plan now) in
        finished fate _ _ (IsBackedBut-IsBacked p.id _ released)
          (decide _ p.id (reject_row admin now (reason_of default reason)) (λ q. refl) released)
    where
      finished :
          (f : RejectFate) (write : Ledger → Ledger) (m : Ledger)
          → IsBacked m
          → IsBacked (write m)
          → IsBacked (finish_rejection db f write m).ledger
      finished not_decided write m k d = k
      finished not_recorded write m k d = d
      finished recorded write m k d = d
