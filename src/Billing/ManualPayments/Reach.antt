-- ===== src/Billing/ManualPayments/Reach.antt =====
-- manual-payment.service.ts and manual-payment-expiry.service.ts: sequences of submissions,
-- approvals, rejections and expiries.
use micro_saas_api.Base.{
  ℕ, ◌≡◌, ◌≢◌, inl, inr, refl, sym, subst, ap, ◌∙◌, true, false, Option, none, some, length, filter,
  Member, Bool-cases, Option-cases, arith, All, All-Member, ◌==◌, Result, ok, err,
}
use micro_saas_api.Base.{
  any-eq-false, require-ok, or_throw-ok, Ends-then, Ends-ok, Ends-bind, answers, Ends,
}
use micro_saas_api.Text.{Text, same_text}
use micro_saas_api.Text.Laws.{same_text_refl}
use micro_saas_api.Database.{Client}
use micro_saas_api.Database.Rows.{update_rows, IsKey-unique}
use micro_saas_api.Billing.Access.{Plan, Settings, Account}
use micro_saas_api.Billing.ManualPayments.Expiry.{
  waits, is_other_pending, settle_account, expire_found, is_open, expire_submission,
}
use micro_saas_api.Billing.ManualPayments.{
  expire_row, turn_down, activate, Product, platform, website, same_product, Submission, Ledger,
  PaymentError, Outcome, is_approved, is_conflict, approve_row, reject_row, reason_of,
}
use micro_saas_api.Billing.ManualPayments.Calls.{
  SubmitFate, no_proof, no_token, no_account, submitted, RejectFate, not_decided, not_recorded,
  recorded, set_token, update_account, Submit, checked, load_pending, load_approvable,
  finish_submit, submit_manual_payment, finish_approval, approve_submission, finish_rejection,
  reject_submission, update_submission,
}
use micro_saas_api.Billing.ManualPayments.Once.{IsOnce, IsOnce-append, IsOnce-update}

pub same_product_refl : (p : Product) → same_product p p ≡ true
same_product_refl platform = refl
same_product_refl website = refl

-- A submission that conflicts with no other is alone with its transaction id.
no_conflict-alone :
    (p b : Submission)
    → is_conflict p b ≡ false
    → p.product ≡ b.product
    → p.utr ≡ b.utr
    → is_approved b.status ≡ true
    → (b.id == p.id) ≡ true
no_conflict-alone p b h ep eu sb =
    let sp : same_product b.product p.product ≡ true =
      subst (λ z. same_product z p.product ≡ true) ep (same_product_refl p.product) in
    let su : same_text b.utr p.utr ≡ true =
      subst (λ z. same_text z p.utr ≡ true) eu (same_text_refl p.utr) in
    ground (arith, h, sp, su, sb)

module _ (db : Client) where
  abbrev AllOnce : Ledger → Type 0
  AllOnce l = IsOnce l.submissions

  checked-AllOnce {ℓ} :
      {A : Type ℓ} (r : Result PaymentError A) (l : Ledger) (go : A → Outcome)
      → AllOnce l
      → ((a : A) → r ≡ ok a → AllOnce (go a).ledger)
      → AllOnce (checked r l go).ledger
  unfolding checked
  checked-AllOnce (err e) l go h k = h
  checked-AllOnce (ok a) l go h k = k a refl

  update_submission-AllOnce :
      (id : ℕ) (f : Submission → Submission) (l : Ledger)
      → IsOnce (update_rows (λ p. p.id == id) f l.submissions)
      → AllOnce (update_submission db id f l)
  update_submission-AllOnce id f l h =
      subst IsOnce (sym (db.update_many_rows (λ p. p.id == id) f l.submissions)) h

  pub load_pending-listed :
      (id : ℕ) (l : Ledger)
      → Ends (λ (p : Submission). Member p l.submissions) (load_pending db id l)
  unfolding load_pending
  load_pending-listed id l = Ends-bind λ p found.
      Ends-bind λ _ _. answers (db.find_first-some _ l.submissions p (or_throw-ok _ _ found)).1

  pub load_approvable-clear :
      (id : ℕ) (l : Ledger)
      → Ends
          (λ (p : Submission).
            Member p l.submissions × All (λ b. is_conflict p b ≡ false) l.submissions)
          (load_approvable db id l)
  unfolding load_approvable
  load_approvable-clear id l = Ends-then (load_pending-listed id l) λ p listed. Ends-bind λ _ clear.
      answers (listed, any-eq-false _ l.submissions (ground (arith, require-ok _ _ clear)))

  approve_submission-AllOnce :
      (period_end : Plan → ℕ) (admin now : ℕ) (txn : Option ℕ) (id : ℕ) (l : Ledger)
      → AllOnce l
      → AllOnce (approve_submission db period_end admin now txn id l).ledger
  unfolding approve_submission finish_approval
  approve_submission-AllOnce period_end admin now none id l h =
      checked-AllOnce (load_approvable db id l) l _ h (λ p loaded. h)
  approve_submission-AllOnce period_end admin now (some t) id l h =
      checked-AllOnce (load_approvable db id l) l _ h λ p loaded.
        let (listed, clear) = Ends-ok (load_approvable-clear id l) loaded in
        update_submission-AllOnce p.id (approve_row admin now)
          (update_account db p.user_id (activate p.product p.plan (period_end p.plan)) l)
          (IsOnce-update p.id (approve_row admin now) l.submissions h
            (record { keeps_id = λ a. refl; keeps_product = λ a. refl; keeps_utr = λ a. refl })
            (λ a b ma mb pa pb sa sb ep eu.
              let same : a ≡ p =
                IsKey-unique (λ (q : Submission). q.id) l.submissions h.keys ma listed
                  (ground (arith, pa)) in
              absurd (
                cc (
                  no_conflict-alone p b (All-Member _ l.submissions clear mb)
                    (ap (λ z. z.product) (sym same) ∙ ep) (ap (λ z. z.utr) (sym same) ∙ eu) sb))))

  reject_submission-AllOnce :
      (default : Text) (admin now : ℕ) (fate : RejectFate) (reason : Text) (id : ℕ) (l : Ledger)
      → AllOnce l
      → AllOnce (reject_submission db default admin now fate reason id l).ledger
  unfolding reject_submission finish_rejection
  reject_submission-AllOnce default admin now fate reason id l h =
      checked-AllOnce (load_pending db id l) l _ h λ p loaded. finished fate _ _ h (
        update_submission-AllOnce p.id (reject_row admin now (reason_of default reason))
          (update_account db p.user_id (turn_down p.product p.plan now) l)
          (IsOnce-update p.id (reject_row admin now (reason_of default reason)) l.submissions h
            (record { keeps_id = λ a. refl; keeps_product = λ a. refl; keeps_utr = λ a. refl })
            (λ a b ma mb pa pb sa sb ep eu. cc)))
    where
      finished :
          (f : RejectFate) (decide : Ledger → Ledger) (m : Ledger)
          → AllOnce m
          → AllOnce (decide m)
          → AllOnce (finish_rejection db f decide m).ledger
      finished not_decided decide m k d = k
      finished not_recorded decide m k d = d
      finished recorded decide m k d = d

  submit_manual_payment-AllOnce :
      (s : Settings) (price : Product → Plan → ℕ) (now fresh_id : ℕ) (fate : SubmitFate)
      (r : Submit) (l : Ledger)
      → All (λ (p : Submission). p.id ≢ fresh_id) l.submissions
      → AllOnce l
      → AllOnce (submit_manual_payment db s price now fresh_id fate r l).ledger
  unfolding submit_manual_payment finish_submit
  submit_manual_payment-AllOnce s price now fresh_id fate r l fresh h =
      checked-AllOnce _ l _ h λ utr _. finished fate _ (IsOnce-append l.submissions _ h fresh refl)
    where
      attached :
          (token : ℕ) (m : Ledger)
          → AllOnce m
          → AllOnce (update_submission db fresh_id (set_token token) m)
      attached token m k = update_submission-AllOnce fresh_id _ m (
          IsOnce-update fresh_id (set_token token) m.submissions k
            (record { keeps_id = λ a. refl; keeps_product = λ a. refl; keeps_utr = λ a. refl })
            (λ a b ma mb pa pb sa sb ep eu. k.once a b ma mb sa sb ep eu))

      finished :
          (f : SubmitFate) (m : Ledger)
          → AllOnce m
          → AllOnce (finish_submit db fresh_id r f m).ledger
      finished no_proof m k = k
      finished no_token m k = k
      finished (no_account t) m k = attached t m k
      finished (submitted t) m k = attached t m k

  pub settle_account-submissions :
      (now : ℕ) (p : Submission) (u : Account) (l : Ledger)
      → (settle_account db now p u l).submissions ≡ l.submissions
  settle_account-submissions now p u l = elim (Bool-cases (waits p.product u)) [
    | inr e ↦ rw e refl
    | inl e ↦ elim (Bool-cases (length (filter (is_other_pending p) l.submissions) == 0)) [
      | inl z ↦ rw (e, z) refl
      | inr z ↦ rw (e, z) refl
    ]
  ]

  expire_submission-AllOnce :
      (now : ℕ) (product : Product) (id : ℕ) (l : Ledger)
      → AllOnce l
      → AllOnce (expire_submission db now product id l).1
  unfolding expire_submission expire_found
  expire_submission-AllOnce now product id l h =
      elim (Option-cases (db.find_first (is_open product id) l.submissions)) [
        | inl n ↦ rw n h
        | inr (p, f) ↦
            elim (Option-cases (db.find_first (λ (u : Account). u.id == p.user_id) l.accounts)) [
              | inl n ↦ rw (f, n) h
              | inr (u, g) ↦
                  rw (f, g)
                    (subst IsOnce
                      (sym (
                        settle_account-submissions now p u
                          (update_submission db p.id expire_row l)))
                      (update_submission-AllOnce p.id expire_row l (
                        IsOnce-update p.id expire_row l.submissions h
                          (record {
                            keeps_id = λ a. refl;
                            keeps_product = λ a. refl;
                            keeps_utr = λ a. refl;
                          })
                          (λ a b ma mb pa pb sa sb ep eu. cc))))
            ]
      ]

  -- A call of an operation, whatever it answers. The key of a new row belongs to no other.
  pub data Step (l : Ledger) : Ledger → Type 0 where
    submits :
        (s : Settings) (price : Product → Plan → ℕ) (now fresh_id : ℕ) (fate : SubmitFate)
        (r : Submit)
        → All (λ (p : Submission). p.id ≢ fresh_id) l.submissions
        → Step l (submit_manual_payment db s price now fresh_id fate r l).ledger
    approves :
        (period_end : Plan → ℕ) (admin now : ℕ) (txn : Option ℕ) (id : ℕ)
        → Step l (approve_submission db period_end admin now txn id l).ledger
    rejects :
        (default : Text) (admin now : ℕ) (fate : RejectFate) (reason : Text) (id : ℕ)
        → Step l (reject_submission db default admin now fate reason id l).ledger
    expires :
        (now : ℕ) (product : Product) (id : ℕ) → Step l (expire_submission db now product id l).1

  -- Any sequence of calls.
  pub data Reach (l : Ledger) : Ledger → Type 0 where
    start : Reach l l
    next : {m n : Ledger} → Reach l m → Step m n → Reach l n

  -- Whatever is submitted, approved, rejected and expired, in whatever order and whichever write of a
  -- call fails: no transaction id of a product comes to be approved on two submissions.
  pub Reach-IsOnce : (l m : Ledger) → IsOnce l.submissions → Reach l m → IsOnce m.submissions
  Reach-IsOnce l m h start = h
  Reach-IsOnce l m h (next r (submits s price now fresh_id proof q fresh)) =
      submit_manual_payment-AllOnce s price now fresh_id proof q _ fresh (Reach-IsOnce l _ h r)
  Reach-IsOnce l m h (next r (approves period_end admin now txn id)) =
      approve_submission-AllOnce period_end admin now txn id _ (Reach-IsOnce l _ h r)
  Reach-IsOnce l m h (next r (rejects default admin now txn reason id)) =
      reject_submission-AllOnce default admin now txn reason id _ (Reach-IsOnce l _ h r)
  Reach-IsOnce l m h (next r (expires now product id)) =
      expire_submission-AllOnce now product id _ (Reach-IsOnce l _ h r)
