-- ===== src/Billing/ManualPayments/Calls.antt =====
-- manual-payment.service.ts: submitManualPayment, approveSubmission and rejectSubmission.
use micro_saas_api.Base.{
  ℕ, Bool, true, false, not, ◌||◌, [], ◌∷◌, ◌++◌, Option, none, some, any, leb, ◌==◌, Result, ok,
  err, ◌>>=◌, ◌>>◌, require, or_throw,
}
use micro_saas_api.Text.{Text}
use micro_saas_api.Database.{Client}
use micro_saas_api.Billing.Access.{Plan, Account, Settings}
use micro_saas_api.Billing.ManualPayments.{
  Product, platform, website, pending, Submission, Ledger, PaymentError, Outcome, billing_disabled,
  website_disabled, upi_disabled, upi_unconfigured, invalid_utr, no_screenshot, screenshot_too_big,
  user_not_found, duplicate_utr, submission_not_found, utr_approved_before, proof_failed,
  write_failed, transaction_failed, already_decided, is_pending, utr_of, is_utr, reason_of,
  require_not_busy, current_status, is_duplicate, is_conflict, await_verification, activate,
  turn_down, approve_row, reject_row,
}

-- The arguments of `submitManualPayment`; of the screenshot its size is read.
pub record Submit : Type 0 where
  pub user_id : ℕ
  pub plan : Plan
  pub utr : Text
  pub file_size : ℕ
  pub product : Product

abbrev pub wants_website : Product → Bool
wants_website website = true
wants_website platform = false

abbrev pub refuse : PaymentError → Ledger → Outcome
refuse e l = record { answer = err e; ledger = l }

abbrev pub done : Ledger → Outcome
done l = record { answer = ok tt; ledger = l }

-- Goes on after checks that write nothing.
unfoldable pub checked {ℓ} : {A : Type ℓ} → Result PaymentError A → Ledger → (A → Outcome) → Outcome
checked (err e) l go = refuse e l
checked (ok a) l go = go a

-- How far the writes of `submitManualPayment` come once its row is created: the screenshot cannot be
-- stored, or its token or the account not be written, or all goes well.
pub data SubmitFate : Type 0 where
  no_proof no_token : SubmitFate
  no_account submitted : (token : ℕ) → SubmitFate

-- How far the writes of `rejectSubmission` come once the account is written: the submission cannot be
-- written, or the transaction not be recorded, or all goes well.
pub data RejectFate : Type 0 where
  not_decided not_recorded recorded : RejectFate

abbrev pub set_token : ℕ → Submission → Submission
set_token token p = record p { screenshot_token = some token }

module _ (db : Client) where
  -- An update of the rows with a key.
  abbrev pub update_account : ℕ → (Account → Account) → Ledger → Ledger
  update_account id f l = record l {
    accounts = (db.update_many (λ (u : Account). u.id == id) f l.accounts).0;
  }

  abbrev pub update_submission : ℕ → (Submission → Submission) → Ledger → Ledger
  update_submission id f l = record l {
    submissions = (db.update_many (λ (p : Submission). p.id == id) f l.submissions).0;
  }

  -- The checks of `submitManualPayment`, which give the transaction id as it is kept.
  unfoldable pub check_submit : Settings → ℕ → Submit → Ledger → Result PaymentError Text
  check_submit s now r l = do
    require s.enabled billing_disabled
    require (not (wants_website r.product) || s.website_enabled) website_disabled
    require s.upi_enabled upi_disabled
    require s.upi_configured upi_unconfigured
    let utr = utr_of r.utr
    require (is_utr utr) invalid_utr
    require (not (r.file_size == 0)) no_screenshot
    require (leb r.file_size 5242880) screenshot_too_big
    user ← or_throw (db.find_first (λ (u : Account). u.id == r.user_id) l.accounts) user_not_found
    require_not_busy (current_status s r.product user now)
    require (not (any (is_duplicate r.product utr) l.submissions)) duplicate_utr
    ok utr

  -- The row that is created. `fresh_id` is the key that the database gives it.
  abbrev pub new_submission : ℕ → ℕ → ℕ → Submit → Text → Submission
  new_submission now fresh_id amount r utr = record {
    id = fresh_id;
    user_id = r.user_id;
    product = r.product;
    plan = r.plan;
    amount_inr = amount;
    utr = utr;
    screenshot_token = none;
    status = pending;
    rejection_reason = none;
    reviewed_by = none;
    reviewed_at = none;
    created_at = now;
  }

  -- After the row is there: the screenshot is stored, its token is written, and the account waits.
  unfoldable pub finish_submit : ℕ → Submit → SubmitFate → Ledger → Outcome
  finish_submit fresh_id r no_proof l = refuse proof_failed l
  finish_submit fresh_id r no_token l = refuse write_failed l
  finish_submit fresh_id r (no_account token) l =
      refuse write_failed (update_submission fresh_id (set_token token) l)
  finish_submit fresh_id r (submitted token) l = done (
      update_account r.user_id (await_verification r.product r.plan)
        (update_submission fresh_id (set_token token) l))

  unfoldable pub submit_manual_payment :
      Settings → (Product → Plan → ℕ) → ℕ → ℕ → SubmitFate → Submit → Ledger → Outcome
  submit_manual_payment s price now fresh_id fate r l = checked (check_submit s now r l) l λ utr.
      finish_submit fresh_id r fate (record l {
        submissions =
            l.submissions ++ new_submission now fresh_id (price r.product r.plan) r utr ∷ [];
      })

  -- A submission that is still pending.
  unfoldable pub load_pending : ℕ → Ledger → Result PaymentError Submission
  load_pending id l = do
    p ← or_throw (db.find_first (λ (p : Submission). p.id == id) l.submissions) submission_not_found
    require (is_pending p.status) (already_decided p.status)
    ok p

  unfoldable pub load_approvable : ℕ → Ledger → Result PaymentError Submission
  load_approvable id l = do
    p ← load_pending id l
    require (not (any (is_conflict p) l.submissions)) utr_approved_before
    ok p

  -- The transaction is recorded after the account is active, and before the submission is approved;
  -- `none` where either cannot be written.
  unfoldable pub finish_approval : ℕ → ℕ → Option ℕ → Submission → Ledger → Outcome
  finish_approval admin now none p l = refuse transaction_failed l
  finish_approval admin now (some txn) p l = done (update_submission p.id (approve_row admin now) l)

  unfoldable pub approve_submission : (Plan → ℕ) → ℕ → ℕ → Option ℕ → ℕ → Ledger → Outcome
  approve_submission period_end admin now txn id l = checked (load_approvable id l) l λ p.
      finish_approval admin now txn p
        (update_account p.user_id (activate p.product p.plan (period_end p.plan)) l)

  -- The account is written first, then the submission, then the transaction is recorded.
  unfoldable pub finish_rejection : RejectFate → (Ledger → Ledger) → Ledger → Outcome
  finish_rejection not_decided decide l = refuse write_failed l
  finish_rejection not_recorded decide l = refuse transaction_failed (decide l)
  finish_rejection recorded decide l = done (decide l)

  unfoldable pub reject_submission : Text → ℕ → ℕ → RejectFate → Text → ℕ → Ledger → Outcome
  reject_submission default admin now fate reason id l = checked (load_pending id l) l λ p.
      finish_rejection fate
        (update_submission p.id (reject_row admin now (reason_of default reason)))
        (update_account p.user_id (turn_down p.product p.plan now) l)
