-- ===== src/Billing/ManualPayments.antt =====
-- modules/billing/manual-payment.service.ts: a tenant pays by UPI and submits the transaction id with
-- a screenshot, and an admin approves or rejects it. The writes of a method are not in a transaction,
-- so a method that throws half way answers with the tables as they are then. One whose first write
-- fails leaves them, as one that is refused does; what follows the last write is left out.
pub mod Calls
pub mod Once
pub mod Reach
pub mod Paid
pub mod Expiry
pub mod Backed
pub mod Stale
pub mod Tests
use micro_saas_api.Base.{
  ℕ, Bool, true, false, not, ◌&&◌, ◌||◌, List, [], ◌∷◌, Option, none, some, if◌then◌else◌, length,
  filter, all, ltb, leb, ◌==◌, Result, ok, err,
}
use micro_saas_api.Text.{Text, trim, is_space, is_digit, same_text, take}
use micro_saas_api.Database.{Client}
use micro_saas_api.Billing.Lifecycle.{Status, trial, active, expired, pending_verification, other}
use micro_saas_api.Billing.Access.{Plan, Account, Settings, resolve_status, resolve_website_status}

-- BillingProduct. The table has submissions for other products too, which these methods do not find.
pub data Product : Type 0 where
  platform website : Product

abbrev pub same_product : Product → Product → Bool
same_product platform platform = true
same_product website website = true
same_product _ _ = false

pub data SubmissionStatus : Type 0 where
  pending approved rejected lapsed : SubmissionStatus

abbrev pub is_pending : SubmissionStatus → Bool
is_pending pending = true
is_pending _ = false

abbrev pub is_approved : SubmissionStatus → Bool
is_approved approved = true
is_approved _ = false

-- PaymentSubmission
pub record Submission : Type 0 where
  pub id : ℕ
  pub user_id : ℕ
  pub product : Product
  pub plan : Plan
  pub amount_inr : ℕ
  pub utr : Text
  pub screenshot_token : Option ℕ
  pub status : SubmissionStatus
  pub rejection_reason : Option Text
  pub reviewed_by : Option ℕ
  pub reviewed_at : Option ℕ
  pub created_at : ℕ

pub record Ledger : Type 0 where
  pub accounts : List Account
  pub submissions : List Submission

pub data PaymentError : Type 0 where
  billing_disabled website_disabled upi_disabled upi_unconfigured invalid_utr no_screenshot :
      PaymentError
  screenshot_too_big user_not_found already_active under_review duplicate_utr : PaymentError
  submission_not_found utr_approved_before proof_failed write_failed transaction_failed :
      PaymentError
  already_decided : SubmissionStatus → PaymentError

pub record Outcome : Type 0 where
  pub answer : Result PaymentError (Unit {0})
  pub ledger : Ledger

-- `/[A-Za-z0-9]/`
abbrev pub is_alphanumeric : ℕ → Bool
is_alphanumeric c = is_digit c || leb b'A' c && leb c b'Z' || leb b'a' c && leb c b'z'

-- `upiTransactionId.trim().replace(/\s+/g, '')`
abbrev pub utr_of : Text → Text
utr_of s = filter (λ c. not (is_space c)) (trim s)

-- `/^[A-Za-z0-9]{8,64}$/`
abbrev pub is_utr : Text → Bool
is_utr s = all is_alphanumeric s && leb 8 (length s) && leb (length s) 64

-- `reason.trim().slice(0, 500) || 'Payment could not be verified.'`
abbrev pub reason_of : Text → Text → Text
reason_of default reason = elim (take 500 (trim reason)) [ [] ↦ default | c ∷ s ↦ c ∷ s ]

abbrev pub require_not_busy : Status → Result PaymentError (Unit {0})
require_not_busy active = err already_active
require_not_busy pending_verification = err under_review
require_not_busy _ = ok tt

abbrev pub current_status : Settings → Product → Account → ℕ → Status
current_status s platform u now = (resolve_status s u now).status
current_status s website u now = (resolve_website_status s u now).status

-- `where` of the duplicates that `submitManualPayment` looks for.
abbrev pub is_duplicate : Product → Text → Submission → Bool
is_duplicate product utr p =
    same_product p.product product
    && same_text p.utr utr
    && (is_pending p.status || is_approved p.status)

-- `where` of the conflict that `approveSubmission` looks for.
abbrev pub is_conflict : Submission → Submission → Bool
is_conflict s p =
    same_product p.product s.product
    && same_text p.utr s.utr
    && is_approved p.status
    && not (p.id == s.id)

abbrev pub await_verification : Product → Plan → Account → Account
await_verification platform plan u = record u { status = pending_verification; plan = some plan }
await_verification website plan u = record u {
  website_status = pending_verification;
  website_plan = some plan;
}

abbrev pub activate : Product → Plan → ℕ → Account → Account
activate platform plan end u = record u {
  status = active;
  plan = some plan;
  period_end = some end;
  cancel_at_period_end = false;
}
activate website plan end u = record u {
  website_status = active;
  website_plan = some plan;
  website_period_end = some end;
}

-- What a rejection does to the account; the trial is the account's own.
abbrev pub turn_down : Product → Plan → ℕ → Account → Account
turn_down platform plan now u = record u {
  status = if ltb now u.trial_ends_at then trial else expired;
  plan = if ltb now u.trial_ends_at then none else some plan;
  period_end = none;
}
turn_down website plan now u = record u {
  website_status = if ltb now u.trial_ends_at then other "none" else expired;
  website_plan = none;
  website_period_end = none;
}

abbrev pub approve_row : ℕ → ℕ → Submission → Submission
approve_row admin now p = record p {
  status = approved;
  reviewed_by = some admin;
  reviewed_at = some now;
}

abbrev pub reject_row : ℕ → ℕ → Text → Submission → Submission
reject_row admin now reason p = record p {
  status = rejected;
  rejection_reason = some reason;
  reviewed_by = some admin;
  reviewed_at = some now;
}

abbrev pub expire_row : Submission → Submission
expire_row p = record p { status = lapsed }
