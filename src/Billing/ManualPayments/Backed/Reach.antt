-- ===== src/Billing/ManualPayments/Backed/Reach.antt =====
-- manual-payment.service.ts and manual-payment-expiry.service.ts: nobody waits in vain.
use micro_saas_api.Database.{Client}
use micro_saas_api.Billing.ManualPayments.{Ledger}
use micro_saas_api.Billing.ManualPayments.Reach.{
  Reach, start, next, submits, approves, rejects, expires,
}
use micro_saas_api.Billing.ManualPayments.Backed.{IsBacked}
use micro_saas_api.Billing.ManualPayments.Backed.Calls.{
  approve_submission-IsBacked, reject_submission-IsBacked,
}
use micro_saas_api.Billing.ManualPayments.Backed.Expires.{expire_submission-IsBacked}
use micro_saas_api.Billing.ManualPayments.Backed.Submits.{submit_manual_payment-IsBacked}

module _ (db : Client) where
  -- From tables with their keys, in which an account that waits for the verification of a product's
  -- payment has a pending submission for that product: whatever is submitted, approved, rejected and
  -- expired then, in whatever order and whichever write of a call fails, the tables are such again.
  pub Reach-IsBacked : (l m : Ledger) → IsBacked l → Reach db l m → IsBacked m
  Reach-IsBacked l m h start = h
  Reach-IsBacked l m h (next r (submits s price now fresh_id proof q fresh)) =
      submit_manual_payment-IsBacked db s price now fresh_id proof q _ fresh
        (Reach-IsBacked l _ h r)
  Reach-IsBacked l m h (next r (approves period_end admin now txn id)) =
      approve_submission-IsBacked db period_end admin now txn id _ (Reach-IsBacked l _ h r)
  Reach-IsBacked l m h (next r (rejects default admin now txn reason id)) =
      reject_submission-IsBacked db default admin now txn reason id _ (Reach-IsBacked l _ h r)
  Reach-IsBacked l m h (next r (expires now product id)) =
      expire_submission-IsBacked db now product id _ (Reach-IsBacked l _ h r)
