-- ===== src/Billing/Subscriptions/Calls.antt =====
-- billing.service.ts: activateFromCheckout, cancelSubscription and recordManualTransaction. What
-- `getStatus` answers with at the end is `resolve_status` of Access.
use micro_saas_api.Base.{
  ℕ, zero, suc, ◌+◌, ◌*◌, ◌/◌, Bool, true, Option, none, some, if◌then◌else◌, Result, ok, err,
  ◌>>=◌, ◌>>◌, require, or_throw,
}
use micro_saas_api.Text.{Text, codes, same_text}
use micro_saas_api.Database.{Client}
use micro_saas_api.Billing.Lifecycle.{active}
use micro_saas_api.Billing.Access.{Plan}
use micro_saas_api.Billing.ManualPayments.{Product, platform}
use micro_saas_api.Billing.Subscriptions.{
  Tenant, Books, GatewayError, Payment, Gateway, Config, SubscriptionError, billing_disabled,
  payments_unconfigured, invalid_signature, other_subscription, not_subscribed, gateway_failed,
  Outcome, done, after, given, or_default, plan_or_monthly, price_inr, has_client,
  verify_subscription_signature, get_user, update_tenant, record_transaction,
}

-- The subscription is paid: what the checkout writes, which leaves a requested cancellation as it is.
abbrev pub activate_checkout : Text → Plan → ℕ → Tenant → Tenant
activate_checkout s plan end t = record t {
  subscription_id = some s;
  account = record t.account { status = active; plan = some plan; period_end = some end };
}

abbrev pub schedule_cancellation : Tenant → Tenant
schedule_cancellation t = record t { account = record t.account { cancel_at_period_end = true } }

-- `Math.round(paise / 100)`
abbrev pub rupees : ℕ → ℕ
rupees paise = (paise + 50) / 100

abbrev paid_amount : Config → Plan → Option Payment → ℕ
paid_amount c plan none = price_inr c plan
paid_amount c plan (some p) = rupees p.amount

abbrev pub captured : Text
captured = codes "captured"

abbrev paid_status : Option Payment → Text
paid_status none = captured
paid_status (some p) = or_default p.status captured

-- Seconds as they come from Razorpay, where 0 counts as absent.
abbrev pub from_seconds : Option ℕ → Option ℕ
from_seconds none = none
from_seconds (some zero) = none
from_seconds (some (suc n)) = some (suc n * 1000)

abbrev pub is_own : Option Text → Text → Bool
is_own none s = true
is_own (some t) s = same_text t s

abbrev or_gateway_failed : Result GatewayError (Unit {0}) → Result SubscriptionError (Unit {0})
or_gateway_failed (ok u) = ok u
or_gateway_failed (err e) = err (gateway_failed e)

-- What Razorpay answers, when there is a client.
abbrev with_client {ℓ} : {A : Type ℓ} → Config → Option A → Option A
with_client c answer = if has_client c then answer else none

-- fetchRazorpayPaymentDetails, as the client answers it.
abbrev pub fetch_payment_details : Config → Gateway → Text → Option Payment
fetch_payment_details c g payment_id = with_client c (g.fetch_payment payment_id)

-- fetchRazorpaySubscriptionPeriodEnd
abbrev pub fetch_subscription_end : Config → Gateway → Text → Option ℕ
fetch_subscription_end c g subscription_id =
    from_seconds (with_client c (g.fetch_period_end subscription_id))

module _ (db : Client) where
  -- The checks of activateFromCheckout.
  unfoldable pub check_activate :
      (Text → Text → Text)
      → Config
      → ℕ
      → (payment_id subscription_id signature : Text) → Books
      → Result SubscriptionError Tenant
  check_activate hmac c id payment_id subscription_id signature b = do
    require (verify_subscription_signature hmac c payment_id subscription_id signature)
        invalid_signature
    t ← get_user db id b
    require (is_own (given t.subscription_id) subscription_id) other_subscription
    ok t

  -- activateFromCheckout
  unfoldable pub activate_from_checkout :
      (Text → Text → Text)
      → Config
      → Gateway
      → ℕ
      → (payment_id subscription_id signature : Text) → Books
      → Outcome SubscriptionError (Unit {0})
  activate_from_checkout hmac c g id payment_id subscription_id signature b =
      after (check_activate hmac c id payment_id subscription_id signature b) b λ t.
        let plan = plan_or_monthly t.account.plan in
        let end = or_default (fetch_subscription_end c g subscription_id) (c.period_end plan) in
        let payment = fetch_payment_details c g payment_id in
        done tt (
          record_transaction db
            (record {
              user_id = id;
              product = platform;
              event_type = codes "checkout.activated";
              payment_id = some payment_id;
              subscription_id = some subscription_id;
              plan = some plan;
              amount_inr = paid_amount c plan payment;
              status = paid_status payment;
            })
            (update_tenant db id (activate_checkout subscription_id plan end) b))

  abbrev check_cancel : Config → ℕ → Books → Result SubscriptionError (Tenant × Text)
  check_cancel c id b = do
    require c.settings.enabled billing_disabled
    t ← get_user db id b
    s ← or_throw (given t.subscription_id) not_subscribed
    require (has_client c) payments_unconfigured
    ok (t, s)

  -- cancelSubscription
  unfoldable pub cancel_subscription :
      Config → Gateway → ℕ → Books → Outcome SubscriptionError (Unit {0})
  cancel_subscription c g id b = after (check_cancel c id b) b λ (t, s).
      after (or_gateway_failed (g.cancel s)) b λ _. done tt (
        record_transaction db
          (record {
            user_id = id;
            product = platform;
            event_type = codes "subscription.cancel_requested";
            payment_id = none;
            subscription_id = some s;
            plan = t.account.plan;
            amount_inr = 0;
            status = codes "cancel_scheduled";
          })
          (update_tenant db id schedule_cancellation b))

  -- recordManualTransaction
  abbrev pub record_manual_transaction :
      (user_id : ℕ) (event_type : Text)
      → Plan
      → (amount_inr : ℕ) (status : Option Text) → Option Product
      → Books
      → Books
  record_manual_transaction user_id event_type plan amount_inr status product b =
      record_transaction db
        (record {
          user_id = user_id;
          product = or_default product platform;
          event_type = event_type;
          payment_id = none;
          subscription_id = none;
          plan = some plan;
          amount_inr = amount_inr;
          status = or_default status captured;
        })
        b
