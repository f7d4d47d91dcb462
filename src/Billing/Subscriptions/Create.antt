-- ===== src/Billing/Subscriptions/Create.antt =====
-- billing.service.ts: createSubscription, its checkout and its second attempt.
use micro_saas_api.Base.{
  ℕ, Bool, true, false, not, ◌&&◌, Option, none, some, if◌then◌else◌, Result, ok, err, ◌>>=◌, ◌>>◌,
  require,
}
use micro_saas_api.Text.{Text}
use micro_saas_api.Database.{Client}
use micro_saas_api.Billing.Lifecycle.{Status, active}
use micro_saas_api.Billing.Access.{Plan, resolve_status}
use micro_saas_api.Billing.Subscriptions.{
  Tenant, Books, GatewayError, Gateway, Config, SubscriptionError, billing_disabled,
  checkout_disabled, payments_unconfigured, already_subscribed, gateway_failed, Outcome, refuse,
  done, after, given, price_inr, has_client, is_configured, plan_id, is_retryable, get_user,
  update_tenant,
}

-- What the client of createSubscription is answered.
pub record Checkout : Type 0 where
  pub subscription_id : Text
  pub key_id : Text
  pub plan : Plan
  pub amount_inr : ℕ

abbrev is_active : Status → Bool
is_active active = true
is_active _ = false

abbrev pub is_given : Option Text → Bool
is_given none = false
is_given (some _) = true

abbrev pub set_customer : Text → Tenant → Tenant
set_customer c t = record t { customer_id = some c }

abbrev pub clear_customer : Tenant → Tenant
clear_customer t = record t { customer_id = none; subscription_id = none }

abbrev pub set_subscription : Text → Plan → Tenant → Tenant
set_subscription s plan t = record t {
  subscription_id = some s;
  account = record t.account { plan = some plan };
}

-- An attempt whose failure is final.
unfoldable pub or_fail : Result GatewayError Checkout → Books → Outcome SubscriptionError Checkout
or_fail (ok s) b = done s b
or_fail (err e) b = refuse (gateway_failed e) b

module _ (db : Client) where
  abbrev create_customer : Gateway → ℕ → Tenant → Books → Outcome GatewayError Text
  create_customer g id t b =
      after (g.create_customer t.account) b λ c. done c (update_tenant db id (set_customer c) b)

  -- The customer of the tenant, who is created where there is none.
  unfoldable pub ensure_customer :
      Option Text → Gateway → ℕ → Tenant → Books → Outcome GatewayError Text
  ensure_customer (some c) g id t b = done c b
  ensure_customer none g id t b = create_customer g id t b

  -- createSubscriptionCheckout
  unfoldable pub create_subscription_checkout :
      Config → Gateway → ℕ → Plan → Tenant → Books → Outcome GatewayError Checkout
  create_subscription_checkout c g id plan t b =
      let first = ensure_customer (given t.customer_id) g id t b in
      after first.answer first.books λ customer. after (plan_id c plan) first.books λ razorpay_plan.
        after (g.create_subscription razorpay_plan customer id) first.books λ s.
          done
            (record {
              subscription_id = s;
              key_id = c.key_id;
              plan = plan;
              amount_inr = price_inr c plan;
            })
            (update_tenant db id (set_subscription s plan) first.books)

  abbrev check_create : Config → ℕ → ℕ → Books → Result SubscriptionError Tenant
  check_create c now id b = do
    require c.settings.enabled billing_disabled
    require (not c.upi_only) checkout_disabled
    require (has_client c && is_configured c) payments_unconfigured
    t ← get_user db id b
    require (not (is_active (resolve_status c.settings t.account now).status)) already_subscribed
    ok t

  -- A second attempt with a new customer, after a first one that failed because of the old customer.
  abbrev retry_checkout : Config → Gateway → ℕ → Plan → Books → Outcome SubscriptionError Checkout
  retry_checkout c g id plan b =
      let cleared = update_tenant db id clear_customer b in
      after (get_user db id cleared) cleared λ t.
        let last = create_subscription_checkout c g id plan t cleared in
        or_fail last.answer last.books

  unfoldable pub first_attempt :
      Config
      → Gateway
      → ℕ
      → Plan
      → Tenant
      → Result GatewayError Checkout
      → Books
      → Outcome SubscriptionError Checkout
  first_attempt c g id plan t (ok s) b = done s b
  first_attempt c g id plan t (err e) b =
      let again = retry_checkout c g id plan b in
      if is_given (given t.customer_id) && is_retryable e
      then again
      else refuse (gateway_failed e) b

  -- createSubscription. The second gateway answers the calls of the second attempt.
  unfoldable pub create_subscription :
      Config → (g retry : Gateway) (now id : ℕ) → Plan → Books → Outcome SubscriptionError Checkout
  create_subscription c g retry now id plan b = after (check_create c now id b) b λ t.
      let first = create_subscription_checkout c g id plan t b in
      first_attempt c retry id plan t first.answer first.books
