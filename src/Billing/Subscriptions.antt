-- ===== src/Billing/Subscriptions.antt =====
-- billing.service.ts: the subscription that a tenant pays through Razorpay, and the transactions.
-- Razorpay's client and the HMAC of Node are parameters; prices are whole rupees.
pub mod Calls
pub mod Create
pub mod Events
pub mod Branches
pub mod Payments
pub mod Paid
pub mod Others
pub mod Checkout
pub mod Samples
pub mod Tests
use micro_saas_api.Base.{
  ℕ, Bool, true, false, ◌&&◌, ◌||◌, List, [], ◌∷◌, ◌++◌, Option, none, some, if◌then◌else◌, ◌==◌,
  Result, ok, err, or_throw,
}
use micro_saas_api.Text.{Text, codes, same_text, to_lower, includes}
use micro_saas_api.Database.{Client}
use micro_saas_api.Billing.Access.{Plan, monthly, yearly, Account, Settings}
use micro_saas_api.Billing.ManualPayments.{Product}

-- A user: what Access reads of it, and the columns of Razorpay.
pub record Tenant : Type 0 where
  pub account : Account
  pub customer_id : Option Text
  pub subscription_id : Option Text

-- BillingTransaction, without its key, currency, metadata and time.
pub record Transaction : Type 0 where
  pub user_id : ℕ
  pub product : Product
  pub event_type : Text
  pub payment_id : Option Text
  pub subscription_id : Option Text
  pub plan : Option Plan
  pub amount_inr : ℕ
  pub status : Text

pub record Books : Type 0 where
  pub tenants : List Tenant
  pub transactions : List Transaction

-- What Razorpay's client throws.
pub record GatewayError : Type 0 where
  pub status_code : Option ℕ
  pub code : Text
  pub description : Option Text

-- `payments.fetch`: an amount in paise.
pub record Payment : Type 0 where
  pub amount : ℕ
  pub status : Option Text

-- Razorpay's answers to the calls of one request. The two fetches answer with none when they throw,
-- and the time that a subscription is paid up to is in seconds.
pub record Gateway : Type 0 where
  pub create_customer : Account → Result GatewayError Text
  pub create_subscription : (plan_id customer_id : Text) (user_id : ℕ) → Result GatewayError Text
  pub cancel : Text → Result GatewayError (Unit {0})
  pub fetch_payment : Text → Option Payment
  pub fetch_period_end : Text → Option ℕ

-- The environment, each variable trimmed, empty where it is not set. `period_end` is estimatePeriodEnd,
-- which reads the calendar.
pub record Config : Type 0 where
  pub settings : Settings
  pub upi_only : Bool
  pub key_id : Text
  pub key_secret : Text
  pub plan_monthly : Text
  pub plan_yearly : Text
  pub webhook_secret : Text
  pub monthly_price : ℕ
  pub yearly_price : ℕ
  pub period_end : Plan → ℕ

pub data SubscriptionError : Type 0 where
  billing_disabled checkout_disabled payments_unconfigured user_not_found : SubscriptionError
  already_subscribed invalid_signature other_subscription not_subscribed : SubscriptionError
  gateway_failed : GatewayError → SubscriptionError

-- A method writes as it goes: one that throws leaves what it has written.
pub record Outcome {ℓ κ} (E : Type κ) (A : Type ℓ) : Type (ℓ ⊔ κ) where
  pub answer : Result E A
  pub books : Books

abbrev pub refuse {ℓ κ} : {E : Type κ} {A : Type ℓ} → E → Books → Outcome E A
refuse e b = record { answer = err e; books = b }

abbrev pub done {ℓ κ} : {E : Type κ} {A : Type ℓ} → A → Books → Outcome E A
done a b = record { answer = ok a; books = b }

-- Goes on after a step that did not throw.
unfoldable pub after {ℓ κ μ} :
    {E : Type μ} {A : Type ℓ} {B : Type κ} → Result E A → Books → (A → Outcome E B) → Outcome E B
after (err e) b go = refuse e b
after (ok a) b go = go a

-- A string that is there and not empty.
abbrev pub given : Option Text → Option Text
given (some (c ∷ s)) = some (c ∷ s)
given _ = none

abbrev pub is_set : Text → Bool
is_set [] = false
is_set (c ∷ s) = true

-- `a ?? b`
abbrev pub or_else {ℓ} : {A : Type ℓ} → Option A → Option A → Option A
or_else (some a) b = some a
or_else none b = b

abbrev pub or_default {ℓ} : {A : Type ℓ} → Option A → A → A
or_default (some a) b = a
or_default none b = b

-- The condition of a `where` on a nullable column.
abbrev pub holds_text : Text → Option Text → Bool
holds_text s none = false
holds_text s (some t) = same_text t s

-- `user.subscriptionPlan ?? 'monthly'`
abbrev pub plan_or_monthly : Option Plan → Plan
plan_or_monthly p = or_default p monthly

abbrev pub price_inr : Config → Plan → ℕ
price_inr c monthly = c.monthly_price
price_inr c yearly = c.yearly_price

-- getRazorpay gives a client.
abbrev pub has_client : Config → Bool
has_client c = is_set c.key_id && is_set c.key_secret

-- isRazorpayConfigured
abbrev pub is_configured : Config → Bool
is_configured c =
    is_set c.key_id && is_set c.key_secret && is_set c.plan_monthly && is_set c.plan_yearly

abbrev plan_variable : Config → Plan → Text
plan_variable c monthly = c.plan_monthly
plan_variable c yearly = c.plan_yearly

-- planId, whose own exception has none of the fields of Razorpay's.
abbrev pub plan_id : Config → Plan → Result GatewayError Text
plan_id c plan =
    if is_set (plan_variable c plan)
    then ok (plan_variable c plan)
    else err (record { status_code = none; code = []; description = none })

abbrev is_status : ℕ → Option ℕ → Bool
is_status n none = false
is_status n (some m) = m == n

-- isRazorpayRetryableCustomerError
unfoldable pub is_retryable : GatewayError → Bool
is_retryable e =
    let text = to_lower (or_default e.description []) in
    is_status 400 e.status_code
    && same_text e.code (codes "BAD_REQUEST_ERROR")
    && (includes text (codes "customer") || includes text (codes "id provided is invalid"))

-- verifySubscriptionSignature
unfoldable pub verify_subscription_signature :
    (Text → Text → Text) → Config → (payment_id subscription_id signature : Text) → Bool
verify_subscription_signature hmac c payment_id subscription_id signature =
    is_set c.key_secret
    && same_text (hmac c.key_secret (payment_id ++ codes "|" ++ subscription_id)) signature

-- verifyWebhookSignature
unfoldable pub verify_webhook_signature :
    (Text → Text → Text) → Config → (body signature : Text) → Bool
verify_webhook_signature hmac c body signature =
    is_set c.webhook_secret && same_text (hmac c.webhook_secret body) signature

module _ (db : Client) where
  unfoldable pub find_tenant : ℕ → Books → Option Tenant
  find_tenant id b = db.find_first (λ (t : Tenant). t.account.id == id) b.tenants

  -- getUser
  abbrev pub get_user : ℕ → Books → Result SubscriptionError Tenant
  get_user id b = or_throw (find_tenant id b) user_not_found

  unfoldable pub update_tenant : ℕ → (Tenant → Tenant) → Books → Books
  update_tenant id f b = record b {
    tenants = (db.update_many (λ (t : Tenant). t.account.id == id) f b.tenants).0;
  }

  abbrev add_transaction : Transaction → Books → Books
  add_transaction r b = record b { transactions = b.transactions ++ r ∷ [] }

  abbrev unless_recorded : Option Transaction → Transaction → Books → Books
  unless_recorded none r b = add_transaction r b
  unless_recorded (some old) r b = b

  abbrev record_payment : Option Text → Transaction → Books → Books
  record_payment none r b = add_transaction r b
  record_payment (some p) r b =
      unless_recorded
        (db.find_first (λ (t : Transaction). holds_text p t.payment_id) b.transactions) r b

  -- recordTransaction
  unfoldable pub record_transaction : Transaction → Books → Books
  record_transaction r b = record_payment (given r.payment_id) r b
