-- ===== src/Billing/Subscriptions/Samples.antt =====
-- billing.service.ts: tenants, a configuration and answers of Razorpay to test with.
use micro_saas_api.Base.{ℕ, true, false, [], ◌∷◌, ◌++◌, Option, none, some, if◌then◌else◌, ok, err}
use micro_saas_api.Text.{Text, codes, same_text}
use micro_saas_api.Billing.Lifecycle.{Status, expired}
use micro_saas_api.Billing.Access.{monthly, yearly, Account}
use micro_saas_api.Billing.Subscriptions.{Tenant, Books, Gateway, Config}
use micro_saas_api.Billing.Subscriptions.Events.{Entity, WebhookBody}

abbrev pub account : ℕ → Status → Option ℕ → Account
account id status end = record {
  id = id;
  email = "a@b.c";
  trial_ends_at = 0;
  status = status;
  plan = some monthly;
  period_end = end;
  cancel_at_period_end = false;
  website_status = expired;
  website_plan = none;
  website_period_end = none;
}

abbrev pub tenant : ℕ → Status → Option ℕ → Option Text → Tenant
tenant id status end subscription = record {
  account = account id status end;
  customer_id = some (codes "cust_1");
  subscription_id = subscription;
}

abbrev pub config : Config
config = record {
  settings = record {
    enabled = true;
    website_enabled = false;
    upi_enabled = false;
    upi_configured = false;
    is_super_admin = λ s. false;
  };
  upi_only = false;
  key_id = codes "id";
  key_secret = codes "secret";
  plan_monthly = codes "m";
  plan_yearly = codes "y";
  webhook_secret = codes "hook";
  monthly_price = 99;
  yearly_price = 999;
  period_end = λ plan. 5000;
}

-- Razorpay: the customer `cust_1` is unknown to it.
abbrev pub gateway : Gateway
gateway = record {
  create_customer = λ u. ok (codes "cust_2");
  create_subscription = λ plan customer id.
      if same_text customer (codes "cust_1")
      then err (record {
        status_code = some 400;
        code = codes "BAD_REQUEST_ERROR";
        description = some (codes "The id provided is invalid");
      })
      else ok (codes "sub_1");
  cancel = λ s. ok tt;
  fetch_payment = λ p. some (record { amount = 9950; status = none });
  fetch_period_end = λ s. some 4;
}

abbrev pub hmac : Text → Text → Text
hmac secret text = secret ++ text

abbrev pub no_entity : Entity
no_entity = record {
  id = none;
  subscription_id = none;
  notes = none;
  current_end = none;
  amount = none;
  status = none;
}

-- An event on the subscription, noted for user 7, with a payment.
abbrev pub event_on : Text → Option ℕ → WebhookBody
event_on subscription end = record {
  subscription = some (record no_entity {
    id = some subscription;
    notes = some (record { product = none; user_id = some 7; plan = some yearly });
    current_end = end;
  });
  payment = some (record no_entity { id = some (codes "pay_1"); amount = some 99900 });
  entity = none;
  itself = no_entity;
}

abbrev pub new_tenant : Books
new_tenant = record { tenants = tenant 7 expired none none ∷ []; transactions = [] }
