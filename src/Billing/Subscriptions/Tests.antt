-- ===== src/Billing/Subscriptions/Tests.antt =====
-- billing.service.ts: a tenant who subscribes, pays and cancels.
use micro_saas_api.Base.{
  ℕ, ◌≡◌, ◌<◌, ◌⊎◌, refl, true, false, List, [], ◌∷◌, none, some, length, Member, here, there,
  arith, ok, ◌>>=◌,
}
use micro_saas_api.Text.{Text, codes, same_text, includes, to_lower}
use micro_saas_api.Database.{list_client}
use micro_saas_api.Billing.Lifecycle.{active, cancelled, expired}
use micro_saas_api.Billing.Access.{monthly, resolve_status}
use micro_saas_api.Billing.Subscriptions.{
  Tenant, Books, refuse, given, find_tenant, update_tenant, verify_subscription_signature,
  record_transaction, after, is_retryable, holds_text, SubscriptionError,
}
use micro_saas_api.Billing.Subscriptions.Calls.{
  fetch_subscription_end, is_own, from_seconds, activate_from_checkout, check_activate,
  cancel_subscription,
}
use micro_saas_api.Billing.Subscriptions.Create.{
  create_subscription, create_subscription_checkout, ensure_customer, first_attempt, or_fail,
}
use micro_saas_api.Billing.Subscriptions.Events.{
  main_entity, event_subscription, handle_webhook_event, handle_subscription_event,
  handle_tenant_event, event_tenant, apply_subscription_event, effect_of, record_charge,
}
use micro_saas_api.Billing.Subscriptions.Payments.{
  Call, activate, cancel, receive, IsPaidOnce, run, run-IsPaidOnce,
}
use micro_saas_api.Billing.Subscriptions.Paid.{lasts, IsPaid, webhook-keeps_access}
use micro_saas_api.Billing.Subscriptions.Others.{webhook-others}
use micro_saas_api.Billing.Subscriptions.Checkout.{
  IsOwnCheckout, tenants_after, activate_from_checkout-signed, activate_from_checkout-access,
}
use micro_saas_api.Billing.Subscriptions.Samples.{
  tenant, config, gateway, hmac, event_on, new_tenant,
}

-- The stale customer is dropped, and a second attempt creates another.
abbrev created : Books
created = (create_subscription list_client config gateway gateway 10 7 monthly new_tenant).books

retried : created ≡ record {
  tenants =
      record (tenant 7 expired none (some (codes "sub_1"))) { customer_id = some (codes "cust_2") }
      ∷ [];
  transactions = [];
}
unfolding create_subscription create_subscription_checkout ensure_customer first_attempt or_fail
    after find_tenant update_tenant resolve_status ◌>>=◌ same_text is_retryable includes to_lower
retried = refl

abbrev signature : Text
signature = codes "secretpay_1|sub_1"

abbrev start : Books
start = record {
  tenants =
      tenant 7 active (some 3000) (some (codes "sub_1"))
      ∷ tenant 8 active (some 3000) (some (codes "sub_2"))
      ∷ [];
  transactions = [];
}

-- The payment arrives by the checkout and by the webhook, and is recorded once.
abbrev calls : List Call
calls =
    activate gateway 7 (codes "pay_1") (codes "sub_1") signature
    ∷ receive (codes "subscription.charged") (event_on (codes "sub_1") (some 4))
    ∷ cancel gateway 7
    ∷ []

recorded_once : length (run list_client hmac config calls start).transactions ≡ 2
unfolding activate_from_checkout check_activate verify_subscription_signature after find_tenant
    update_tenant ◌>>=◌ same_text record_transaction handle_webhook_event handle_subscription_event
    handle_tenant_event event_tenant apply_subscription_event effect_of record_charge
    cancel_subscription
recorded_once = refl

run-IsPaidOnce_example : IsPaidOnce (run list_client hmac config calls start)
run-IsPaidOnce_example = run-IsPaidOnce list_client hmac config calls start (λ p ne. omega arith)

abbrev payer : Tenant
payer = tenant 7 active (some 3000) (some (codes "sub_1"))

payer-IsPaid : IsPaid 2000 payer
unfolding lasts
payer-IsPaid = (refl, refl)

-- The period that the event states ends at 4000.
stated_end :
    (end : ℕ)
    → from_seconds (main_entity (event_on (codes "sub_1") (some 4))).current_end ≡ some end
    → 2000 < end
stated_end end h = let k : 4000 ≡ end = cc h in omega (arith, k)

webhook-keeps_access_example :
    (r : Tenant) × (Member r
        (handle_webhook_event list_client config
          (codes "subscription.cancelled")
          (event_on (codes "sub_1") (some 4))
          start).1.tenants
      × ((r.account.id ≡ 7) × ((resolve_status config.settings r.account 2000).has_access ≡ true)))
webhook-keeps_access_example =
    webhook-keeps_access list_client config (codes "subscription.cancelled")
      (event_on (codes "sub_1") (some 4)) start payer 2000 (here refl) payer-IsPaid
      (λ plan. omega arith) stated_end

abbrev other_tenant : Tenant
other_tenant = tenant 8 active (some 3000) (some (codes "sub_2"))

not_held :
    (s : Text)
    → event_subscription (event_on (codes "sub_1") none) ≡ some s
    → holds_text s other_tenant.subscription_id ≡ false
unfolding same_text
not_held s h = let k : codes "sub_1" ≡ s = cc h in rw (← k) refl

webhook-others_example :
    Member other_tenant
      (handle_webhook_event list_client config
        (codes "subscription.cancelled")
        (event_on (codes "sub_1") none)
        start).1.tenants
webhook-others_example =
    webhook-others list_client config (codes "subscription.cancelled")
      (event_on (codes "sub_1") none) start other_tenant ((λ e. omega (arith, e), tt), (tt, tt))
      (there (here refl)) not_held (λ e. let k : ◌≡◌ {A = ℕ} 7 8 = cc e in omega (arith, k))

-- A subscription that the notes name user 7 for, and that user 7 has replaced, ends the new one.
replaced :
    (handle_webhook_event list_client config
      (codes "subscription.cancelled")
      (event_on (codes "sub_old") none)
      start).1.tenants
    ≡ tenant 7 cancelled (some 3000) (some (codes "sub_1")) ∷ other_tenant ∷ []
unfolding find_tenant update_tenant same_text handle_webhook_event handle_subscription_event
    handle_tenant_event event_tenant apply_subscription_event effect_of
replaced = refl

activate_from_checkout-signed_example :
    ((e : SubscriptionError) × (activate_from_checkout list_client hmac config gateway 7
          (codes "pay_1")
          (codes "sub_1")
          (codes "forged")
          start
        ≡ refuse e start))
    ⊎ ((t : Tenant) × IsOwnCheckout list_client hmac config 7
          (codes "pay_1")
          (codes "sub_1")
          (codes "forged")
          start
          t)
activate_from_checkout-signed_example =
    activate_from_checkout-signed list_client hmac config gateway 7 (codes "pay_1") (codes "sub_1")
      (codes "forged") start

genuine : verify_subscription_signature hmac config (codes "pay_1") (codes "sub_1") signature ≡ true
unfolding verify_subscription_signature same_text
genuine = refl

known : find_tenant list_client 7 start ≡ some payer
unfolding find_tenant
known = refl

own : is_own (given payer.subscription_id) (codes "sub_1") ≡ true
unfolding same_text
own = refl

fetched_end :
    (end : ℕ) → fetch_subscription_end config gateway (codes "sub_1") ≡ some end → 2000 < end
fetched_end end h = let k : 4000 ≡ end = cc h in omega (arith, k)

activate_from_checkout-access_example :
    ((activate_from_checkout list_client hmac config gateway 7
        (codes "pay_1")
        (codes "sub_1")
        signature
        start).answer
      ≡ ok tt)
    × ((r : Tenant) × (Member r (
            tenants_after list_client hmac config gateway 7
              (codes "pay_1")
              (codes "sub_1")
              signature
              start)
          × ((r.account.id ≡ 7)
              × ((r.subscription_id ≡ some (codes "sub_1"))
                  × ((resolve_status config.settings r.account 2000).has_access ≡ true)))))
activate_from_checkout-access_example =
    activate_from_checkout-access list_client hmac config gateway 7 (codes "pay_1") (codes "sub_1")
      signature start payer 2000 genuine known own (λ plan. omega arith) fetched_end
