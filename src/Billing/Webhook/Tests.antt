-- ===== src/Billing/Webhook/Tests.antt =====
-- billing-webhook.controller.ts: a genuine request, and a forged one.
use micro_saas_api.Base.{◌≡◌, ◌≢◌, refl, Bool, true, false, List, [], ◌∷◌, none, some, arith}
use micro_saas_api.Text.{Text, codes, same_text}
use micro_saas_api.Database.{list_client}
use micro_saas_api.Common.WebhookClaims.{claim, default_ttl_ms}
use micro_saas_api.Billing.Lifecycle.{active}
use micro_saas_api.Billing.Subscriptions.{verify_webhook_signature}
use micro_saas_api.Billing.Subscriptions.Events.{WebhookBody}
use micro_saas_api.Billing.Subscriptions.Samples.{tenant, config, hmac, event_on}
use micro_saas_api.Billing.Webhook.{
  Delivery, duplicate, Server, delivery_key, claim_delivery, receive,
}
use micro_saas_api.Billing.Webhook.Once.{Step, request, claims, purges, run_steps, receive-once}
use micro_saas_api.Billing.Webhook.Forged.{IsForged, receive-forged_first}

abbrev no_seeker : Text → Text → WebhookBody → Bool
no_seeker body signature payload = false

abbrev signed_by : Text → Delivery
signed_by signature = record {
  signature = some signature;
  event_id = some (codes " evt_1 ");
  body = codes "{}";
  event = codes "subscription.charged";
  payload = event_on (codes "sub_1") none;
  digest = [];
}

abbrev genuine : Delivery
genuine = signed_by (codes "hook{}")

abbrev forged : Delivery
forged = signed_by (codes "guess")

abbrev server : Server
server = record {
  events = [];
  books = record {
    tenants = tenant 7 active (some 3000) (some (codes "sub_1")) ∷ [];
    transactions = [];
  };
}

is_new : (d : Delivery) → (claim_delivery 0 d server).is_new ≡ true
unfolding claim
is_new d = refl

given_some : {A : Type 0} {a : A} → some a ≢ none
given_some h = cc

abbrev between : List Step
between =
    claims 10 default_ttl_ms (codes "workflow") (codes "evt_1")
    ∷ purges 100
    ∷ request 200 forged
    ∷ []

receive-once_example :
    receive list_client hmac config no_seeker 500 genuine (
      run_steps list_client hmac config no_seeker between
        (receive list_client hmac config no_seeker 0 genuine server).1)
    ≡ (
      duplicate,
      run_steps list_client hmac config no_seeker between
          (receive list_client hmac config no_seeker 0 genuine server).1,
    )
receive-once_example =
    receive-once list_client hmac config no_seeker 0 genuine server between 500 genuine
      (is_new genuine) given_some given_some refl (tt, (omega arith, (tt, tt)))

forged-IsForged : IsForged hmac config no_seeker forged
unfolding verify_webhook_signature same_text
forged-IsForged signature h = let k : codes "guess" ≡ signature = cc h in rw (← k) (refl, refl)

same_key : delivery_key genuine ≡ delivery_key forged
unfolding delivery_key
same_key = refl

receive-forged_first_example :
    (receive list_client hmac config no_seeker 5 genuine
        (receive list_client hmac config no_seeker 0 forged server).1
      ≡ (duplicate, (receive list_client hmac config no_seeker 0 forged server).1))
    × ((receive list_client hmac config no_seeker 0 forged server).1.books ≡ server.books)
receive-forged_first_example =
    receive-forged_first list_client hmac config no_seeker 0 forged server 5 genuine forged-IsForged
      (is_new forged) given_some given_some same_key
