-- ===== src/Billing/Subscriptions/Branches.antt =====
-- billing.service.ts: the branches of an event, to argue by.
use micro_saas_api.Base.{ℕ, ◌≡◌, inl, inr, some, Bool-cases, Option-cases}
use micro_saas_api.Text.{Text, codes, same_text}
use micro_saas_api.Database.{Client}
use micro_saas_api.Billing.Subscriptions.{Tenant, Books, Config, find_tenant}
use micro_saas_api.Billing.Subscriptions.Events.{
  Entity, WebhookBody, effect_of, apply_effect, apply_subscription_event, main_entity,
  noted_product, is_seeker, event_subscription, event_tenant, record_charge, handle_tenant_event,
  handle_subscription_event, handle_webhook_event,
}

module _ {ℓ} (db : Client) (c : Config) (P : Books → Type ℓ) where
  -- An event on a subscription does nothing, or it is one for a tenant who was found.
  subscription_event-branches :
      (event : Text) (w : WebhookBody) (s : Text) (b : Books)
      → P b
      → ((t : Tenant) → event_tenant db w s b ≡ some t → P (handle_tenant_event db c event w s t b))
      → P (handle_subscription_event db c event w s b).1
  unfolding handle_subscription_event
  subscription_event-branches event w s b p h = elim (Option-cases (event_tenant db w s b)) [
    | inl n ↦ rw (handle_subscription_event, n) p
    | inr (t, f) ↦ rw (handle_subscription_event, f) (h t f)
  ]

  pub webhook-branches :
      (event : Text) (w : WebhookBody) (b : Books)
      → P b
      → ((s : Text) (t : Tenant)
          → event_subscription w ≡ some s
          → event_tenant db w s b ≡ some t
          → P (handle_tenant_event db c event w s t b))
      → P (handle_webhook_event db c event w b).1
  unfolding handle_webhook_event
  webhook-branches event w b p h = elim (Option-cases (event_subscription w)) [
    | inl n ↦ rw (handle_webhook_event, n) p
    | inr (s, e) ↦
        rw (handle_webhook_event, e)
          (elim (Bool-cases (is_seeker (noted_product w))) [
            | inl y ↦ rw y p
            | inr n ↦ rw n (subscription_event-branches event w s b p (λ t f. h s t e f))
          ])
  ]

  -- Applying an event does nothing, or it has an effect on the tenant with the id.
  pub apply_event-branches :
      (id : ℕ) (event : Text) (e : Entity) (s : Text) (b : Books)
      → P b
      → ((t : Tenant)
          → find_tenant db id b ≡ some t
          → P (apply_effect db (effect_of event) c t e s b))
      → P (apply_subscription_event db c id event e s b)
  unfolding apply_subscription_event
  apply_event-branches id event e s b p h = elim (Option-cases (find_tenant db id b)) [
    | inl n ↦ rw (apply_subscription_event, n) p
    | inr (t, f) ↦ rw (apply_subscription_event, f) (h t f)
  ]

  -- An event for a tenant is applied, and a charge is recorded.
  pub tenant_event-branches :
      (event : Text) (w : WebhookBody) (s : Text) (t : Tenant) (b : Books)
      → P (apply_subscription_event db c t.account.id event (main_entity w) s b)
      → P (
          record_charge db c t.account.id event w s
            (apply_subscription_event db c t.account.id event (main_entity w) s b))
      → P (handle_tenant_event db c event w s t b)
  unfolding handle_tenant_event
  tenant_event-branches event w s t b p q =
      elim (Bool-cases (same_text event (codes "subscription.charged"))) [
        | inl y ↦ rw y q
        | inr n ↦ rw n p
      ]
