-- ===== src/Billing/Subscriptions/Events.antt =====
-- billing.service.ts: handleWebhookEvent and applySubscriptionEvent, the events that Razorpay sends.
use micro_saas_api.Base.{
  ℕ, zero, suc, ◌*◌, Bool, true, false, [], ◌∷◌, Option, none, some, if◌then◌else◌, any,
}
use micro_saas_api.Text.{Text, codes, same_text}
use micro_saas_api.Database.{Client}
use micro_saas_api.Billing.Lifecycle.{active, past_due, cancelled}
use micro_saas_api.Billing.Access.{Plan}
use micro_saas_api.Billing.ManualPayments.{platform}
use micro_saas_api.Billing.Subscriptions.{
  Tenant, Books, Config, given, holds_text, or_else, or_default, plan_or_monthly, price_inr,
  find_tenant, update_tenant, record_transaction,
}
use micro_saas_api.Billing.Subscriptions.Calls.{from_seconds, rupees, captured}

-- `notes` of an entity. `user_id` is the number that the note reads as, 0 where it is none; `plan` is
-- one of the two that createSubscription notes.
pub record Notes : Type 0 where
  pub product : Option Text
  pub user_id : Option ℕ
  pub plan : Option Plan

-- The fields of a subscription or payment that are read. Amounts are in paise, times in seconds.
pub record Entity : Type 0 where
  pub id : Option Text
  pub subscription_id : Option Text
  pub notes : Option Notes
  pub current_end : Option ℕ
  pub amount : Option ℕ
  pub status : Option Text

-- A body: `payload.subscription.entity`, `payload.payment.entity`, `entity`, and itself read as one.
pub record WebhookBody : Type 0 where
  pub subscription : Option Entity
  pub payment : Option Entity
  pub entity : Option Entity
  pub itself : Entity

-- The cases of the `switch` on the name of an event.
pub data Effect : Type 0 where
  renews falls_due ends ignored : Effect

unfoldable pub effect_of : Text → Effect
effect_of event =
    if any (same_text event) (
      codes "subscription.authenticated"
      ∷ codes "subscription.activated"
      ∷ codes "subscription.charged"
      ∷ codes "subscription.resumed"
      ∷ [])
    then renews
    else if any (same_text event) (codes "subscription.pending" ∷ codes "subscription.halted" ∷ [])
    then falls_due
    else if any (same_text event)
        (codes "subscription.cancelled" ∷ codes "subscription.completed" ∷ [])
    then ends
    else ignored

abbrev pub renew : Text → Plan → ℕ → Tenant → Tenant
renew s plan end t = record t {
  subscription_id = some s;
  account = record t.account {
    status = active;
    plan = some plan;
    period_end = some end;
    cancel_at_period_end = false;
  };
}

abbrev pub fall_due : Tenant → Tenant
fall_due t = record t { account = record t.account { status = past_due } }

abbrev pub end_subscription : Tenant → Tenant
end_subscription t = record t {
  account = record t.account { status = cancelled; cancel_at_period_end = false };
}

abbrev notes_field {ℓ} : {A : Type ℓ} → (Notes → Option A) → Option Notes → Option A
notes_field f none = none
notes_field f (some n) = f n

abbrev entity_field {ℓ} : {A : Type ℓ} → (Entity → Option A) → Option Entity → Option A
entity_field f none = none
entity_field f (some e) = f e

-- `entity`, the one that the fields are read of.
abbrev pub main_entity : WebhookBody → Entity
main_entity w = or_default (or_else w.subscription (or_else w.payment w.entity)) w.itself

abbrev pub event_subscription : WebhookBody → Option Text
event_subscription w = given (
    or_else (entity_field (λ e. e.id) w.subscription) (
      or_else (main_entity w).subscription_id
        (or_else (main_entity w).id w.itself.subscription_id)))

abbrev pub event_notes : WebhookBody → Option Notes
event_notes w = or_else (entity_field (λ e. e.notes) w.subscription) (main_entity w).notes

-- `notes.user_id ? Number(notes.user_id) : null`, where 0 counts as absent.
abbrev pub noted_user : WebhookBody → Option ℕ
noted_user w = elim (notes_field (λ n. n.user_id) (event_notes w)) [
  | none ↦ none
  | some zero ↦ none
  | some (suc n) ↦ some (suc n)
]

abbrev pub noted_product : WebhookBody → Option Text
noted_product w = notes_field (λ n. n.product) (event_notes w)

abbrev pub is_seeker : Option Text → Bool
is_seeker product = holds_text (codes "career_seeker") product

-- `Number(amount ?? 0) || price * 100`
abbrev charged_paise : Config → Plan → Option ℕ → ℕ
charged_paise c plan none = price_inr c plan * 100
charged_paise c plan (some zero) = price_inr c plan * 100
charged_paise c plan (some (suc n)) = suc n

abbrev plan_of : Option Tenant → Option Plan
plan_of none = none
plan_of (some t) = t.account.plan

module _ (db : Client) where
  abbrev pub apply_effect : Effect → Config → Tenant → Entity → Text → Books → Books
  apply_effect renews c t e s b =
      let plan = or_default (notes_field (λ n. n.plan) e.notes) (plan_or_monthly t.account.plan) in
      let end = or_default (from_seconds e.current_end) (c.period_end plan) in
      update_tenant db t.account.id (renew s plan end) b
  apply_effect falls_due c t e s b = update_tenant db t.account.id fall_due b
  apply_effect ends c t e s b = update_tenant db t.account.id end_subscription b
  apply_effect ignored c t e s b = b

  -- applySubscriptionEvent
  unfoldable pub apply_subscription_event : Config → ℕ → Text → Entity → Text → Books → Books
  apply_subscription_event c id event e s b = elim (find_tenant db id b) [
    | none ↦ b
    | some t ↦ apply_effect (effect_of event) c t e s b
  ]

  -- The tenant who has the subscription, or else the one whom the notes name.
  unfoldable pub event_tenant : WebhookBody → Text → Books → Option Tenant
  event_tenant w s b =
      or_else (db.find_first (λ (t : Tenant). holds_text s t.subscription_id) b.tenants)
        (elim (noted_user w) [ none ↦ none | some id ↦ find_tenant db id b ])

  -- The transaction of a charge, after the event has been applied.
  unfoldable pub record_charge : Config → ℕ → Text → WebhookBody → Text → Books → Books
  record_charge c id event w s b =
      let plan =
        or_default (notes_field (λ n. n.plan) (event_notes w))
          (plan_or_monthly (plan_of (find_tenant db id b))) in
      let amount = or_else (entity_field (λ e. e.amount) w.payment) (main_entity w).amount in
      record_transaction db
        (record {
          user_id = id;
          product = platform;
          event_type = event;
          payment_id = entity_field (λ e. e.id) w.payment;
          subscription_id = some s;
          plan = some plan;
          amount_inr = rupees (charged_paise c plan amount);
          status = or_default (entity_field (λ e. e.status) w.payment) captured;
        })
        b

  -- An event on a subscription, for a tenant who is known.
  unfoldable pub handle_tenant_event : Config → Text → WebhookBody → Text → Tenant → Books → Books
  handle_tenant_event c event w s t b =
      let applied = apply_subscription_event c t.account.id event (main_entity w) s b in
      if same_text event (codes "subscription.charged")
      then record_charge c t.account.id event w s applied
      else applied

  unfoldable pub handle_subscription_event :
      Config → Text → WebhookBody → Text → Books → Bool × Books
  handle_subscription_event c event w s b = elim (event_tenant w s b) [
    | none ↦ (false, b)
    | some t ↦ (true, handle_tenant_event c event w s t b)
  ]

  -- handleWebhookEvent: whether the event was handled, and the tables. The mails are left out.
  unfoldable pub handle_webhook_event : Config → Text → WebhookBody → Books → Bool × Books
  handle_webhook_event c event w b = elim (event_subscription w) [
    | none ↦ (false, b)
    | some s ↦
        let handled = handle_subscription_event c event w s b in
        if is_seeker (noted_product w) then (false, b) else handled
  ]
