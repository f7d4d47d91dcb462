-- ===== src/Billing/Subscriptions/Others.antt =====
-- billing.service.ts: the tenants that an event does not concern.
use micro_saas_api.Base.{
  ℕ, ◌≡◌, ◌≢◌, ◌⊎◌, inl, inr, sym, subst, ap, ◌∙◌, true, false, Option, none, some, Member,
  Option-cases, arith, ◌==◌,
}
use micro_saas_api.Text.{Text}
use micro_saas_api.Database.{Client}
use micro_saas_api.Database.Rows.{Member-kept, Member-updated, IsKey, IsKey-unique}
use micro_saas_api.Billing.Subscriptions.{
  Tenant, Transaction, Books, Config, record_transaction, holds_text, find_tenant, update_tenant,
}
use micro_saas_api.Billing.Subscriptions.Events.{
  Effect, renews, falls_due, ends, ignored, Entity, WebhookBody, effect_of, apply_effect,
  main_entity, noted_user, event_subscription, event_tenant, record_charge, handle_tenant_event,
  handle_webhook_event,
}
use micro_saas_api.Billing.Subscriptions.Branches.{
  webhook-branches, apply_event-branches, tenant_event-branches,
}
use micro_saas_api.Billing.Subscriptions.Paid.{record_transaction-tenants}

abbrev pub key : Tenant → ℕ
key t = t.account.id

pub find_tenant-some :
    (db : Client) (id : ℕ) (b : Books) (t : Tenant)
    → find_tenant db id b ≡ some t
    → (t.account.id ≡ id) × Member t b.tenants
unfolding find_tenant
find_tenant-some db id b t f =
    let (p, m) = db.find_first-some (λ (u : Tenant). u.account.id == id) b.tenants t f in
    (ground (arith, p), m)

-- Another tenant than the one with the id stays.
update_tenant-others :
    (db : Client) (id : ℕ) (f : Tenant → Tenant) (b : Books) (t : Tenant)
    → t.account.id ≢ id
    → Member t b.tenants
    → Member t (update_tenant db id f b).tenants
unfolding update_tenant
update_tenant-others db id f b t ne m =
    rw (db.update_many_rows (λ t. t.account.id == id) f b.tenants)
      (Member-kept (λ t. t.account.id == id) f b.tenants m (ground (arith, ne)))

-- The tenant with the id is changed.
pub update_tenant-found :
    (db : Client) (id : ℕ) (f : Tenant → Tenant) (b : Books) (t : Tenant)
    → t.account.id ≡ id
    → Member t b.tenants
    → Member (f t) (update_tenant db id f b).tenants
unfolding update_tenant
update_tenant-found db id f b t same m =
    rw (db.update_many_rows (λ t. t.account.id == id) f b.tenants)
      (Member-updated (λ t. t.account.id == id) f b.tenants m (ground (arith, same)))

pub Member-record_transaction :
    (db : Client) (r : Transaction) (b : Books) (t : Tenant)
    → Member t b.tenants
    → Member t (record_transaction db r b).tenants
Member-record_transaction db r b t m = rw (record_transaction-tenants db r b) m

apply_effect-others :
    (db : Client) (f : Effect) (c : Config) (u : Tenant) (e : Entity) (s : Text) (b : Books)
    (t : Tenant)
    → t.account.id ≢ u.account.id
    → Member t b.tenants
    → Member t (apply_effect db f c u e s b).tenants
apply_effect-others db renews c u e s b t ne m = update_tenant-others db u.account.id _ b t ne m
apply_effect-others db falls_due c u e s b t ne m = update_tenant-others db u.account.id _ b t ne m
apply_effect-others db ends c u e s b t ne m = update_tenant-others db u.account.id _ b t ne m
apply_effect-others db ignored c u e s b t ne m = m

tenant_event-others :
    (db : Client) (c : Config) (event : Text) (w : WebhookBody) (s : Text) (u : Tenant) (b : Books)
    (t : Tenant)
    → t.account.id ≢ u.account.id
    → Member t b.tenants
    → Member t (handle_tenant_event db c event w s u b).tenants
unfolding record_charge
tenant_event-others db c event w s u b t ne m =
    let k =
      apply_event-branches db c (λ x. Member t x.tenants) u.account.id event (main_entity w) s b m
        (λ v f.
          let (same, _) = find_tenant-some db u.account.id b v f in
          apply_effect-others db (effect_of event) c v (main_entity w) s b t (rw same ne) m) in
    tenant_event-branches db c (λ x. Member t x.tenants) event w s u b k
      (Member-record_transaction db _ _ t k)

-- The tenant of an event holds its subscription, or is the one that the notes name.
event_tenant-origin :
    (db : Client) (w : WebhookBody) (s : Text) (b : Books) (u : Tenant)
    → event_tenant db w s b ≡ some u
    → Member u b.tenants
      × ((holds_text s u.subscription_id ≡ true) ⊎ (noted_user w ≡ some u.account.id))
unfolding event_tenant
event_tenant-origin db w s b u h =
    elim (Option-cases (db.find_first (λ (t : Tenant). holds_text s t.subscription_id) b.tenants)) [
      | inr (v, f) ↦
          let same : v ≡ u = cc (rw f at h) in
          let (p, m) = db.find_first-some (λ t. holds_text s t.subscription_id) b.tenants v f in
          rw (← same) (m, inl p)
      | inl f ↦ elim (Option-cases (noted_user w)) [
        | inl n ↦ let k : Path (Option Tenant) none (some u) = rw (f, n) at h in cc
        | inr (id, n) ↦
            let k : find_tenant db id b ≡ some u = rw (f, n) at h in
            let (same, m) = find_tenant-some db id b u k in (m, inr (n ∙ ap some (sym same)))
      ]
    ]

-- An event leaves a tenant alone who does not hold the event's subscription and whom its notes do not
-- name, when no two tenants have one id.
pub webhook-others :
    (db : Client) (c : Config) (event : Text) (w : WebhookBody) (b : Books) (t : Tenant)
    → IsKey key b.tenants
    → Member t b.tenants
    → ((s : Text) → event_subscription w ≡ some s → holds_text s t.subscription_id ≡ false)
    → noted_user w ≢ some t.account.id
    → Member t (handle_webhook_event db c event w b).1.tenants
webhook-others db c event w b t keys m other unnamed =
    webhook-branches db c (λ x. Member t x.tenants) event w b m
      λ s u e f.
        let (n, o) = event_tenant-origin db w s b u f in
        tenant_event-others db c event w s u b t
          (λ same.
            let equal : t ≡ u = IsKey-unique key b.tenants keys m n same in
            elim o [
              | inl holds ↦
                  let k : holds_text s u.subscription_id ≡ false =
                    subst (λ x. holds_text s x.subscription_id ≡ false) equal (other s e) in
                  absurd (ground (arith, holds, k))
              | inr named ↦ unnamed (named ∙ ap some (sym same))
            ])
          m
