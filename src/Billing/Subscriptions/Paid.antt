-- ===== src/Billing/Subscriptions/Paid.antt =====
-- billing.service.ts: the access of the tenants after an event.
use micro_saas_api.Base.{
  ℕ, ◌≡◌, ◌<◌, inl, inr, refl, ◌∙◌, Bool, true, false, not, ◌||◌, Option, none, some, Member,
  Bool-cases, Option-cases, arith, ◌==◌,
}
use micro_saas_api.Text.{Text}
use micro_saas_api.Database.{Client}
use micro_saas_api.Database.Rows.{Member-kept, Member-updated}
use micro_saas_api.Billing.Lifecycle.{
  Status, trial, active, past_due, cancelled, expired, pending_verification, other,
}
use micro_saas_api.Billing.Access.{
  Plan, Account, Settings, within_period, status_access, resolve_status,
}
use micro_saas_api.Billing.Subscriptions.{
  Tenant, Transaction, Books, Config, given, holds_text, or_default, update_tenant,
  record_transaction,
}
use micro_saas_api.Billing.Subscriptions.Calls.{from_seconds}
use micro_saas_api.Billing.Subscriptions.Events.{
  Effect, renews, falls_due, ends, ignored, Entity, WebhookBody, effect_of, apply_effect,
  main_entity, record_charge, handle_webhook_event, renew, fall_due, end_subscription,
}
use micro_saas_api.Billing.Subscriptions.Branches.{
  webhook-branches, apply_event-branches, tenant_event-branches,
}

-- The statuses that give access until the period ends.
unfoldable pub lasts : Status → Bool
lasts active = true
lasts past_due = true
lasts cancelled = true
lasts _ = false

-- The tenant has paid for `now`.
abbrev pub IsPaid : ℕ → Tenant → Type 0
IsPaid now t = (lasts t.account.status ≡ true) × (within_period t.account.period_end now ≡ true)

status_access-lasts :
    (s : Status) (u : Account) (now : ℕ)
    → lasts s ≡ true
    → within_period u.period_end now ≡ true
    → (status_access s u now).has_access ≡ true
unfolding lasts
status_access-lasts trial u now l p = cc
status_access-lasts active u now l p = rw p refl
status_access-lasts past_due u now l p = p
status_access-lasts cancelled u now l p = p
status_access-lasts expired u now l p = cc
status_access-lasts pending_verification u now l p = cc
status_access-lasts (other s) u now l p = cc

pub IsPaid-access :
    (s : Settings) (t : Tenant) (now : ℕ)
    → IsPaid now t
    → (resolve_status s t.account now).has_access ≡ true
unfolding resolve_status
IsPaid-access s t now (l, p) =
    let has = status_access-lasts t.account.status t.account now l p in
    elim (Bool-cases (s.is_super_admin t.account.email || not s.enabled)) [
      | inl y ↦ rw (resolve_status, y) refl
      | inr n ↦ rw (resolve_status, n) has
    ]

pub record_transaction-tenants :
    (db : Client) (r : Transaction) (b : Books) → (record_transaction db r b).tenants ≡ b.tenants
unfolding record_transaction
record_transaction-tenants db r b = elim (Option-cases (given r.payment_id)) [
  | inl n ↦ rw n refl
  | inr (q, e) ↦
      rw e (elim (Option-cases (db.find_first (λ t. holds_text q t.payment_id) b.transactions)) [
        | inl f ↦ rw f refl
        | inr (old, f) ↦ rw f refl
      ])
]

-- A tenant with the id who has paid for `now`.
abbrev Paid : ℕ → ℕ → Books → Type 0
Paid id now b = (r : Tenant) × (Member r b.tenants × ((r.account.id ≡ id) × IsPaid now r))

update_tenant-Paid :
    (db : Client) (id now who : ℕ) (f : Tenant → Tenant) (b : Books)
    → ((r : Tenant) → (f r).account.id ≡ r.account.id)
    → ((r : Tenant) → IsPaid now r → IsPaid now (f r))
    → Paid who now b
    → Paid who now (update_tenant db id f b)
unfolding update_tenant
update_tenant-Paid db id now who f b same keep (r, (m, (e, p))) =
    rw (db.update_many_rows (λ t. t.account.id == id) f b.tenants)
      (elim (Bool-cases (r.account.id == id)) [
        | inl y ↦ (f r, (Member-updated _ f b.tenants m y, (same r ∙ e, keep r p)))
        | inr n ↦ (r, (Member-kept _ f b.tenants m n, (e, p)))
      ])

pub from_seconds-later :
    (now n : ℕ) (o : Option ℕ)
    → now < n
    → ((end : ℕ) → o ≡ some end → now < end)
    → within_period (some (or_default o n)) now ≡ true
from_seconds-later now n none lt h = ground (arith, lt)
from_seconds-later now n (some end) lt h = let l = h end refl in ground (arith, l)

apply_effect-Paid :
    (db : Client) (f : Effect) (c : Config) (t : Tenant) (e : Entity) (s : Text) (b : Books)
    (who now : ℕ)
    → ((plan : Plan) → now < c.period_end plan)
    → ((end : ℕ) → from_seconds e.current_end ≡ some end → now < end)
    → Paid who now b
    → Paid who now (apply_effect db f c t e s b)
unfolding lasts
apply_effect-Paid db renews c t e s b who now est given_end p =
    update_tenant-Paid db t.account.id now who (renew s _ _) b (λ r. refl)
      (λ r _. (refl, from_seconds-later now _ (from_seconds e.current_end) (est _) given_end)) p
apply_effect-Paid db falls_due c t e s b who now est given_end p =
    update_tenant-Paid db t.account.id now who fall_due b (λ r. refl) (λ r (l, q). (refl, q)) p
apply_effect-Paid db ends c t e s b who now est given_end p =
    update_tenant-Paid db t.account.id now who end_subscription b (λ r. refl)
      (λ r (l, q). (refl, q)) p
apply_effect-Paid db ignored c t e s b who now est given_end p = p

-- No event takes access away: a tenant whose subscription is active, past due or cancelled and whose
-- period ends after `now` has access at `now` after any event, when the end that the event states and
-- the estimated end of a period are after `now`.
pub webhook-keeps_access :
    (db : Client) (c : Config) (event : Text) (w : WebhookBody) (b : Books) (t : Tenant) (now : ℕ)
    → Member t b.tenants
    → IsPaid now t
    → ((plan : Plan) → now < c.period_end plan)
    → ((end : ℕ) → from_seconds (main_entity w).current_end ≡ some end → now < end)
    → (r : Tenant) × (Member r (handle_webhook_event db c event w b).1.tenants
        × ((r.account.id ≡ t.account.id)
            × ((resolve_status c.settings r.account now).has_access ≡ true)))
unfolding record_charge
webhook-keeps_access db c event w b t now m paid est given_end =
    let start : Paid t.account.id now b = (t, (m, (refl, paid))) in
    let (r, (n, (e, p))) = webhook-branches db c (Paid t.account.id now) event w b start λ s u _ _.
      let k =
        apply_event-branches db c (Paid t.account.id now) u.account.id event (main_entity w) s b
          start
          λ v _.
            apply_effect-Paid db (effect_of event) c v (main_entity w) s b t.account.id now est
              given_end start in
      tenant_event-branches db c (Paid t.account.id now) event w s u b k
        (rw (record_charge, record_transaction-tenants) k) in
    (r, (n, (e, IsPaid-access c.settings r now p)))
