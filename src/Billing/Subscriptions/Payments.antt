-- ===== src/Billing/Subscriptions/Payments.antt =====
-- billing.service.ts: recordTransaction records a payment of Razorpay once.
use micro_saas_api.Base.{
  ℕ, ◌≡◌, ◌≢◌, ◌≤◌, inl, inr, refl, sym, ap, ◌∙◌, Bool, true, false, ◌&&◌, List, [], ◌∷◌, ◌++◌,
  Option, none, some, length, filter, Bool-cases, Option-cases, arith, All, length-filter-none,
  length-filter-last, length-filter-last-le, Result, ok, err,
}
use micro_saas_api.Text.{Text, same_text}
use micro_saas_api.Text.Laws.{same_text_sound}
use micro_saas_api.Database.{Client}
use micro_saas_api.Billing.Access.{Plan}
use micro_saas_api.Billing.ManualPayments.{Product}
use micro_saas_api.Billing.Subscriptions.{
  Tenant, Transaction, Books, GatewayError, is_retryable, Gateway, Config, Outcome, after, given,
  holds_text, record_transaction, update_tenant,
}
use micro_saas_api.Billing.Subscriptions.Calls.{
  activate_from_checkout, cancel_subscription, record_manual_transaction,
}
use micro_saas_api.Billing.Subscriptions.Create.{
  Checkout, is_given, clear_customer, ensure_customer, create_subscription_checkout, or_fail,
  first_attempt, create_subscription,
}
use micro_saas_api.Billing.Subscriptions.Events.{
  Entity, main_entity, Effect, renews, falls_due, ends, ignored, WebhookBody, effect_of,
  apply_effect, record_charge, handle_tenant_event, handle_webhook_event,
}
use micro_saas_api.Billing.Subscriptions.Branches.{
  webhook-branches, apply_event-branches, tenant_event-branches,
}

-- The calls that write the tables.
pub data Call : Type 0 where
  create : (g retry : Gateway) (now id : ℕ) → Plan → Call
  activate : Gateway → ℕ → (payment_id subscription_id signature : Text) → Call
  cancel : Gateway → ℕ → Call
  receive : (event : Text) → WebhookBody → Call
  manual :
      (user_id : ℕ) (event_type : Text)
      → Plan
      → (amount_inr : ℕ) → Option Text
      → Option Product
      → Call

abbrev pays : Text → Transaction → Bool
pays p r = holds_text p r.payment_id

-- No payment of Razorpay is recorded twice.
abbrev pub IsPaidOnce : Books → Type 0
IsPaidOnce b = (p : Text) → p ≢ [] → length (filter (pays p) b.transactions) ≤ 1

pub holds_text-eq : (p : Text) (o : Option Text) → holds_text p o ≡ true → o ≡ some p
holds_text-eq p none h = cc
holds_text-eq p (some q) h = ap some (same_text_sound q p h)

holds_text-none : (p : Text) (o : Option Text) → given o ≡ none → p ≢ [] → holds_text p o ≡ false
unfolding same_text
holds_text-none p none h ne = refl
holds_text-none [] (some []) h ne = absurd (ne refl)
holds_text-none (c ∷ s) (some []) h ne = refl
holds_text-none p (some (c ∷ s)) h ne = cc

given-some : (o : Option Text) (q : Text) → given o ≡ some q → o ≡ some q
given-some none q h = cc
given-some (some []) q h = cc
given-some (some (c ∷ s)) q h = h

record_transaction-IsPaidOnce :
    (db : Client) (r : Transaction) (b : Books)
    → IsPaidOnce b
    → IsPaidOnce (record_transaction db r b)
unfolding record_transaction
record_transaction-IsPaidOnce db r b h = elim (Option-cases (given r.payment_id)) [
  | inl n ↦ rw n (λ p ne.
      rw (length-filter-last (pays p) b.transactions r (holds_text-none p r.payment_id n ne))
        (h p ne))
  | inr (q, e) ↦ rw e (elim (Option-cases (db.find_first (pays q) b.transactions)) [
    | inr (old, f) ↦ rw f h
    | inl f ↦ rw f (λ p ne. elim (Bool-cases (pays p r)) [
      | inl y ↦ first p q y e (db.find_first-none (pays q) b.transactions f)
      | inr n ↦ rw (length-filter-last (pays p) b.transactions r n) (h p ne)
    ])
  ])
]
  where
    first :
        (p q : Text)
        → pays p r ≡ true
        → given r.payment_id ≡ some q
        → All (λ t. pays q t ≡ false) b.transactions
        → length (filter (pays p) (b.transactions ++ r ∷ [])) ≤ 1
    first p q y e none_yet =
        let same : some p ≡ some q =
          sym (holds_text-eq p r.payment_id y) ∙ given-some r.payment_id q e in
        let equal : p ≡ q = cc same in
        let fresh : length (filter (pays p) b.transactions) ≡ 0 =
          length-filter-none (pays p) b.transactions (rw equal none_yet) in
        omega (arith, fresh, length-filter-last-le (pays p) b.transactions r)

after-transactions {ℓ κ μ} :
    {E : Type μ} {A : Type ℓ} {B : Type κ} (r : Result E A) (b : Books) (go : A → Outcome E B)
    → ((a : A) → r ≡ ok a → IsPaidOnce (go a).books)
    → IsPaidOnce b
    → IsPaidOnce (after r b go).books
unfolding after
after-transactions (err e) b go h k = k
after-transactions (ok a) b go h k = h a refl

ensure_customer-IsPaidOnce :
    (db : Client) (o : Option Text) (g : Gateway) (id : ℕ) (t : Tenant) (b : Books)
    → IsPaidOnce b
    → IsPaidOnce (ensure_customer db o g id t b).books
unfolding ensure_customer update_tenant
ensure_customer-IsPaidOnce db (some c) g id t b h = h
ensure_customer-IsPaidOnce db none g id t b h =
    after-transactions (g.create_customer t.account) b _ (λ _ _. h) h

checkout-IsPaidOnce :
    (db : Client) (c : Config) (g : Gateway) (id : ℕ) (plan : Plan) (t : Tenant) (b : Books)
    → IsPaidOnce b
    → IsPaidOnce (create_subscription_checkout db c g id plan t b).books
unfolding create_subscription_checkout update_tenant
checkout-IsPaidOnce db c g id plan t b h =
    let k = ensure_customer-IsPaidOnce db (given t.customer_id) g id t b h in
    after-transactions _ _ _
      (λ _ _. after-transactions _ _ _ (λ _ _. after-transactions _ _ _ (λ _ _. k) k) k) k

or_fail-IsPaidOnce :
    (r : Result GatewayError Checkout) (b : Books) → IsPaidOnce b → IsPaidOnce (or_fail r b).books
unfolding or_fail
or_fail-IsPaidOnce (ok s) b h = h
or_fail-IsPaidOnce (err e) b h = h

first_attempt-IsPaidOnce :
    (db : Client) (c : Config) (g : Gateway) (id : ℕ) (plan : Plan) (t : Tenant)
    (r : Result GatewayError Checkout) (b : Books)
    → IsPaidOnce b
    → IsPaidOnce (first_attempt db c g id plan t r b).books
unfolding first_attempt update_tenant
first_attempt-IsPaidOnce db c g id plan t (ok s) b h = h
first_attempt-IsPaidOnce db c g id plan t (err e) b h =
    elim (Bool-cases (is_given (given t.customer_id) && is_retryable e)) [
      | inl y ↦ rw y (
          after-transactions _ _ _
            (λ u _.
              or_fail-IsPaidOnce _ _
                (checkout-IsPaidOnce db c g id plan u (update_tenant db id clear_customer b) h))
            h)
      | inr n ↦ rw n h
    ]

apply_effect-IsPaidOnce :
    (db : Client) (f : Effect) (c : Config) (t : Tenant) (e : Entity) (s : Text) (b : Books)
    → IsPaidOnce b
    → IsPaidOnce (apply_effect db f c t e s b)
unfolding update_tenant
apply_effect-IsPaidOnce db renews c t e s b h = h
apply_effect-IsPaidOnce db falls_due c t e s b h = h
apply_effect-IsPaidOnce db ends c t e s b h = h
apply_effect-IsPaidOnce db ignored c t e s b h = h

tenant_event-IsPaidOnce :
    (db : Client) (c : Config) (event : Text) (w : WebhookBody) (s : Text) (t : Tenant) (b : Books)
    → IsPaidOnce b
    → IsPaidOnce (handle_tenant_event db c event w s t b)
unfolding record_charge
tenant_event-IsPaidOnce db c event w s t b h =
    let k =
      apply_event-branches db c IsPaidOnce t.account.id event (main_entity w) s b h
        (λ u _. apply_effect-IsPaidOnce db (effect_of event) c u (main_entity w) s b h) in
    tenant_event-branches db c IsPaidOnce event w s t b k (record_transaction-IsPaidOnce db _ _ k)

webhook-IsPaidOnce :
    (db : Client) (c : Config) (event : Text) (w : WebhookBody) (b : Books)
    → IsPaidOnce b
    → IsPaidOnce (handle_webhook_event db c event w b).1
webhook-IsPaidOnce db c event w b h =
    webhook-branches db c IsPaidOnce event w b h
      (λ s t _ _. tenant_event-IsPaidOnce db c event w s t b h)

module _ (db : Client) (hmac : Text → Text → Text) (c : Config) where
  abbrev run_call : Call → Books → Books
  run_call (create g retry now id plan) b = (create_subscription db c g retry now id plan b).books
  run_call (activate g id payment subscription signature) b =
      (activate_from_checkout db hmac c g id payment subscription signature b).books
  run_call (cancel g id) b = (cancel_subscription db c g id b).books
  run_call (receive event w) b = (handle_webhook_event db c event w b).1
  run_call (manual id event plan amount status product) b =
      record_manual_transaction db id event plan amount status product b

  abbrev pub run : List Call → Books → Books
  run [] b = b
  run (x ∷ xs) b = run xs (run_call x b)

  run_call-IsPaidOnce : (x : Call) (b : Books) → IsPaidOnce b → IsPaidOnce (run_call x b)
  unfolding create_subscription activate_from_checkout cancel_subscription update_tenant
  run_call-IsPaidOnce (create g retry now id plan) b h =
      after-transactions _ _ _
        (λ t _.
          first_attempt-IsPaidOnce db c retry id plan t _ _
            (checkout-IsPaidOnce db c g id plan t b h))
        h
  run_call-IsPaidOnce (activate g id payment subscription signature) b h =
      after-transactions _ _ _ (λ t _. record_transaction-IsPaidOnce db _ _ h) h
  run_call-IsPaidOnce (cancel g id) b h =
      after-transactions _ _ _
        (λ t _. after-transactions _ _ _ (λ u _. record_transaction-IsPaidOnce db _ _ h) h) h
  run_call-IsPaidOnce (receive event w) b h = webhook-IsPaidOnce db c event w b h
  run_call-IsPaidOnce (manual id event plan amount status product) b h =
      record_transaction-IsPaidOnce db _ b h

  -- No sequence of checkouts, activations, cancellations, webhook events and manual payments records
  -- a payment of Razorpay twice, when none was recorded twice before it.
  pub run-IsPaidOnce : (xs : List Call) (b : Books) → IsPaidOnce b → IsPaidOnce (run xs b)
  run-IsPaidOnce [] b h = h
  run-IsPaidOnce (x ∷ xs) b h = run-IsPaidOnce xs (run_call x b) (run_call-IsPaidOnce x b h)
