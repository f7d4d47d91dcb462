-- ===== src/Billing/Subscriptions/Checkout.antt =====
-- billing.service.ts: who may activate a checkout, and what it gives.
use micro_saas_api.Base.{Ends, Ends-bind, Ends-ok, answers, require-ok, or_throw-ok}
use micro_saas_api.Base.{
  ℕ, ◌≡◌, ◌≢◌, ◌<◌, ◌⊎◌, inl, inr, refl, true, false, List, [], ◌++◌, some, Member, Result, ok, err,
  ◌>>=◌, and-true,
}
use micro_saas_api.Text.{Text, codes, same_text}
use micro_saas_api.Text.Laws.{same_text_sound}
use micro_saas_api.Database.{Client}
use micro_saas_api.Billing.Access.{Plan, resolve_status}
use micro_saas_api.Billing.Subscriptions.{
  Tenant, Books, Gateway, Config, SubscriptionError, refuse, after, given, or_default, is_set,
  plan_or_monthly, verify_subscription_signature, find_tenant,
}
use micro_saas_api.Billing.Subscriptions.Calls.{
  fetch_subscription_end, is_own, activate_checkout, check_activate, activate_from_checkout,
}
use micro_saas_api.Billing.Subscriptions.Paid.{IsPaid, IsPaid-access, lasts, from_seconds-later}
use micro_saas_api.Billing.Subscriptions.Others.{
  find_tenant-some, update_tenant-found, Member-record_transaction,
}

module _ (db : Client) (hmac : Text → Text → Text) (c : Config) where
  -- What the checks of activateFromCheckout establish.
  abbrev pub IsOwnCheckout :
      ℕ → (payment_id subscription_id signature : Text) → Books → Tenant → Type 0
  IsOwnCheckout id payment_id subscription_id signature b t =
      (c.key_secret ≢ [])
      × ((hmac c.key_secret (payment_id ++ codes "|" ++ subscription_id) ≡ signature)
          × ((t.account.id ≡ id)
              × (Member t b.tenants × (is_own (given t.subscription_id) subscription_id ≡ true))))

  abbrev pub tenants_after :
      Gateway → ℕ → (payment_id subscription_id signature : Text) → Books → List Tenant
  tenants_after g id payment_id subscription_id signature b =
      (activate_from_checkout db hmac c g id payment_id subscription_id signature b).books.tenants

  verify_sound :
      (payment_id subscription_id signature : Text)
      → verify_subscription_signature hmac c payment_id subscription_id signature ≡ true
      → (c.key_secret ≢ [])
        × (hmac c.key_secret (payment_id ++ codes "|" ++ subscription_id) ≡ signature)
  unfolding verify_subscription_signature
  verify_sound payment_id subscription_id signature h =
      let (set, same) =
        and-true (is_set c.key_secret)
          (same_text (hmac c.key_secret (payment_id ++ codes "|" ++ subscription_id)) signature)
          h in
      (λ empty. let k : false ≡ true = rw empty at set in cc, same_text_sound _ signature same)

  check_activate-Ends :
      (id : ℕ) (payment_id subscription_id signature : Text) (b : Books)
      → Ends
          (IsOwnCheckout id payment_id subscription_id signature b)
          (check_activate db hmac c id payment_id subscription_id signature b)
  unfolding check_activate
  check_activate-Ends id payment_id subscription_id signature b = Ends-bind λ _ signed.
      Ends-bind λ t found. Ends-bind λ _ own.
        let (set, same) =
          verify_sound payment_id subscription_id signature (require-ok _ _ signed) in
        let (who, m) = find_tenant-some db id b t (or_throw-ok _ _ found) in
        answers (set, (same, (who, (m, require-ok _ _ own))))

  -- activateFromCheckout throws and writes nothing, or the secret is set, the signature is the HMAC of
  -- the payment and the subscription, and the user is there and has no other subscription.
  pub activate_from_checkout-signed :
      (g : Gateway) (id : ℕ) (payment_id subscription_id signature : Text) (b : Books)
      → ((e : SubscriptionError) × (activate_from_checkout db hmac c g id payment_id subscription_id
              signature b
            ≡ refuse e b))
        ⊎ ((t : Tenant) × IsOwnCheckout id payment_id subscription_id signature b t)
  unfolding activate_from_checkout after
  activate_from_checkout-signed g id payment_id subscription_id signature b =
      go (check_activate db hmac c id payment_id subscription_id signature b) refl
    where
      go :
          (r : Result SubscriptionError Tenant)
          → check_activate db hmac c id payment_id subscription_id signature b ≡ r
          → ((e : SubscriptionError) × (activate_from_checkout db hmac c g id payment_id
                  subscription_id signature b
                ≡ refuse e b))
            ⊎ ((t : Tenant) × IsOwnCheckout id payment_id subscription_id signature b t)
      go (err e) h = inl (e, rw (activate_from_checkout, tenants_after, h) refl)
      go (ok t) h =
          inr (t, Ends-ok (check_activate-Ends id payment_id subscription_id signature b) h)

  check_activate-ok :
      (id : ℕ) (payment_id subscription_id signature : Text) (b : Books) (t : Tenant)
      → verify_subscription_signature hmac c payment_id subscription_id signature ≡ true
      → find_tenant db id b ≡ some t
      → is_own (given t.subscription_id) subscription_id ≡ true
      → check_activate db hmac c id payment_id subscription_id signature b ≡ ok t
  unfolding check_activate ◌>>=◌
  check_activate-ok id payment_id subscription_id signature b t v f own = rw (v, f, own) refl

  -- A checkout of the user's own subscription with a valid signature is activated: the user holds the
  -- subscription and has access at `now`, when the paid period, stated or estimated, ends after `now`.
  pub activate_from_checkout-access :
      (g : Gateway) (id : ℕ) (payment_id subscription_id signature : Text) (b : Books) (t : Tenant)
      (now : ℕ)
      → verify_subscription_signature hmac c payment_id subscription_id signature ≡ true
      → find_tenant db id b ≡ some t
      → is_own (given t.subscription_id) subscription_id ≡ true
      → ((plan : Plan) → now < c.period_end plan)
      → ((end : ℕ) → fetch_subscription_end c g subscription_id ≡ some end → now < end)
      → ((activate_from_checkout db hmac c g id payment_id subscription_id signature b).answer
          ≡ ok tt)
        × ((r : Tenant) × (Member r (tenants_after g id payment_id subscription_id signature b)
              × ((r.account.id ≡ id)
                  × ((r.subscription_id ≡ some subscription_id)
                      × ((resolve_status c.settings r.account now).has_access ≡ true)))))
  unfolding activate_from_checkout after lasts
  activate_from_checkout-access g id payment_id subscription_id signature b t now v f own est
        given_end =
      let (who, m) = find_tenant-some db id b t f in
      let plan = plan_or_monthly t.account.plan in
      let end = or_default (fetch_subscription_end c g subscription_id) (c.period_end plan) in
      let r = activate_checkout subscription_id plan end t in
      let paid : IsPaid now r = (
        refl,
        from_seconds-later now _ (fetch_subscription_end c g subscription_id) (est _) given_end,
      ) in
      let present =
        update_tenant-found db id (activate_checkout subscription_id plan end) b t who m in
      let checked = check_activate-ok id payment_id subscription_id signature b t v f own in
      let answer : (activate_from_checkout db hmac c g id payment_id subscription_id signature
            b).answer
          ≡ ok tt =
        rw (activate_from_checkout, checked) refl in
      let written : Member r (tenants_after g id payment_id subscription_id signature b) =
        rw (tenants_after, activate_from_checkout, checked)
          (Member-record_transaction db _ _ r present) in
      (answer, (r, (written, (who, (refl, IsPaid-access c.settings r now paid)))))
