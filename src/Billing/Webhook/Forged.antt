-- ===== src/Billing/Webhook/Forged.antt =====
-- billing-webhook.controller.ts: requests whose signature is not Razorpay's.
use micro_saas_api.Base.{
  ℕ, ◌≡◌, ◌≢◌, inl, inr, refl, Bool, true, false, [], none, some, Bool-cases, Option-cases,
}
use micro_saas_api.Text.{Text}
use micro_saas_api.Database.{Client}
use micro_saas_api.Billing.Subscriptions.{Config, given, verify_webhook_signature}
use micro_saas_api.Billing.Subscriptions.Events.{WebhookBody}
use micro_saas_api.Billing.Webhook.{
  Delivery, Response, accepted, duplicate, Server, delivery_key, claim_delivery, handle_delivery,
  receive_signed, receive,
}
use micro_saas_api.Billing.Webhook.Once.{receive-signed, receive-unsigned, receive-once}

-- Neither billing takes the signature for its own.
abbrev pub IsForged :
    (Text → Text → Text) → Config → (Text → Text → WebhookBody → Bool) → Delivery → Type 0
IsForged hmac c seeker d =
    (signature : Text)
    → given d.signature ≡ some signature
    → (verify_webhook_signature hmac c d.body signature ≡ false)
      × (seeker d.body signature d.payload ≡ false)

module _ (db : Client) (hmac : Text → Text → Text) (c : Config)
    (seeker : Text → Text → WebhookBody → Bool) where
  abbrev Refused : Server → Response × Server → Type 0
  Refused server r = (r.1.books ≡ server.books) × (r.0 ≢ accepted)

  receive_signed-Refused :
      (now : ℕ) (signature : Text) (d : Delivery) (server : Server)
      → verify_webhook_signature hmac c d.body signature ≡ false
      → seeker d.body signature d.payload ≡ false
      → Refused server (receive_signed db hmac c seeker now signature d server)
  unfolding receive_signed handle_delivery
  receive_signed-Refused now signature d server unsigned unhandled =
      elim (Bool-cases (claim_delivery now d server).is_new) [
        | inl y ↦ rw (receive_signed, y, handle_delivery, unsigned, unhandled) (refl, λ h. cc)
        | inr n ↦ rw (receive_signed, n) (refl, λ h. cc)
      ]

  -- A request with a forged signature, or with none, is not accepted and changes no account and no
  -- transaction.
  pub receive-forged :
      (now : ℕ) (d : Delivery) (server : Server)
      → IsForged hmac c seeker d
      → ((receive db hmac c seeker now d server).1.books ≡ server.books)
        × ((receive db hmac c seeker now d server).0 ≢ accepted)
  receive-forged now d server forged = elim (Option-cases (given d.signature)) [
    | inl n ↦ rw (receive-unsigned db hmac c seeker now d server n) (refl, λ h. cc)
    | inr (signature, e) ↦
        let (unsigned, unhandled) = forged signature e in
        rw (receive-signed db hmac c seeker now signature d server e)
          (receive_signed-Refused now signature d server unsigned unhandled)
  ]

  -- A request with a forged signature claims the key all the same: when it is the first with its key,
  -- the genuine request that comes after it is answered as a duplicate, and the tables stay as they
  -- were before both.
  pub receive-forged_first :
      (now : ℕ) (d : Delivery) (server : Server) (later : ℕ) (genuine : Delivery)
      → IsForged hmac c seeker d
      → (claim_delivery now d server).is_new ≡ true
      → given d.signature ≢ none
      → given genuine.signature ≢ none
      → delivery_key genuine ≡ delivery_key d
      → let after = (receive db hmac c seeker now d server).1 in
        (receive db hmac c seeker later genuine after ≡ (duplicate, after))
        × (after.books ≡ server.books)
  receive-forged_first now d server later genuine forged new signed signed_genuine same = (
    receive-once db hmac c seeker now d server [] later genuine new signed signed_genuine same tt,
    (receive-forged now d server forged).0,
  )
