-- ===== src/Billing/Webhook.antt =====
-- billing-webhook.controller.ts: a request of Razorpay, claimed once and then handled. A failure of the
-- database while it is handled, which answers 500, is left out.
pub mod Once
pub mod Forged
pub mod Tests
use micro_saas_api.Base.{ℕ, Bool, List, [], ◌∷◌, Option, none, some, if◌then◌else◌}
use micro_saas_api.Text.{Text, codes, trim}
use micro_saas_api.Database.{Client}
use micro_saas_api.Common.WebhookClaims.{
  Event, Claim, claim, purge_expired, build_razorpay_key, default_ttl_ms,
}
use micro_saas_api.Billing.Subscriptions.{
  Books, Config, given, or_default, verify_webhook_signature,
}
use micro_saas_api.Billing.Subscriptions.Events.{Entity, WebhookBody, handle_webhook_event}

-- A request: two headers, the raw body, the event and the payload that it parses to, and the SHA-256
-- that Node makes of the payload.
pub record Delivery : Type 0 where
  pub signature : Option Text
  pub event_id : Option Text
  pub body : Text
  pub event : Text
  pub payload : WebhookBody
  pub digest : Text

-- The answers 200, 200 with `duplicate`, and 400.
pub data Response : Type 0 where
  accepted duplicate bad_request : Response

-- The tables that a request reads and writes.
pub record Server : Type 0 where
  pub events : List Event
  pub books : Books

abbrev id_of : Option Entity → Option Text
id_of none = none
id_of (some e) = e.id

-- `eventId?.trim() || buildRazorpayKey(event, payload)`
unfoldable pub delivery_key : Delivery → Text
delivery_key d = elim (trim (or_default d.event_id [])) [
  | [] ↦
      build_razorpay_key d.event (id_of d.payload.payment) (id_of d.payload.subscription) d.digest
  | ch ∷ s ↦ ch ∷ s
]

abbrev pub razorpay : Text
razorpay = codes "razorpay"

abbrev pub claim_delivery : ℕ → Delivery → Server → Claim
claim_delivery now d server = claim now default_ttl_ms razorpay (delivery_key d) server.events

-- `handleWebhookWithSignature` of the job seekers' billing, whose tables are not these, is a
-- parameter: whether it handled the request.
module _ (db : Client) (hmac : Text → Text → Text) (c : Config)
    (seeker : Text → Text → WebhookBody → Bool) where
  -- The request after its claim.
  unfoldable pub handle_delivery : Text → Delivery → Server → Response × Server
  handle_delivery signature d server =
      let handled = (handle_webhook_event db c d.event d.payload server.books).1 in
      if verify_webhook_signature hmac c d.body signature
      then (accepted, record server { books = handled })
      else if seeker d.body signature d.payload
      then (accepted, server)
      else (bad_request, server)

  -- A request with a signature.
  unfoldable pub receive_signed : ℕ → Text → Delivery → Server → Response × Server
  receive_signed now signature d server =
      let claimed = claim_delivery now d server in
      let handled = handle_delivery signature d (record server { events = claimed.events }) in
      if claimed.is_new then handled else (duplicate, record server { events = claimed.events })

  -- receive
  unfoldable pub receive : ℕ → Delivery → Server → Response × Server
  receive now d server = elim (given d.signature) [
    | none ↦ (bad_request, server)
    | some signature ↦ receive_signed now signature d server
  ]
