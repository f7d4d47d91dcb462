-- ===== src/Billing/Webhook/Once.antt =====
-- billing-webhook.controller.ts: a request is handled once.
use micro_saas_api.Base.{
  ℕ, ◌+◌, ◌≡◌, ◌≢◌, ◌≤◌, inl, inr, refl, sym, ap, ◌∙◌, Bool, true, false, List, [], ◌∷◌, ◌++◌,
  Option, none, some, any, Bool-cases, Option-cases, arith, All, All-append,
}
use micro_saas_api.Text.{Text}
use micro_saas_api.Database.{Client}
use micro_saas_api.Common.WebhookClaims.{
  Event, claim, has_key, purge_expired, event_key, default_ttl_ms,
}
use micro_saas_api.Common.WebhookClaims.Claims.{
  Call, deliver, purge, PurgesBy, run_call, run, claim-once,
}
use micro_saas_api.Billing.Subscriptions.{Config, given, verify_webhook_signature}
use micro_saas_api.Billing.Subscriptions.Events.{WebhookBody}
use micro_saas_api.Billing.Webhook.{
  Delivery, duplicate, bad_request, Server, razorpay, delivery_key, claim_delivery, handle_delivery,
  receive_signed, receive,
}

-- What happens to the tables: a request, a claim of another webhook, and the removal of old claims.
pub data Step : Type 0 where
  request : (now : ℕ) → Delivery → Step
  claims : (now ttl_ms : ℕ) (source idempotency_key : Text) → Step
  purges : (now : ℕ) → Step

-- No removal after `until`.
abbrev pub IsBefore : ℕ → Step → Type 0
IsBefore until (purges now) = now ≤ until
IsBefore until _ = Unit

-- The claims that a step makes.
abbrev calls_of : Step → List Call
calls_of (request now d) = elim (given d.signature) [
  | none ↦ []
  | some signature ↦ deliver now default_ttl_ms razorpay (delivery_key d) ∷ []
]
calls_of (claims now ttl_ms source key) = deliver now ttl_ms source key ∷ []
calls_of (purges now) = purge now ∷ []

abbrev all_calls : List Step → List Call
all_calls [] = []
all_calls (x ∷ xs) = calls_of x ++ all_calls xs

run-append :
    (xs ys : List Call) (events : List Event) → run (xs ++ ys) events ≡ run ys (run xs events)
run-append [] ys events = refl
run-append (x ∷ xs) ys events = run-append xs ys (run_call x events)

calls_of-PurgesBy : (until : ℕ) (x : Step) → IsBefore until x → All (PurgesBy until) (calls_of x)
calls_of-PurgesBy until (request now d) h = elim (Option-cases (given d.signature)) [
  | inl n ↦ rw (calls_of, n) tt
  | inr (signature, e) ↦ rw (calls_of, e) (tt, tt)
]
calls_of-PurgesBy until (claims now ttl_ms source key) h = (tt, tt)
calls_of-PurgesBy until (purges now) h = (h, tt)

all_calls-PurgesBy :
    (until : ℕ) (xs : List Step) → All (IsBefore until) xs → All (PurgesBy until) (all_calls xs)
all_calls-PurgesBy until [] h = tt
all_calls-PurgesBy until (x ∷ xs) (h, hs) =
    All-append (PurgesBy until) (calls_of x) (all_calls xs) (calls_of-PurgesBy until x h)
      (all_calls-PurgesBy until xs hs)

has {ℓ} : {A : Type ℓ} {o : Option A} → o ≢ none → (a : A) × (o ≡ some a)
has {o = none} h = absurd (h refl)
has {o = some a} h = (a, refl)

claim-old :
    (now ttl_ms : ℕ) (source key : Text) (events : List Event)
    → (claim now ttl_ms source key events).is_new ≡ false
    → (claim now ttl_ms source key events).events ≡ events
unfolding claim
claim-old now ttl_ms source key events h =
    elim (Bool-cases (any (has_key (event_key source key)) events)) [
      | inl y ↦ rw (claim, y) refl
      | inr n ↦ absurd (ground (arith, h, n))
    ]

module _ (db : Client) (hmac : Text → Text → Text) (c : Config)
    (seeker : Text → Text → WebhookBody → Bool) where
  abbrev run_step : Step → Server → Server
  run_step (request now d) server = (receive db hmac c seeker now d server).1
  run_step (claims now ttl_ms source key) server = record server {
    events = (claim now ttl_ms source key server.events).events;
  }
  run_step (purges now) server = record server { events = purge_expired now server.events }

  abbrev pub run_steps : List Step → Server → Server
  run_steps [] server = server
  run_steps (x ∷ xs) server = run_steps xs (run_step x server)

  handle_delivery-events :
      (signature : Text) (d : Delivery) (server : Server)
      → (handle_delivery db hmac c seeker signature d server).1.events ≡ server.events
  unfolding handle_delivery
  handle_delivery-events signature d server =
      elim (Bool-cases (verify_webhook_signature hmac c d.body signature)) [
        | inl y ↦ rw (handle_delivery, y) refl
        | inr n ↦
            rw (handle_delivery, n)
              (elim (Bool-cases (seeker d.body signature d.payload)) [
                | inl y ↦ rw y refl
                | inr m ↦ rw m refl
              ])
      ]

  receive_signed-events :
      (now : ℕ) (signature : Text) (d : Delivery) (server : Server)
      → (receive_signed db hmac c seeker now signature d server).1.events
        ≡ (claim_delivery now d server).events
  unfolding receive_signed
  receive_signed-events now signature d server =
      let after : Server = record server { events = (claim_delivery now d server).events } in
      elim (Bool-cases (claim_delivery now d server).is_new) [
        | inl y ↦ rw (receive_signed, y) (handle_delivery-events signature d after)
        | inr n ↦ rw (receive_signed, n) refl
      ]

  pub receive-signed :
      (now : ℕ) (signature : Text) (d : Delivery) (server : Server)
      → given d.signature ≡ some signature
      → receive db hmac c seeker now d server
        ≡ receive_signed db hmac c seeker now signature d server
  unfolding receive
  receive-signed now signature d server h = rw (receive, h) refl

  pub receive-unsigned :
      (now : ℕ) (d : Delivery) (server : Server)
      → given d.signature ≡ none
      → receive db hmac c seeker now d server ≡ (bad_request, server)
  unfolding receive
  receive-unsigned now d server h = rw (receive, h) refl

  run_step-events :
      (x : Step) (server : Server) → (run_step x server).events ≡ run (calls_of x) server.events
  run_step-events (request now d) server = elim (Option-cases (given d.signature)) [
    | inl n ↦ rw (calls_of, run_step, n, receive-unsigned now d server n) refl
    | inr (signature, e) ↦
        rw (calls_of, run_step, e, receive-signed now signature d server e)
          (receive_signed-events now signature d server)
  ]
  run_step-events (claims now ttl_ms source key) server = refl
  run_step-events (purges now) server = refl

  run_steps-events :
      (xs : List Step) (server : Server)
      → (run_steps xs server).events ≡ run (all_calls xs) server.events
  run_steps-events [] server = refl
  run_steps-events (x ∷ xs) server =
      run_steps-events xs (run_step x server)
      ∙ ap (run (all_calls xs)) (run_step-events x server)
      ∙ sym (run-append (calls_of x) (all_calls xs) server.events)

  -- A request whose key is claimed is a duplicate, which changes no table.
  receive-claimed :
      (now : ℕ) (signature : Text) (d : Delivery) (server : Server)
      → given d.signature ≡ some signature
      → (claim_delivery now d server).is_new ≡ false
      → receive db hmac c seeker now d server ≡ (duplicate, server)
  unfolding receive_signed
  receive-claimed now signature d server e old =
      receive-signed now signature d server e
      ∙ rw (receive_signed, old)
          (ap (λ events. (duplicate, record server { events = events }))
            (claim-old now default_ttl_ms razorpay (delivery_key d) server.events old))

  -- A request that was the first with its key is handled once: after it, whatever comes between, any
  -- request with a signature and the same key is answered as a duplicate and changes no table, as
  -- long as no removal of old claims is later than the seven days that a claim lasts.
  pub receive-once :
      (now : ℕ) (d : Delivery) (server : Server) (xs : List Step) (later : ℕ) (again : Delivery)
      → (claim_delivery now d server).is_new ≡ true
      → given d.signature ≢ none
      → given again.signature ≢ none
      → delivery_key again ≡ delivery_key d
      → All (IsBefore (now + default_ttl_ms)) xs
      → let after = run_steps xs (receive db hmac c seeker now d server).1 in
        receive db hmac c seeker later again after ≡ (duplicate, after)
  receive-once now d server xs later again new signed signed_again same before =
      let first = (receive db hmac c seeker now d server).1 in
      let after = run_steps xs first in
      let (signature, e) = has signed in
      let (signature_again, e_again) = has signed_again in
      let claimed : first.events ≡ (claim_delivery now d server).events =
        ap (λ r. r.1.events) (receive-signed now signature d server e)
        ∙ receive_signed-events now signature d server in
      let later_events : after.events ≡ run (all_calls xs) (claim_delivery now d server).events =
        run_steps-events xs first ∙ ap (run (all_calls xs)) claimed in
      let old : (claim_delivery later again after).is_new ≡ false =
        rw (claim_delivery, same, later_events)
          (claim-once now default_ttl_ms razorpay (delivery_key d) server.events (all_calls xs)
            later default_ttl_ms (all_calls-PurgesBy (now + default_ttl_ms) xs before) new) in
      receive-claimed later signature_again again after e_again old
