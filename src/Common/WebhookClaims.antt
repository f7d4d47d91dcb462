-- ===== src/Common/WebhookClaims.antt =====
-- common/webhook-idempotency/webhook-idempotency.service.ts: the events that have been handled.
-- Instants are milliseconds; the database refuses a second row with the same key.
pub mod Claims
pub mod Tests
use micro_saas_api.Base.{
  ℕ, ◌+◌, ◌*◌, Bool, true, false, not, List, ◌∷◌, ◌++◌, Option, some, if◌then◌else◌, filter, any,
  ltb,
}
use micro_saas_api.Text.{Text, codes, same_text, take}

-- ProcessedWebhookEvent
pub record Event : Type 0 where
  pub source : Text
  pub idempotency_key : Text
  pub expires_at : ℕ

-- DEFAULT_TTL_MS
abbrev pub default_ttl_ms : ℕ
default_ttl_ms = 7 * 24 * 60 * 60 * 1000

abbrev pub event_key : Text → Text → Text
event_key source idempotency_key = take 128 (source ++ codes ":" ++ idempotency_key)

abbrev pub has_key : Text → Event → Bool
has_key key e = same_text e.idempotency_key key

pub record Claim : Type 0 where
  pub is_new : Bool
  pub events : List Event

-- `claim` at `now`.
unfoldable pub claim : ℕ → ℕ → Text → Text → List Event → Claim
unfolding same_text
claim now ttl_ms source idempotency_key events =
    let key = event_key source idempotency_key in
    if any (has_key key) events then record { is_new = false; events = events } else record {
      is_new = true;
      events =
          record { source = source; idempotency_key = key; expires_at = now + ttl_ms } ∷ events;
    }

unfoldable pub purge_expired : ℕ → List Event → List Event
purge_expired now events = filter (λ e. not (ltb e.expires_at now)) events

-- `payment?.entity?.id` and `subscription?.entity?.id` of a payload; the empty text counts as absent.
-- `digest` is the text that Node's SHA-256 makes of the payload.
abbrev pub build_razorpay_key : Text → Option Text → Option Text → Text → Text
build_razorpay_key event (some (c ∷ p)) subscription digest = event ++ codes ":" ++ (c ∷ p)
build_razorpay_key event payment (some (c ∷ s)) digest = event ++ codes ":" ++ (c ∷ s)
build_razorpay_key event payment subscription digest = take 32 digest
