-- ===== src/Catalog/Orders/Calls.antt =====
-- The calls of the order service as steps of the shop, and the shops that a history can reach.
use micro_saas_api.Base.{ℕ, ◌≢◌, Bool, List, Option, All, ok, err}
use micro_saas_api.Text.{Text}
use micro_saas_api.Database.{Client}
use micro_saas_api.Catalog.Model.{Order, Shop}
use micro_saas_api.Catalog.Orders.{Answer}
use micro_saas_api.Catalog.Orders.Requests.{CreateOrder, ShippingAddress, ShipOrder}
use micro_saas_api.Catalog.Orders.Payment.{create, attach_screenshot, confirm, reject}
use micro_saas_api.Catalog.Orders.Shipping.{set_shipping_address, mark_shipped, mark_delivered}

-- The arguments of each method, with what the call reads of the clock and of chance.
pub data Call : Type 0 where
  creates : ℕ → CreateOrder → ℕ → List Text → Call
  attaches : ℕ → ℕ → ℕ → Call
  confirms : ℕ → ℕ → ℕ → Call
  rejects : ℕ → ℕ → Option Text → ℕ → Call
  addresses : ℕ → ℕ → ShippingAddress → Bool → Call
  ships : ℕ → ℕ → ShipOrder → ℕ → Call
  delivers : ℕ → ℕ → ℕ → Call

-- A call that throws leaves the tables as they were.
abbrev pub after : Shop → Answer → Shop
after s (ok (o, t)) = t
after s (err e) = s

-- The key that the database gives a new row belongs to no other.
abbrev pub IsFresh : Call → Shop → Type 0
IsFresh (creates user_id dto fresh_id draws) s = All (λ (o : Order). o.id ≢ fresh_id) s.orders
IsFresh _ s = Unit

module _ (db : Client) (encode : Text → Text) where
  unfoldable pub answer : Call → Shop → Answer
  answer (creates user_id dto fresh_id draws) s = create db user_id dto fresh_id draws s
  answer (attaches user_id order_id media_id) s = attach_screenshot db user_id order_id media_id s
  answer (confirms user_id order_id now) s = confirm db user_id order_id now s
  answer (rejects user_id order_id reason now) s = reject db user_id order_id reason now s
  answer (addresses user_id order_id dto notified) s =
      set_shipping_address db user_id order_id dto notified s
  answer (ships user_id order_id dto now) s = mark_shipped db encode user_id order_id dto now s
  answer (delivers user_id order_id now) s = mark_delivered db user_id order_id now s

  unfoldable pub step : Call → Shop → Shop
  unfolding answer
  step c s = after s (answer c s)

  -- Any sequence of calls.
  pub data Reach (s : Shop) : Shop → Type 0 where
    here : Reach s s
    next : {t : Shop} → Reach s t → (c : Call) → IsFresh c t → Reach s (step c t)
