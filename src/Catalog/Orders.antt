-- ===== src/Catalog/Orders.antt =====
-- catalog-orders.service.ts: the operations that change orders and stock. An operation returns the
-- order that it answers with and the new tables, or the exception; a method that throws has changed
-- nothing (one write, or a transaction that is rolled back). `now` is the time of the call, and
-- notices are the fire-and-forget messages of the notification service.
pub mod Requests
pub mod Changes
pub mod Payment
pub mod Shipping
pub mod Calls
pub mod Lifecycle
pub mod Moves
pub mod Invariant
pub mod Stock
pub mod Races
pub mod Tests
use micro_saas_api.Base.{
  ℕ, zero, suc, ◌+◌, Bool, true, false, ◌&&◌, List, [], ◌∷◌, ◌++◌, Option, none, some,
  if◌then◌else◌, ◌==◌, Result, ok, err, require, or_throw,
}
use micro_saas_api.Database.{Client}
use micro_saas_api.Text.{Text, trim, digits_only, take, same_text, trimmed_or, or_else}
use micro_saas_api.Catalog.TrackingUrl.{build_courier_tracking_url}
use micro_saas_api.Catalog.Model.{
  PaymentStatus, payment_pending, payment_submitted, payment_verified, payment_rejected,
  OrderStatus, pending_payment, pending_verification, confirmed, ready_to_ship, shipped, delivered,
  rejected, same_payment, same_status, Order, Product, Site, Media, Contact, Notice,
  payment_was_submitted, order_was_confirmed, order_was_rejected, address_received,
  order_was_shipped, order_was_delivered, Shop, OrderError, site_not_found, product_not_found,
  product_inactive, out_of_stock, payments_not_configured, contact_not_found, no_unique_number,
  order_not_found, screenshot_closed, media_not_found, not_an_image, no_product, already_decided,
  insufficient_stock, bad_pincode, no_address, no_tracking, cannot_confirm, cannot_reject,
  cannot_address, cannot_ship, cannot_deliver,
}
use Requests.{CreateOrder, ShippingAddress, ShipOrder}

-- What a method answers: the order and the tables after it.
abbrev pub Answer : Type 0
Answer = Result OrderError (Order × Shop)

-- `!id`: an absent id, or 0.
abbrev pub truthy_id : Option ℕ → Option ℕ
truthy_id none = none
truthy_id (some zero) = none
truthy_id (some (suc n)) = some (suc n)

abbrev pub is_some {ℓ} : {A : Type ℓ} → Option A → Bool
is_some none = false
is_some (some a) = true

abbrev pub notify : Notice → Shop → Shop
notify n s = record s { outbox = s.outbox ++ n ∷ [] }

-- CATALOG_ORDER_QUANTITY_V1
abbrev pub order_quantity_v1 : ℕ
order_quantity_v1 = 1

-- `where: { id, userId }`
abbrev pub has_id : ℕ → ℕ → Order → Bool
has_id user_id order_id o = o.id == order_id && o.user_id == user_id

module _ (db : Client) where
  unfoldable pub require_site : ℕ → Shop → Result OrderError Site
  require_site user_id s =
      or_throw (db.find_first (λ (x : Site). x.user_id == user_id) s.sites) site_not_found

  unfoldable pub require_order : ℕ → ℕ → Shop → Result OrderError Order
  require_order user_id order_id s =
      or_throw (db.find_first (has_id user_id order_id) s.orders) order_not_found

  -- `update({ where: { id }, data })`
  unfoldable pub update_order : ℕ → (Order → Order) → Shop → Shop
  update_order order_id change s = record s {
    orders = (db.update_many (λ (o : Order). o.id == order_id) change s.orders).0;
  }

  -- The attempts of `generateOrderNumber` that are left, and the numbers that they draw.
  pub try_order_numbers : List Text → Shop → Result OrderError Text
  try_order_numbers [] s = err no_unique_number
  try_order_numbers (number ∷ draws) s =
      let rest = try_order_numbers draws s in
      if is_some (db.find_first (λ (o : Order). same_text o.order_number number) s.orders)
      then rest
      else ok number

  -- At most eight attempts.
  pub generate_order_number : List Text → Shop → Result OrderError Text
  unfolding try_order_numbers
  generate_order_number draws s = try_order_numbers (take 8 draws) s

  unfoldable pub require_contact : ℕ → Option ℕ → Shop → Result OrderError (Unit {0})
  require_contact user_id none s = ok tt
  require_contact user_id (some c) s =
      require
        (is_some (db.find_first (λ (x : Contact). x.id == c && x.user_id == user_id) s.contacts))
        contact_not_found
