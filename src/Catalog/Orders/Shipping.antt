-- ===== src/Catalog/Orders/Shipping.antt =====
-- catalog-orders.service.ts: the shipping address, dispatch (one order or many) and delivery.
-- `encode` is `encodeURIComponent`.
use micro_saas_api.Base.{
  ℕ, ◌-◌, Bool, true, false, not, ◌&&◌, ◌||◌, List, [], ◌∷◌, Option, none, some, if◌then◌else◌, ltb,
  Result, ok, err, ◌>>=◌, ◌>>◌, require, length, filter,
}
use micro_saas_api.Database.{Client}
use micro_saas_api.Text.{Text, trim, digits_only, take, trimmed_or, or_else}
use micro_saas_api.Catalog.TrackingUrl.{build_courier_tracking_url}
use micro_saas_api.Catalog.Model.{
  confirmed, ready_to_ship, shipped, delivered, same_status, Order, address_received,
  order_was_shipped, order_was_delivered, Shop, OrderError, bad_pincode, no_address, no_tracking,
  cannot_address, cannot_ship, cannot_deliver,
}
use micro_saas_api.Catalog.Orders.Requests.{ShippingAddress, ShipOrder}
use micro_saas_api.Catalog.Orders.{Answer, notify, require_site, require_order, update_order}

abbrev pub set_address : ShippingAddress → Text → Order → Order → Order
set_address dto pincode read o = record o {
  shipping_name = trimmed_or dto.shipping_name (or_else read.customer_name none);
  shipping_address_line = some (trim dto.shipping_address_line);
  shipping_city = trimmed_or dto.shipping_city none;
  shipping_state = trimmed_or dto.shipping_state none;
  shipping_pincode = some pincode;
  shipping_landmark = trimmed_or dto.shipping_landmark none;
  shipping_phone = trimmed_or dto.shipping_phone (or_else read.customer_phone none);
  order_status = ready_to_ship;
}

abbrev pub ship_order : (Text → Text) → ShipOrder → ℕ → Order → Order
ship_order encode dto now o =
    let tracking = trim dto.tracking_number in
    let courier = trimmed_or dto.courier_name none in
    record o {
      order_status = shipped;
      tracking_number = some tracking;
      courier_name = courier;
      tracking_url =
          trimmed_or dto.tracking_url
            (or_else (build_courier_tracking_url encode courier (some tracking)) none);
      shipped_at = some now;
    }

abbrev pub deliver_order : ℕ → Order → Order
deliver_order now o = record o { order_status = delivered; delivered_at = some now }

-- `!order.shippingAddressLine`: absent or empty.
abbrev pub is_filled : Option Text → Bool
is_filled none = false
is_filled (some []) = false
is_filled (some (c ∷ s)) = true

abbrev pub pincode_of : ShippingAddress → Text
pincode_of dto = take 12 (digits_only dto.shipping_pincode)

pub record BulkShipped : Type 0 where
  pub shipped : ℕ
  pub failed : ℕ
  pub results : List (ℕ × Bool)

module _ (db : Client) where
  -- `notify_customer` is `opts?.notifyCustomer !== false`.
  unfoldable pub set_shipping_address : ℕ → ℕ → ShippingAddress → Bool → Shop → Answer
  set_shipping_address user_id order_id dto notify_customer s = do
    order ← require_order db user_id order_id s
    require
        (same_status order.order_status confirmed || same_status order.order_status ready_to_ship)
        (cannot_address order.order_status)
    require (not (ltb (length (pincode_of dto)) 6)) bad_pincode
    let change = set_address dto (pincode_of dto) order
    let updated = update_order db order.id change s
    ok (
      change order,
      if notify_customer then notify (address_received order.id) updated else updated,
    )

  module _ (encode : Text → Text) where
    unfoldable pub ship_one : ℕ → ℕ → ShipOrder → ℕ → Shop → Answer
    ship_one user_id order_id dto now s = do
      order ← require_order db user_id order_id s
      require
          (same_status order.order_status ready_to_ship || same_status order.order_status confirmed)
          (cannot_ship order.order_status)
      require (is_filled order.shipping_address_line && is_filled order.shipping_pincode) no_address
      require (not (ltb (length (trim dto.tracking_number)) 3)) no_tracking
      let change = ship_order encode dto now
      ok (change order, update_order db order.id change s)

    unfoldable pub mark_shipped : ℕ → ℕ → ShipOrder → ℕ → Shop → Answer
    mark_shipped user_id order_id dto now s = do
      shipment ← ship_one user_id order_id dto now s
      ok (shipment.0, notify (order_was_shipped shipment.0.id) shipment.1)

    -- One round of `bulkMarkShipped`: an item that fails is reported and changes nothing.
    pub ship_item : ℕ → ℕ × ShipOrder → ℕ → Shop → (ℕ × Bool) × Shop
    unfolding mark_shipped
    ship_item user_id (order_id, dto) now s = elim (mark_shipped user_id order_id dto now s) [
      | ok (order, t) ↦ ((order_id, true), t)
      | err e ↦ ((order_id, false), s)
    ]

    pub ship_items : ℕ → List (ℕ × ShipOrder) → ℕ → Shop → List (ℕ × Bool) × Shop
    unfolding ship_item
    ship_items user_id [] now s = ([], s)
    ship_items user_id (item ∷ items) now s =
        let (done, t) = ship_item user_id item now s in
        let (results, u) = ship_items user_id items now t in (done ∷ results, u)

    unfoldable pub bulk_mark_shipped :
        ℕ → List (ℕ × ShipOrder) → ℕ → Shop → Result OrderError (BulkShipped × Shop)
    unfolding ship_items
    bulk_mark_shipped user_id items now s = do
      site ← require_site db user_id s
      let (results, t) = ship_items user_id items now s
      let shipped_count = length (filter (λ r. r.1) results)
      ok (
        record {
          shipped = shipped_count;
          failed = length results - shipped_count;
          results = results;
        },
        t,
      )

  unfoldable pub mark_delivered : ℕ → ℕ → ℕ → Shop → Answer
  mark_delivered user_id order_id now s = do
    order ← require_order db user_id order_id s
    require (same_status order.order_status shipped) (cannot_deliver order.order_status)
    let change = deliver_order now
    ok (change order, notify (order_was_delivered order.id) (update_order db order.id change s))
