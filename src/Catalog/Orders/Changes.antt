-- ===== src/Catalog/Orders/Changes.antt =====
-- catalog-orders.service.ts: the `where` and `data` of the writes to orders and stock.
use micro_saas_api.Base.{ℕ, ◌-◌, ◌*◌, Bool, ◌&&◌, Option, none, some, leb, ◌==◌}
use micro_saas_api.Text.{Text, trimmed_or}
use micro_saas_api.Catalog.Model.{
  payment_pending, payment_submitted, payment_verified, payment_rejected, pending_payment,
  pending_verification, confirmed, rejected, same_payment, same_status, Order, Product, Site,
}
use micro_saas_api.Catalog.Orders.Requests.{CreateOrder}
use micro_saas_api.Catalog.Orders.{order_quantity_v1, has_id}

-- `priceAmount != null ? Number(priceAmount) : 0`
abbrev pub price_or_0 : Option ℕ → ℕ
price_or_0 none = 0
price_or_0 (some n) = n

-- The row that `create` inserts. `fresh_id` is the key that the database gives it.
abbrev pub new_order : ℕ → ℕ → Site → Product → CreateOrder → Text → Order
new_order fresh_id user_id site product dto number = record {
  id = fresh_id;
  order_number = number;
  user_id = user_id;
  site_id = site.id;
  contact_id = dto.contact_id;
  customer_phone = trimmed_or dto.customer_phone none;
  customer_name = trimmed_or dto.customer_name none;
  product_id = some product.id;
  product_name = product.name;
  product_price = product.price_amount;
  quantity = order_quantity_v1;
  amount_inr = price_or_0 product.price_amount * order_quantity_v1;
  payment_status = payment_pending;
  order_status = pending_payment;
  payment_screenshot_media_id = none;
  verified_at = none;
  verified_by_user_id = none;
  rejection_reason = none;
  notes = trimmed_or dto.notes none;
  shipping_name = none;
  shipping_address_line = none;
  shipping_city = none;
  shipping_state = none;
  shipping_pincode = none;
  shipping_landmark = none;
  shipping_phone = none;
  courier_name = none;
  tracking_number = none;
  tracking_url = none;
  shipped_at = none;
  delivered_at = none;
}

abbrev pub take_screenshot : ℕ → Order → Order
take_screenshot media_id o = record o {
  payment_screenshot_media_id = some media_id;
  payment_status = payment_submitted;
  order_status = pending_verification;
}

-- The orders that `confirm` may claim.
abbrev pub is_claimable : ℕ → ℕ → Order → Bool
is_claimable user_id order_id o =
    has_id user_id order_id o
    && same_status o.order_status pending_verification
    && same_payment o.payment_status payment_submitted

abbrev pub claim_order : ℕ → ℕ → Order → Order
claim_order user_id now o = record o {
  payment_status = payment_verified;
  order_status = confirmed;
  verified_at = some now;
  verified_by_user_id = some user_id;
  rejection_reason = none;
}

abbrev pub has_stock_for : ℕ → Order → Product → Bool
has_stock_for product_id o p =
    p.id == product_id && p.site_id == o.site_id && leb o.quantity p.stock_quantity

abbrev pub deduct : ℕ → Product → Product
deduct quantity p = record p { stock_quantity = p.stock_quantity - quantity }

abbrev pub reject_order : ℕ → ℕ → Option Text → Order → Order
reject_order user_id now reason o = record o {
  payment_status = payment_rejected;
  order_status = rejected;
  verified_at = some now;
  verified_by_user_id = some user_id;
  rejection_reason = trimmed_or reason none;
}

abbrev pub is_rejectable : ℕ → ℕ → Order → Bool
is_rejectable user_id order_id o =
    has_id user_id order_id o && same_status o.order_status pending_verification
