-- ===== src/Catalog/Orders/Tests.antt =====
-- The order service on a shop with one unit of a product and two buyers who have paid for it.
use micro_saas_api.Base.{
  ℕ, ◌+◌, ◌≡◌, refl, true, List, [], ◌∷◌, Option, none, some, arith, ok, err, map, ◌>>=◌, here,
}
use micro_saas_api.Catalog.Orders.Changes.{new_order, take_screenshot}
use micro_saas_api.Catalog.Orders.Payment.{claim_and_deduct, confirm, reject}
use micro_saas_api.Catalog.Orders.Calls.{after, step, here, next, confirms}
use micro_saas_api.Database.{Client}
use micro_saas_api.Text.{Text, trim, digits_only}
use micro_saas_api.Catalog.Model.{
  OrderStatus, delivered, Order, Product, Site, Media, Shop, already_decided,
}
use micro_saas_api.Catalog.Orders.Requests.{ShippingAddress, ShipOrder}
use micro_saas_api.Catalog.Orders.{Answer, require_order, update_order}
use micro_saas_api.Database.{list_client}
use micro_saas_api.Catalog.Orders.Invariant.{Inv, Reach-Inv}
use micro_saas_api.Catalog.Orders.Stock.{stock, sold, Reach-Conserves}
use micro_saas_api.Catalog.Orders.Races.{confirm_race, last_item_race}
use micro_saas_api.Catalog.Orders.Shipping.{
  ship_one, mark_shipped, mark_delivered, set_shipping_address,
}
use micro_saas_api.Text.{is_digit, codes}

abbrev db : Client
db = list_client

-- A stand-in for `encodeURIComponent`.
abbrev encode : Text → Text
encode t = t

abbrev site : Site
site = record { id = 1; user_id = 9; payments_enabled = true; payment_qr_media_id = some 4 }

abbrev mug : Product
mug = record {
  id = 5;
  site_id = 1;
  name = codes "Mug";
  price_amount = some 25000;
  is_active = true;
  stock_quantity = 1;
}

abbrev proof_image : Media
proof_image = record { id = 7; site_id = 1; is_image = true }

abbrev paid : ℕ → Order
paid n = take_screenshot 7 (
    new_order n 9 site mug
      (record {
        product_id = 5;
        contact_id = none;
        customer_phone = none;
        customer_name = some (codes " Asha ");
        notes = none;
      })
      (n ∷ []))

abbrev shop : Shop
shop = record {
  sites = site ∷ [];
  products = mug ∷ [];
  media = proof_image ∷ [];
  contacts = [];
  orders = paid 1 ∷ paid 2 ∷ [];
  outbox = [];
}

abbrev addressed : ShippingAddress
addressed = record {
  shipping_name = none;
  shipping_address_line = codes "1 MG Road";
  shipping_city = none;
  shipping_state = none;
  shipping_pincode = codes "560 001";
  shipping_landmark = none;
  shipping_phone = none;
}

abbrev parcel : ShipOrder
parcel = record {
  tracking_number = codes " AWB12 ";
  courier_name = some (codes "DTDC");
  tracking_url = none;
}

status_of : Answer → Option (OrderStatus × List ℕ)
status_of (ok (o, s)) = some (o.order_status, map (λ (p : Product). p.stock_quantity) s.products)
status_of (err e) = none

-- A whole life: confirmed, addressed, shipped, delivered.
abbrev life : Answer
life = do
  a ← confirm db 9 1 100 shop
  b ← set_shipping_address db 9 1 addressed true a.1
  c ← mark_shipped db encode 9 1 parcel 200 b.1
  mark_delivered db 9 1 300 c.1

life_test : status_of life ≡ some (delivered, 0 ∷ [])
unfolding status_of confirm set_shipping_address mark_shipped ship_one mark_delivered update_order
    require_order ◌>>=◌ digits_only is_digit trim
life_test = refl

shop-Inv : Inv shop
shop-Inv = record {
  order_key = (((λ e. omega arith), tt), (tt, tt));
  product_key = (tt, tt);
  sound =
      (record { agrees = refl; dispatched = tt }, (record { agrees = refl; dispatched = tt }, tt));
}

-- The shop after the first buyer's order is claimed.
abbrev claimed : Shop
claimed = after shop (claim_and_deduct db 9 100 (paid 1) 5 shop)

abbrev turned_down : Shop
turned_down = after shop (reject db 9 1 none 100 shop)

Reach-Inv_example : Inv (step db encode (confirms 9 1 100) shop)
Reach-Inv_example = Reach-Inv db encode shop _ shop-Inv (next here (confirms 9 1 100) tt)

Reach-Conserves_example :
    stock 5 (step db encode (confirms 9 1 100) shop)
      + sold 5 (step db encode (confirms 9 1 100) shop)
    ≡ 1
Reach-Conserves_example =
    Reach-Conserves 5 db encode shop _ shop-Inv (next here (confirms 9 1 100) tt)

confirm_race_example : claim_and_deduct db 9 101 (paid 1) 5 claimed ≡ err already_decided
unfolding claim_and_deduct ◌>>=◌
confirm_race_example = confirm_race db 9 100 101 5 5 (paid 1) _ shop claimed refl

last_item_race_example :
    ¬ ((r : Order × Shop) × (claim_and_deduct db 9 101 (paid 2) 5 claimed ≡ ok r))
unfolding claim_and_deduct ◌>>=◌
last_item_race_example =
    last_item_race db 9 9 100 101 5 (paid 1) (paid 2) _ shop claimed (tt, tt) (omega arith) refl
