-- ===== src/Catalog/Orders/Lifecycle.antt =====
-- The life of an order: which statuses go together, and which changes a call may make.
use micro_saas_api.Base.{◌≡◌, ◌≤◌, ◌⊎◌, inl, inr, refl, true, Option, none, some, length}
use micro_saas_api.Text.{Text}
use micro_saas_api.Catalog.Model.{
  PaymentStatus, payment_pending, payment_submitted, payment_verified, payment_rejected,
  OrderStatus, pending_payment, pending_verification, confirmed, ready_to_ship, shipped, delivered,
  rejected, cancelled, completed, Order,
}
use micro_saas_api.Catalog.Orders.Shipping.{is_filled}

-- The payment status that goes with an order status.
abbrev pub Agrees : OrderStatus → PaymentStatus → Type 0
Agrees pending_payment p = p ≡ payment_pending
Agrees pending_verification p = p ≡ payment_submitted
Agrees confirmed p = p ≡ payment_verified
Agrees ready_to_ship p = p ≡ payment_verified
Agrees shipped p = p ≡ payment_verified
Agrees delivered p = p ≡ payment_verified
Agrees rejected p = p ≡ payment_rejected
Agrees cancelled p = Unit
Agrees completed p = Unit

abbrev pub IsTracked : Option Text → Type 0
IsTracked none = ⊥
IsTracked (some t) = 3 ≤ length t

-- What a parcel needs: an address with a pincode, and a tracking number.
pub record IsComplete (o : Order) : Type 0 where
  pub address : is_filled o.shipping_address_line ≡ true
  pub pincode : is_filled o.shipping_pincode ≡ true
  pub tracking : IsTracked o.tracking_number

abbrev pub Dispatched : OrderStatus → Order → Type 0
Dispatched shipped o = IsComplete o
Dispatched delivered o = IsComplete o
Dispatched _ o = Unit

pub record IsSound (o : Order) : Type 0 where
  pub agrees : Agrees o.order_status o.payment_status
  pub dispatched : Dispatched o.order_status o

-- What is being sold, and to whom, is not touched.
pub record SameSale (o o' : Order) : Type 0 where
  pub id : o'.id ≡ o.id
  pub user_id : o'.user_id ≡ o.user_id
  pub site_id : o'.site_id ≡ o.site_id
  pub product_id : o'.product_id ≡ o.product_id
  pub quantity : o'.quantity ≡ o.quantity

-- The edges of an order's life that leave the stock alone.
pub data Edge (o o' : Order) : Type 0 where
  submit :
      (o.order_status ≡ pending_payment) ⊎ (o.order_status ≡ pending_verification)
      → o'.order_status ≡ pending_verification
      → o'.payment_status ≡ payment_submitted
      → Edge o o'
  refuse :
      o.order_status ≡ pending_verification
      → o'.order_status ≡ rejected
      → o'.payment_status ≡ payment_rejected
      → Edge o o'
  address :
      (o.order_status ≡ confirmed) ⊎ (o.order_status ≡ ready_to_ship)
      → o'.order_status ≡ ready_to_ship
      → o'.payment_status ≡ o.payment_status
      → Edge o o'
  ship :
      (o.order_status ≡ confirmed) ⊎ (o.order_status ≡ ready_to_ship)
      → o'.order_status ≡ shipped
      → o'.payment_status ≡ o.payment_status
      → IsComplete o'
      → Edge o o'
  deliver :
      o.order_status ≡ shipped
      → o'.order_status ≡ delivered
      → o'.payment_status ≡ o.payment_status
      → (IsComplete o → IsComplete o')
      → Edge o o'

-- The edge that takes its quantity from the stock.
pub record Sale (o o' : Order) : Type 0 where
  pub waited : o.order_status ≡ pending_verification
  pub submitted : o.payment_status ≡ payment_submitted
  pub sold : o'.order_status ≡ confirmed
  pub verified : o'.payment_status ≡ payment_verified

pub Edge-IsSound : (o o' : Order) → Edge o o' → IsSound o → IsSound o'
Edge-IsSound o o' (submit h p q) v = record { agrees = rw (p, q) refl; dispatched = rw p tt }
Edge-IsSound o o' (refuse h p q) v = record { agrees = rw (p, q) refl; dispatched = rw p tt }
Edge-IsSound o o' (address (inl h) p q) v = record {
  agrees = rw (p, q) (rw h at v.agrees);
  dispatched = rw p tt;
}
Edge-IsSound o o' (address (inr h) p q) v = record {
  agrees = rw (p, q) (rw h at v.agrees);
  dispatched = rw p tt;
}
Edge-IsSound o o' (ship (inl h) p q c) v = record {
  agrees = rw (p, q) (rw h at v.agrees);
  dispatched = simp p c;
}
Edge-IsSound o o' (ship (inr h) p q c) v = record {
  agrees = rw (p, q) (rw h at v.agrees);
  dispatched = simp p c;
}
Edge-IsSound o o' (deliver h p q c) v = record {
  agrees = rw (p, q) (rw h at v.agrees);
  dispatched = simp p (c (simp h at v.dispatched));
}

pub Sale-IsSound : (o o' : Order) → Sale o o' → IsSound o'
Sale-IsSound o o' w = record { agrees = rw (w.sold, w.verified) refl; dispatched = rw w.sold tt }
