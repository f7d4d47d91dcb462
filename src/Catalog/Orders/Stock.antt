-- ===== src/Catalog/Orders/Stock.antt =====
-- The units of a product: those in stock, and those that its orders hold.
use micro_saas_api.Base.{
  ℕ, ◌+◌, ◌-◌, ◌≡◌, ◌≤◌, refl, ◌∙◌, Bool, false, ◌&&◌, List, [], ◌∷◌, Option, none, some, arith,
  inl, inr, ◌==◌, if◌then◌else◌, sum_by, sum_by-append, All-Member, here,
}
use micro_saas_api.Database.Rows.{update_rows, IsKey, sum_by-update_one}
use micro_saas_api.Catalog.Orders.Lifecycle.{
  Edge, submit, refuse, address, ship, deliver, Sale, SameSale, IsSound,
}
use micro_saas_api.Catalog.Orders.Moves.Shipping.{step-Move}
use micro_saas_api.Catalog.Orders.Calls.{Reach, here, next}
use micro_saas_api.Database.{Client}
use micro_saas_api.Text.{Text}
use micro_saas_api.Catalog.Model.{
  payment_pending, payment_verified, same_payment, Order, Product, Shop,
}
use micro_saas_api.Catalog.Orders.Moves.{IsChange, Move, idle, place, change, sell}
use micro_saas_api.Catalog.Orders.Invariant.{Inv, Reach-Inv}

abbrev is_product : ℕ → Option ℕ → Bool
is_product product_id none = false
is_product product_id (some n) = n == product_id

-- What an order holds of a product, once its payment is verified.
abbrev pub units_sold : ℕ → Order → ℕ
units_sold product_id o =
    if same_payment o.payment_status payment_verified && is_product product_id o.product_id
    then o.quantity
    else 0

abbrev pub units_left : ℕ → Product → ℕ
units_left product_id p = if p.id == product_id then p.stock_quantity else 0

abbrev pub sold : ℕ → Shop → ℕ
sold product_id s = sum_by (units_sold product_id) s.orders

abbrev pub stock : ℕ → Shop → ℕ
stock product_id s = sum_by (units_left product_id) s.products

Edge-units :
    (i : ℕ) (o o' : Order)
    → Edge o o'
    → SameSale o o'
    → IsSound o
    → units_sold i o' ≡ units_sold i o
Edge-units i o o' (submit (inl h) p q) k v = rw (q, (rw h at v.agrees)) refl
Edge-units i o o' (submit (inr h) p q) k v = rw (q, (rw h at v.agrees)) refl
Edge-units i o o' (refuse h p q) k v = rw (q, (rw h at v.agrees)) refl
Edge-units i o o' (address h p q) k v = rw (q, k.product_id, k.quantity) refl
Edge-units i o o' (ship h p q c) k v = rw (q, k.product_id, k.quantity) refl
Edge-units i o o' (deliver h p q c) k v = rw (q, k.product_id, k.quantity) refl

-- The one row that changes, changes the sum.
sold-change :
    (g : Order → ℕ) (orders : List Order) (o : Order) (p : Order → Bool) (f : Order → Order)
    → IsChange orders o p f
    → IsKey (λ x. x.id) orders
    → sum_by g (update_rows p f orders) + g o ≡ sum_by g orders + g (f o)
sold-change g orders o p f c k =
    sum_by-update_one g (λ x. x.id) p f orders k c.only c.listed c.selected

module _ (i : ℕ) where
  abbrev Conserves : Shop → Shop → Type 0
  Conserves s t = stock i t + sold i t ≡ stock i s + sold i s

  sell-sold :
      (o o' : Order)
      → Sale o o'
      → SameSale o o'
      → (units_sold i o ≡ 0)
        × (units_sold i o' ≡ (if is_product i o.product_id then o.quantity else 0))
  sell-sold o o' w k = (rw w.submitted refl, rw (w.verified, k.product_id, k.quantity) refl)

  sell-left :
      (o : Order) (x : Product) (g : Product → Product)
      → o.product_id ≡ some x.id
      → o.quantity ≤ x.stock_quantity
      → ((y : Product) → g y ≡ record y { stock_quantity = y.stock_quantity - o.quantity })
      → units_left i (g x) + (if is_product i o.product_id then o.quantity else 0) ≡ units_left i x
  sell-left o x g pid fits deducts = rw (deducts x, pid) (ground arith)

  Move-Conserves : {s t : Shop} → Inv s → Move s t → Conserves s t
  Move-Conserves v (idle e d) = rw (e, d) refl
  Move-Conserves {s} v (place o a b fresh e d) =
      rw (e, d) (omega (arith, sum_by-append (units_sold i) s.orders (o ∷ []), zero_units o b))
    where
      zero_units : (o : Order) → o.payment_status ≡ payment_pending → units_sold i o ≡ 0
      zero_units o b = rw b refl
  Move-Conserves {s} v (change o p f c edge e d) =
      rw (e, d)
        (omega (
          arith,
          sold-change (units_sold i) s.orders o p f c v.order_key,
          Edge-units i o (f o) edge (c.same o) (All-Member IsSound s.orders v.sound c.listed),
        ))
  Move-Conserves {s} v (sell o p f c sale e x q g m qx only pid fits deducts d) =
      rw (e, d)
        (omega (
          arith,
          sold-change (units_sold i) s.orders o p f c v.order_key,
          sum_by-update_one (units_left i) (λ y. y.id) q g s.products v.product_key only m qx,
          sell-sold o (f o) sale (c.same o),
          sell-left o x g pid fits deducts,
        ))

  module _ (db : Client) (encode : Text → Text) where
    -- Over any history of calls from a shop that satisfies the invariant, the units of a product in
    -- stock and the units that its verified orders hold add up to the same number.
    pub Reach-Conserves :
        (s t : Shop) → Inv s → Reach db encode s t → stock i t + sold i t ≡ stock i s + sold i s
    Reach-Conserves s _ v here = refl
    Reach-Conserves s _ v (next {t} r c fresh) =
        Move-Conserves (Reach-Inv db encode s t v r) (step-Move db encode c t fresh)
        ∙ Reach-Conserves s t v r
