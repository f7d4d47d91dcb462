-- ===== src/Catalog/Orders/Moves.antt =====
-- What a call does to the tables: one of four moves. The later proofs go by these.
pub mod Payment
pub mod Shipping
pub mod Confirm
use micro_saas_api.Base.{
  ℕ, ◌-◌, ◌≡◌, ◌≤◌, ◌≢◌, Bool, true, List, [], ◌∷◌, ◌++◌, some, All, Member, arith, ◌==◌, Ends,
  or_throw, or_throw-ok, ok,
}
use micro_saas_api.Database.{Client}
use micro_saas_api.Database.Rows.{update_rows}
use micro_saas_api.Catalog.Model.{
  payment_pending, pending_payment, Order, Product, Shop, OrderError, order_not_found,
}
use micro_saas_api.Catalog.Orders.{Answer, has_id, require_order}
use micro_saas_api.Catalog.Orders.Lifecycle.{Edge, Sale, SameSale}

-- `f` changes the one row `o` of the table, which `p` selects.
pub record IsChange (orders : List Order) (o : Order) (p : Order → Bool) (f : Order → Order)
    : Type 0 where
  pub listed : Member o orders
  pub selected : p o ≡ true
  pub only : (r : Order) → p r ≡ true → r.id ≡ o.id
  pub same : (r : Order) → SameSale r (f r)

pub data Move (s t : Shop) : Type 0 where
  idle : t.orders ≡ s.orders → t.products ≡ s.products → Move s t
  place :
      (o : Order)
      → o.order_status ≡ pending_payment
      → o.payment_status ≡ payment_pending
      → All (λ x. x.id ≢ o.id) s.orders
      → t.orders ≡ s.orders ++ o ∷ []
      → t.products ≡ s.products
      → Move s t
  change :
      (o : Order) (p : Order → Bool) (f : Order → Order)
      → IsChange s.orders o p f
      → Edge o (f o)
      → t.orders ≡ update_rows p f s.orders
      → t.products ≡ s.products
      → Move s t
  sell :
      (o : Order) (p : Order → Bool) (f : Order → Order)
      → IsChange s.orders o p f
      → Sale o (f o)
      → t.orders ≡ update_rows p f s.orders
      → (x : Product) (q : Product → Bool) (g : Product → Product) → Member x s.products
      → q x ≡ true
      → ((y : Product) → q y ≡ true → y.id ≡ x.id)
      → o.product_id ≡ some x.id
      → o.quantity ≤ x.stock_quantity
      → ((y : Product) → g y ≡ record y { stock_quantity = y.stock_quantity - o.quantity })
      → t.products ≡ update_rows q g s.products
      → Move s t

-- A call that answers has made a move.
abbrev pub Moves : Shop → Answer → Type 0
Moves s = Ends (λ r. Move s r.1)

module _ (db : Client) where
  -- What `findFirst` followed by a `throw` finds.
  pub found :
      {Row : Type 0} (p : Row → Bool) (rows : List Row) (e : OrderError) (a : Row)
      → or_throw (db.find_first p rows) e ≡ ok a
      → (p a ≡ true) × Member a rows
  found p rows e a h = db.find_first-some p rows a (or_throw-ok _ e h)

  -- A change of the order that `requireOrder` found, by its key.
  pub IsChange-found :
      (user_id order_id : ℕ) (s : Shop) (f : Order → Order) (o : Order)
      → require_order db user_id order_id s ≡ ok o
      → ((r : Order) → SameSale r (f r))
      → IsChange s.orders o (λ r. r.id == o.id) f
  unfolding require_order
  IsChange-found user_id order_id s f o h same = record {
    listed = (found (has_id user_id order_id) s.orders order_not_found o h).1;
    selected = ground arith;
    only = λ r e. ground arith;
    same = same;
  }
