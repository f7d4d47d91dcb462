-- ===== src/Catalog/Orders/Races.antt =====
-- Owners who decide at the same time. Each transaction loads the order first and claims it later;
-- another one may commit in between.
use micro_saas_api.Base.{
  ℕ, ◌+◌, ◌≡◌, ◌≤◌, ◌<◌, refl, true, List, [], ◌∷◌, Option, Member, arith, inl, inr, ok, err,
  Bool-cases, ◌==◌, length, filter, Ends, answers, throws, Ends-bind, Ends-ok, require-ok, ◌>>=◌,
  sum_by,
}
use micro_saas_api.Database.Rows.{
  update_rows, IsKey, filter-nonempty, filter-update_none, sum_by-update_one, sum_by-ge,
}
use micro_saas_api.Catalog.Orders.Changes.{
  is_claimable, claim_order, has_stock_for, deduct, reject_order, is_rejectable,
}
use micro_saas_api.Catalog.Orders.Payment.{claim_and_deduct, reject}
use micro_saas_api.Database.{Client}
use micro_saas_api.Text.{Text}
use micro_saas_api.Catalog.Model.{Order, Product, Shop, already_decided, insufficient_stock}
use micro_saas_api.Catalog.Orders.Stock.{units_left, stock}

-- What a claim that went through has done.
record IsClaimed (user_id now : ℕ) (o : Order) (product_id : ℕ) (s t : Shop) : Type 0 where
  orders : t.orders ≡ update_rows (is_claimable user_id o.id) (claim_order user_id now) s.orders
  products : t.products ≡ update_rows (has_stock_for product_id o) (deduct o.quantity) s.products
  in_stock : (x : Product) × Member x s.products × (has_stock_for product_id o x ≡ true)

module _ (db : Client) where
  claim_and_deduct-IsClaimed :
      (user_id now : ℕ) (o : Order) (product_id : ℕ) (s : Shop)
      → Ends
          (λ r. IsClaimed user_id now o product_id s r.1)
          (claim_and_deduct db user_id now o product_id s)
  unfolding claim_and_deduct
  claim_and_deduct-IsClaimed user_id now o product_id s =
      let q = has_stock_for product_id o in
      Ends-bind λ _ _. Ends-bind λ _ deducted. Ends-bind λ r _. answers (record {
        orders = db.update_many_rows _ _ s.orders;
        products = db.update_many_rows _ _ s.products;
        in_stock = filter-nonempty q s.products (
            ground (
              arith,
              db.update_many_count q (deduct o.quantity) s.products,
              require-ok _ insufficient_stock deducted,
            ));
      })

  -- Where no order can be claimed any more, a claim is refused.
  claim_refused :
      (user_id now : ℕ) (o : Order) (product_id : ℕ) (s : Shop)
      → length (filter (is_claimable user_id o.id) s.orders) ≡ 0
      → claim_and_deduct db user_id now o product_id s ≡ err already_decided
  unfolding claim_and_deduct ◌>>=◌
  claim_refused user_id now o product_id s h =
      let count =
        db.update_many_count (is_claimable user_id o.id) (claim_order user_id now) s.orders in
      rw (count, h) refl

  -- Two confirmations of one order have both loaded it. Once the first has gone through, the second
  -- is refused and changes nothing, whatever product and time it was made with.
  pub confirm_race :
      (user_id now now' product_id product_id' : ℕ) (o answered : Order) (s t : Shop)
      → claim_and_deduct db user_id now o product_id s ≡ ok (answered, t)
      → claim_and_deduct db user_id now' o product_id' t ≡ err already_decided
  confirm_race user_id now now' product_id product_id' o answered s t h =
      let c = Ends-ok (claim_and_deduct-IsClaimed user_id now o product_id s) h in
      claim_refused user_id now' o product_id' t (
        rw c.orders (
          filter-update_none (is_claimable user_id o.id) (claim_order user_id now) s.orders
            (λ r. ground arith)))

  reject-orders :
      (user_id order_id : ℕ) (reason : Option Text) (now : ℕ) (s : Shop)
      → Ends
          (λ r.
            r.1.orders
            ≡ update_rows
                (is_rejectable user_id order_id)
                (reject_order user_id now reason)
                s.orders)
          (reject db user_id order_id reason now s)
  unfolding reject
  reject-orders user_id order_id reason now s =
      let f = reject_order user_id now reason in
      let p = is_rejectable user_id order_id in
      elim (Bool-cases ((db.update_many p f s.orders).1 == 0)) [
        | inl e ↦ rw e (Ends-bind λ o _. throws)
        | inr e ↦ rw e (Ends-bind λ o _. answers (db.update_many_rows p f s.orders))
      ]

  not_claimable_after_reject :
      (user_id now : ℕ) (reason : Option Text) (o : ℕ) (rows : List Order)
      → length (
          filter
            (is_claimable user_id o)
            (update_rows (is_rejectable user_id o) (reject_order user_id now reason) rows))
        ≡ 0
  not_claimable_after_reject user_id now reason o [] = refl
  not_claimable_after_reject user_id now reason o (r ∷ rs) =
      ground (arith, not_claimable_after_reject user_id now reason o rs)

  -- A confirmation has loaded an order that a rejection then decides: the confirmation is refused, so
  -- no stock is taken for a rejected order.
  pub reject_wins :
      (user_id now now' product_id : ℕ) (reason : Option Text) (o answered : Order) (s t : Shop)
      → reject db user_id o.id reason now s ≡ ok (answered, t)
      → claim_and_deduct db user_id now' o product_id t ≡ err already_decided
  reject_wins user_id now now' product_id reason o answered s t h =
      claim_refused user_id now' o product_id t (
        rw (Ends-ok (reject-orders user_id o.id reason now s) h)
          (not_claimable_after_reject user_id now reason o.id s.orders))

  -- Two orders for one product have both been loaded, and the stock does not reach for both. Once one
  -- is confirmed, the other cannot be.
  pub last_item_race :
      (user_id user_id' now now' product_id : ℕ) (a b answered : Order) (s t : Shop)
      → IsKey (λ (x : Product). x.id) s.products
      → stock product_id s < a.quantity + b.quantity
      → claim_and_deduct db user_id now a product_id s ≡ ok (answered, t)
      → ¬ ((r : Order × Shop) × (claim_and_deduct db user_id' now' b product_id t ≡ ok r))
  last_item_race user_id user_id' now now' product_id a b answered s t key short h (r, k) =
      let c = Ends-ok (claim_and_deduct-IsClaimed user_id now a product_id s) h in
      let d = Ends-ok (claim_and_deduct-IsClaimed user_id' now' b product_id t) k in
      let (x, mx, fits) = c.in_stock in
      let (y, my, fits') = d.in_stock in
      let g = units_left product_id in
      let taken : sum_by g t.products + g x ≡ sum_by g s.products + g (deduct a.quantity x) =
        rw c.products (
          sum_by-update_one g (λ (z : Product). z.id) (has_stock_for product_id a)
            (deduct a.quantity) s.products key (λ z h. ground arith) mx fits) in
      let left : g x ≡ g (deduct a.quantity x) + a.quantity = ground (arith, fits) in
      let there_is : b.quantity ≤ g y = ground (arith, fits') in
      let enough = sum_by-ge g t.products my in omega (arith, taken, left, there_is, enough, short)
