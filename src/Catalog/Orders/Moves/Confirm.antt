-- ===== src/Catalog/Orders/Moves/Confirm.antt =====
-- The move of `confirm`: the order is claimed, then its quantity is taken from the stock.
use micro_saas_api.Base.{
  ℕ, zero, suc, Ends-then, ◌≡◌, refl, sym, ap, ◌∙◌, true, Option, none, some, Member, arith, inl,
  inr, Option-cases, Ends, answers, throws, Ends-bind, require-ok,
}
use micro_saas_api.Database.Rows.{filter-nonempty}
use micro_saas_api.Catalog.Orders.Changes.{is_claimable, claim_order, has_stock_for, deduct}
use micro_saas_api.Catalog.Orders.Payment.{load_claimable, claim_and_deduct, confirm}
use micro_saas_api.Database.{Client}
use micro_saas_api.Catalog.Model.{Order, Shop, insufficient_stock}
use micro_saas_api.Catalog.Orders.{truthy_id}
use micro_saas_api.Catalog.Orders.Moves.{sell, Moves}

truthy_id-some : (i : Option ℕ) (n : ℕ) → truthy_id i ≡ some n → i ≡ some n
truthy_id-some none n h = cc
truthy_id-some (some zero) n h = cc
truthy_id-some (some (suc m)) n h = h

-- What the first query of the transaction finds.
pub record IsLoaded (user_id order_id : ℕ) (s : Shop) (o : Order) (product_id : ℕ) : Type 0 where
  pub claimable : is_claimable user_id order_id o ≡ true
  pub listed : Member o s.orders
  pub product : o.product_id ≡ some product_id

module _ (db : Client) where
  pub load_claimable-IsLoaded :
      (user_id order_id : ℕ) (s : Shop)
      → Ends (λ r. IsLoaded user_id order_id s r.0 r.1) (load_claimable db user_id order_id s)
  unfolding load_claimable
  load_claimable-IsLoaded user_id order_id s =
      let p = is_claimable user_id order_id in
      elim (Option-cases (db.find_first p s.orders)) [
        | inl e ↦ rw (e, load_claimable) (Ends-bind λ o _. throws)
        | inr (a, e) ↦
            let (c, m) = db.find_first-some p s.orders a e in
            elim (Option-cases (truthy_id a.product_id)) [
              | inl d ↦ rw (e, load_claimable, d) throws
              | inr (n, d) ↦
                  rw (e, load_claimable, d)
                    (answers (record {
                      claimable = c;
                      listed = m;
                      product = truthy_id-some a.product_id n d;
                    }))
            ]
      ]

  claim_and_deduct-Move :
      (user_id order_id now : ℕ) (s : Shop) (o : Order) (product_id : ℕ)
      → IsLoaded user_id order_id s o product_id
      → Moves s (claim_and_deduct db user_id now o product_id s)
  unfolding claim_and_deduct
  claim_and_deduct-Move user_id order_id now s o product_id l =
      let p = is_claimable user_id o.id in
      let q = has_stock_for product_id o in
      Ends-bind λ _ _. Ends-bind λ _ deducted. Ends-bind λ r _.
        let (x, in_stock, fits) = filter-nonempty q s.products (
          ground (
            arith,
            db.update_many_count q (deduct o.quantity) s.products,
            require-ok _ insufficient_stock deducted,
          )) in
        let x_id : x.id ≡ product_id = ground arith in
        answers (
          sell o p (claim_order user_id now)
            (record {
              listed = l.listed;
              selected = ground (arith, l.claimable);
              only = λ r h. ground arith;
              same = λ r. record {
                id = refl;
                user_id = refl;
                site_id = refl;
                product_id = refl;
                quantity = refl;
              };
            })
            (record {
              waited = ground (arith, l.claimable);
              submitted = ground (arith, l.claimable);
              sold = refl;
              verified = refl;
            })
            (db.update_many_rows p _ s.orders) x q (deduct o.quantity) in_stock fits
            (λ y h. ground arith) (l.product ∙ ap some (sym x_id)) (ground arith) (λ y. refl)
            (db.update_many_rows q _ s.products))

  pub confirm-Move :
      (user_id order_id now : ℕ) (s : Shop) → Moves s (confirm db user_id order_id now s)
  unfolding confirm
  confirm-Move user_id order_id now s =
      Ends-then (load_claimable-IsLoaded user_id order_id s)
        λ r l. claim_and_deduct-Move user_id order_id now s r.0 r.1 l
