-- ===== src/Catalog/Orders/Moves/Payment.antt =====
-- The moves of `create`, `attachScreenshot`, `confirm` and `reject`.
use micro_saas_api.Base.{
  ℕ, ◌≡◌, ◌≢◌, refl, List, Option, All, arith, inl, inr, Bool-cases, ◌==◌, answers, throws,
  Ends-bind, require-ok,
}
use micro_saas_api.Database.Rows.{filter-nonempty}
use micro_saas_api.Catalog.Orders.Lifecycle.{submit, refuse, SameSale}
use micro_saas_api.Catalog.Orders.Changes.{new_order, take_screenshot, reject_order, is_rejectable}
use micro_saas_api.Catalog.Orders.Payment.{create, attach_screenshot, reject}
use micro_saas_api.Database.{Client}
use micro_saas_api.Text.{Text}
use micro_saas_api.Catalog.Model.{Order, Shop, screenshot_closed}
use micro_saas_api.Catalog.Orders.Requests.{CreateOrder}
use micro_saas_api.Catalog.Orders.{update_order}
use micro_saas_api.Catalog.Orders.Moves.{place, change, Moves, IsChange-found}

-- No change touches what is sold.
abbrev kept :
    {o o' : Order}
    → o'.id ≡ o.id
    → o'.user_id ≡ o.user_id
    → o'.site_id ≡ o.site_id
    → o'.product_id ≡ o.product_id
    → o'.quantity ≡ o.quantity
    → SameSale o o'
kept a b c d e = record { id = a; user_id = b; site_id = c; product_id = d; quantity = e }

module _ (db : Client) where
  pub create-Move :
      (user_id : ℕ) (dto : CreateOrder) (fresh_id : ℕ) (draws : List Text) (s : Shop)
      → All (λ (o : Order). o.id ≢ fresh_id) s.orders
      → Moves s (create db user_id dto fresh_id draws s)
  unfolding create
  create-Move user_id dto fresh_id draws s fresh = Ends-bind λ site _. Ends-bind λ product _.
      Ends-bind λ _ _. Ends-bind λ _ _. Ends-bind λ _ _. Ends-bind λ _ _. Ends-bind λ number _.
        answers
          (place (new_order fresh_id user_id site product dto number) refl refl fresh refl refl)

  pub attach-Move :
      (user_id order_id media_id : ℕ) (s : Shop)
      → Moves s (attach_screenshot db user_id order_id media_id s)
  unfolding attach_screenshot update_order
  attach-Move user_id order_id media_id s = Ends-bind λ o loaded. Ends-bind λ _ still_open.
      Ends-bind λ media _. Ends-bind λ _ _. answers (
        change o _ (take_screenshot media.id)
          (IsChange-found db user_id order_id s _ o loaded (λ r. kept refl refl refl refl refl))
          (submit (ground (arith, require-ok _ screenshot_closed still_open)) refl refl)
          (db.update_many_rows _ _ s.orders) refl)

  pub reject-Move :
      (user_id order_id : ℕ) (reason : Option Text) (now : ℕ) (s : Shop)
      → Moves s (reject db user_id order_id reason now s)
  unfolding reject
  reject-Move user_id order_id reason now s =
      let p = is_rejectable user_id order_id in
      let f = reject_order user_id now reason in
      elim (Bool-cases ((db.update_many p f s.orders).1 == 0)) [
        | inl e ↦ rw e (Ends-bind λ o _. throws)
        | inr e ↦
            let (o, listed, selected) =
              filter-nonempty p s.orders (ground (arith, db.update_many_count p f s.orders)) in
            rw e (
              Ends-bind λ r _. answers (
                change o p f
                  (record {
                    listed = listed;
                    selected = selected;
                    only = λ r h. ground arith;
                    same = λ r. kept refl refl refl refl refl;
                  })
                  (refuse (ground arith) refl refl) (db.update_many_rows p f s.orders) refl))
      ]
