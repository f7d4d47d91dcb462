-- ===== src/Catalog/Orders/Payment.antt =====
-- catalog-orders.service.ts: creating an order, its payment screenshot, and the owner's decision.
use micro_saas_api.Base.{
  ℕ, not, ◌&&◌, ◌||◌, List, [], ◌∷◌, ◌++◌, Option, none, some, if◌then◌else◌, ltb, ◌==◌, Result, ok,
  err, ◌>>=◌, ◌>>◌, require, or_throw,
}
use micro_saas_api.Database.{Client}
use micro_saas_api.Text.{Text}
use micro_saas_api.Catalog.Model.{
  pending_payment, pending_verification, same_status, Order, Product, Media, payment_was_submitted,
  order_was_confirmed, order_was_rejected, Shop, OrderError, product_not_found, product_inactive,
  out_of_stock, payments_not_configured, order_not_found, screenshot_closed, media_not_found,
  not_an_image, no_product, already_decided, insufficient_stock, cannot_confirm, cannot_reject,
}
use micro_saas_api.Catalog.Orders.Requests.{CreateOrder}
use micro_saas_api.Catalog.Orders.{
  Answer, truthy_id, is_some, notify, order_quantity_v1, has_id, require_site, require_order,
  update_order, generate_order_number, require_contact,
}
use micro_saas_api.Catalog.Orders.Changes.{
  new_order, take_screenshot, is_claimable, claim_order, has_stock_for, deduct, reject_order,
  is_rejectable,
}

module _ (db : Client) where
  -- `draws` are the order numbers that the attempts of `generateOrderNumber` draw.
  unfoldable pub create : ℕ → CreateOrder → ℕ → List Text → Shop → Answer
  create user_id dto fresh_id draws s = do
    site ← require_site db user_id s
    product ←
        or_throw
          (db.find_first (λ (p : Product). p.id == dto.product_id && p.site_id == site.id)
            s.products)
          product_not_found
    require product.is_active product_inactive
    require (not (ltb product.stock_quantity order_quantity_v1)) out_of_stock
    require (site.payments_enabled && is_some site.payment_qr_media_id) payments_not_configured
    require_contact db user_id dto.contact_id s
    number ← generate_order_number db draws s
    let order = new_order fresh_id user_id site product dto number
    ok (order, record s { orders = s.orders ++ order ∷ [] })

  unfoldable pub attach_screenshot : ℕ → ℕ → ℕ → Shop → Answer
  attach_screenshot user_id order_id media_id s = do
    order ← require_order db user_id order_id s
    require
        (same_status order.order_status pending_payment
          || same_status order.order_status pending_verification)
        screenshot_closed
    media ←
        or_throw
          (db.find_first (λ (m : Media). m.id == media_id && m.site_id == order.site_id) s.media)
          media_not_found
    require media.is_image not_an_image
    ok (
      take_screenshot media.id order,
      notify (payment_was_submitted order.id)
          (update_order db order.id (take_screenshot media.id) s),
    )

  -- The first query of `confirm`'s transaction, and the exceptions where it finds nothing.
  unfoldable pub load_claimable : ℕ → ℕ → Shop → Result OrderError (Order × ℕ)
  load_claimable user_id order_id s =
      elim (db.find_first (is_claimable user_id order_id) s.orders) [
        | none ↦ require_order db user_id order_id s >>= λ o. err (cannot_confirm o.order_status)
        | some order ↦ elim (truthy_id order.product_id) [
          | none ↦ err no_product
          | some product_id ↦ ok (order, product_id)
        ]
      ]

  -- The writes of the transaction. They see the tables as they are when the order's row is locked:
  -- another transaction may have committed since the order was loaded.
  unfoldable pub claim_and_deduct : ℕ → ℕ → Order → ℕ → Shop → Answer
  claim_and_deduct user_id now order product_id s =
      let (orders, claimed) =
        db.update_many (is_claimable user_id order.id) (claim_order user_id now) s.orders in
      let (products, deducted) =
        db.update_many (has_stock_for product_id order) (deduct order.quantity) s.products in
      do
        require (not (claimed == 0)) already_decided
        require (not (deducted == 0)) insufficient_stock
        o ← or_throw (db.find_first (has_id user_id order.id) orders) order_not_found
        ok (
          o,
          notify (order_was_confirmed o.id) (record s { orders = orders; products = products }),
        )

  unfoldable pub confirm : ℕ → ℕ → ℕ → Shop → Answer
  unfolding load_claimable claim_and_deduct
  confirm user_id order_id now s = do
    loaded ← load_claimable user_id order_id s
    claim_and_deduct user_id now loaded.0 loaded.1 s

  unfoldable pub reject : ℕ → ℕ → Option Text → ℕ → Shop → Answer
  reject user_id order_id reason now s =
      let (orders, claimed) =
        db.update_many (is_rejectable user_id order_id) (reject_order user_id now reason)
          s.orders in
      if claimed == 0
      then (require_order db user_id order_id s >>= λ o. err (cannot_reject o.order_status))
      else do
        o ← or_throw (db.find_first (has_id user_id order_id) orders) order_not_found
        ok (o, notify (order_was_rejected o.id) (record s { orders = orders }))
