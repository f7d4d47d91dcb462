-- ===== src/Catalog/Orders/Moves/Shipping.antt =====
-- The moves of the shipping calls, and of every call.
use micro_saas_api.Base.{
  ℕ, ◌≡◌, ◌≤◌, refl, Bool, true, false, not, arith, ◌==◌, and-true, length, answers, throws,
  Ends-bind, Ends-then, require-ok, if◌then◌else◌, ltb,
}
use micro_saas_api.Catalog.Orders.Lifecycle.{Edge, address, ship, deliver}
use micro_saas_api.Catalog.Orders.Shipping.{
  set_address, ship_order, deliver_order, pincode_of, is_filled, set_shipping_address, ship_one,
  mark_shipped, mark_delivered,
}
use micro_saas_api.Catalog.Orders.Calls.{
  Call, after, IsFresh, answer, step, creates, attaches, confirms, rejects, addresses, ships,
  delivers,
}
use micro_saas_api.Database.{Client}
use micro_saas_api.Text.{Text, trim}
use micro_saas_api.Catalog.Model.{
  Order, Notice, address_received, order_was_shipped, Shop, no_address, no_tracking, cannot_address,
  cannot_ship, cannot_deliver,
}
use micro_saas_api.Catalog.Orders.Requests.{ShippingAddress, ShipOrder}
use micro_saas_api.Catalog.Orders.{Answer, notify, update_order}
use micro_saas_api.Catalog.Orders.Moves.{
  IsChange, Move, idle, place, change, sell, Moves, IsChange-found,
}
use micro_saas_api.Catalog.Orders.Moves.Payment.{create-Move, attach-Move, reject-Move}
use micro_saas_api.Catalog.Orders.Moves.Confirm.{confirm-Move}

IsTracked_of_length : (t : Text) → not (ltb (length t) 3) ≡ true → 3 ≤ length t
IsTracked_of_length t h = ground arith

module _ (db : Client) where
  addressed-Move :
      (order_id : ℕ) (s : Shop) (o : Order) (f : Order → Order) (notified : Bool) (n : Notice)
      → IsChange s.orders o (λ r. r.id == o.id) f
      → Edge o (f o)
      → Move s (if notified then notify n (update_order db o.id f s) else update_order db o.id f s)
  unfolding update_order
  addressed-Move order_id s o f true n c e =
      change o _ f c e (db.update_many_rows _ f s.orders) refl
  addressed-Move order_id s o f false n c e =
      change o _ f c e (db.update_many_rows _ f s.orders) refl

  pub set_shipping_address-Move :
      (user_id order_id : ℕ) (dto : ShippingAddress) (notified : Bool) (s : Shop)
      → Moves s (set_shipping_address db user_id order_id dto notified s)
  unfolding set_shipping_address
  set_shipping_address-Move user_id order_id dto notified s = Ends-bind λ o loaded.
      Ends-bind λ _ addressable. Ends-bind λ _ _.
        let f = set_address dto (pincode_of dto) o in
        answers (
          addressed-Move order_id s o f notified (address_received o.id)
            (IsChange-found db user_id order_id s f o loaded (λ r. record {
              id = refl;
              user_id = refl;
              site_id = refl;
              product_id = refl;
              quantity = refl;
            }))
            (address (ground (arith, require-ok _ (cannot_address o.order_status) addressable)) refl
              refl))

  pub mark_delivered-Move :
      (user_id order_id now : ℕ) (s : Shop) → Moves s (mark_delivered db user_id order_id now s)
  unfolding mark_delivered update_order
  mark_delivered-Move user_id order_id now s = Ends-bind λ o loaded. Ends-bind λ _ was_shipped.
      answers (
        change o _ (deliver_order now)
          (IsChange-found db user_id order_id s _ o loaded (λ r. record {
            id = refl;
            user_id = refl;
            site_id = refl;
            product_id = refl;
            quantity = refl;
          }))
          (deliver (ground (arith, require-ok _ (cannot_deliver o.order_status) was_shipped)) refl
            refl (λ c. record { address = c.address; pincode = c.pincode; tracking = c.tracking }))
          (db.update_many_rows _ _ s.orders) refl)

  module _ (encode : Text → Text) where
    pub ship_one-Move :
        (user_id order_id : ℕ) (dto : ShipOrder) (now : ℕ) (s : Shop)
        → Moves s (ship_one db encode user_id order_id dto now s)
    unfolding ship_one update_order
    ship_one-Move user_id order_id dto now s = Ends-bind λ o loaded. Ends-bind λ _ shippable.
        Ends-bind λ _ addressed. Ends-bind λ _ tracked.
          let (line, pin) =
            and-true (is_filled o.shipping_address_line) (is_filled o.shipping_pincode)
              (require-ok _ no_address addressed) in
          answers (
            change o _ (ship_order encode dto now)
              (IsChange-found db user_id order_id s _ o loaded (λ r. record {
                id = refl;
                user_id = refl;
                site_id = refl;
                product_id = refl;
                quantity = refl;
              }))
              (ship (ground (arith, require-ok _ (cannot_ship o.order_status) shippable)) refl refl
                (record {
                  address = line;
                  pincode = pin;
                  tracking =
                      IsTracked_of_length (trim dto.tracking_number)
                        (require-ok _ no_tracking tracked);
                }))
              (db.update_many_rows _ _ s.orders) refl)

    -- A message sent off changes no table.
    notify-Move : (s t : Shop) (n : Notice) → Move s t → Move s (notify n t)
    notify-Move s t n (idle e f) = idle e f
    notify-Move s t n (place o a b c e f) = place o a b c e f
    notify-Move s t n (change o p f c d e g) = change o p f c d e g
    notify-Move s t n (sell o p f c d e x q g a b h i j k l) = sell o p f c d e x q g a b h i j k l

    pub mark_shipped-Move :
        (user_id order_id : ℕ) (dto : ShipOrder) (now : ℕ) (s : Shop)
        → Moves s (mark_shipped db encode user_id order_id dto now s)
    unfolding mark_shipped
    mark_shipped-Move user_id order_id dto now s =
        Ends-then (ship_one-Move user_id order_id dto now s)
          λ r m. answers (notify-Move s r.1 (order_was_shipped r.0.id) m)

    answer-Move : (c : Call) (s : Shop) → IsFresh c s → Moves s (answer db encode c s)
    unfolding answer
    answer-Move (creates user_id dto fresh_id draws) s h =
        create-Move db user_id dto fresh_id draws s h
    answer-Move (attaches user_id order_id media_id) s h =
        attach-Move db user_id order_id media_id s
    answer-Move (confirms user_id order_id now) s h = confirm-Move db user_id order_id now s
    answer-Move (rejects user_id order_id reason now) s h =
        reject-Move db user_id order_id reason now s
    answer-Move (addresses user_id order_id dto notified) s h =
        set_shipping_address-Move user_id order_id dto notified s
    answer-Move (ships user_id order_id dto now) s h = mark_shipped-Move user_id order_id dto now s
    answer-Move (delivers user_id order_id now) s h = mark_delivered-Move user_id order_id now s

    after-Move : (s : Shop) {r : Answer} → Moves s r → Move s (after s r)
    after-Move s (answers m) = m
    after-Move s throws = idle refl refl

    -- Every call makes one of the moves.
    pub step-Move : (c : Call) (s : Shop) → IsFresh c s → Move s (step db encode c s)
    unfolding step
    step-Move c s h = after-Move s (answer-Move c s h)
