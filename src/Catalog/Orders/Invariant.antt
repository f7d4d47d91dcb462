-- ===== src/Catalog/Orders/Invariant.antt =====
-- What holds of the shop after any history of calls.
use micro_saas_api.Base.{◌≡◌, refl, sym, ap, Bool, List, [], ◌∷◌, All, All-append, here, subst}
use micro_saas_api.Database.Rows.{
  update_rows, IsKey, IsKey-unique, IsKey-append, All-update_rows, IsKey-update_rows,
}
use micro_saas_api.Catalog.Orders.Lifecycle.{IsSound, Edge-IsSound, Sale-IsSound}
use micro_saas_api.Catalog.Orders.Moves.Shipping.{step-Move}
use micro_saas_api.Catalog.Orders.Calls.{Reach, here, next}
use micro_saas_api.Database.{Client}
use micro_saas_api.Text.{Text}
use micro_saas_api.Catalog.Model.{Order, Shop}
use micro_saas_api.Catalog.Orders.Moves.{IsChange, Move, idle, place, change, sell}

-- Orders and products have keys; every order's statuses agree, and a dispatched order has an address,
-- a pincode and a tracking number.
pub record Inv (s : Shop) : Type 0 where
  pub order_key : IsKey (λ o. o.id) s.orders
  pub product_key : IsKey (λ p. p.id) s.products
  pub sound : All IsSound s.orders

change-IsKey :
    (orders : List Order) (o : Order) (p : Order → Bool) (f : Order → Order)
    → IsChange orders o p f
    → IsKey (λ x. x.id) orders
    → IsKey (λ x. x.id) (update_rows p f orders)
change-IsKey orders o p f c k = IsKey-update_rows (λ x. x.id) p f orders (λ r. (c.same r).id) k

-- A change of one sound order into a sound order keeps them all sound.
change-IsSound :
    (orders : List Order) (o : Order) (p : Order → Bool) (f : Order → Order)
    → IsChange orders o p f
    → IsKey (λ x. x.id) orders
    → (IsSound o → IsSound (f o))
    → All IsSound orders
    → All IsSound (update_rows p f orders)
change-IsSound orders o p f c k h a =
    All-update_rows IsSound p f orders
      (λ r m e v.
        let same : o ≡ r = IsKey-unique (λ x. x.id) orders k c.listed m (sym (c.only r e)) in
        subst (λ x. IsSound (f x)) same (h (subst IsSound (sym same) v)))
      a

pub Move-Inv : {s t : Shop} → Move s t → Inv s → Inv t
Move-Inv (idle e d) v = record {
  order_key = rw e v.order_key;
  product_key = rw d v.product_key;
  sound = rw e v.sound;
}
Move-Inv {s} (place o a b fresh e d) v = record {
  order_key = rw e (IsKey-append (λ x. x.id) s.orders o v.order_key fresh);
  product_key = rw d v.product_key;
  sound = rw e (
      All-append IsSound s.orders (o ∷ []) v.sound
        (record { agrees = rw (a, b) refl; dispatched = rw a tt }, tt));
}
Move-Inv {s} (change o p f c edge e d) v = record {
  order_key = rw e (change-IsKey s.orders o p f c v.order_key);
  product_key = rw d v.product_key;
  sound = rw e (change-IsSound s.orders o p f c v.order_key (Edge-IsSound o (f o) edge) v.sound);
}
Move-Inv {s} (sell o p f c sale e x q g m qx only pid fits deducts d) v = record {
  order_key = rw e (change-IsKey s.orders o p f c v.order_key);
  product_key = rw d (
      IsKey-update_rows (λ y. y.id) q g s.products (λ y. ap (λ z. z.id) (deducts y)) v.product_key);
  sound =
      rw e (change-IsSound s.orders o p f c v.order_key (λ _. Sale-IsSound o (f o) sale) v.sound);
}

module _ (db : Client) (encode : Text → Text) where
  -- After any history of calls the invariant still holds: keys stay keys, the payment status of an
  -- order is the one that its order status calls for, and no order is shipped or delivered without
  -- an address, a pincode and a tracking number of three characters.
  pub Reach-Inv : (s t : Shop) → Inv s → Reach db encode s t → Inv t
  Reach-Inv s _ v here = v
  Reach-Inv s _ v (next {t} r c fresh) =
      Move-Inv (step-Move db encode c t fresh) (Reach-Inv s t v r)
