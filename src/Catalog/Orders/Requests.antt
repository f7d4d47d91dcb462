-- ===== src/Catalog/Orders/Requests.antt =====
-- The request bodies of dto/catalog.dto.ts that the order service reads.
use micro_saas_api.Base.{ℕ, Option}
use micro_saas_api.Text.{Text}

pub record CreateOrder : Type 0 where
  pub product_id : ℕ
  pub contact_id : Option ℕ
  pub customer_phone : Option Text
  pub customer_name : Option Text
  pub notes : Option Text

pub record ShippingAddress : Type 0 where
  pub shipping_name : Option Text
  pub shipping_address_line : Text
  pub shipping_city : Option Text
  pub shipping_state : Option Text
  pub shipping_pincode : Text
  pub shipping_landmark : Option Text
  pub shipping_phone : Option Text

pub record ShipOrder : Type 0 where
  pub tracking_number : Text
  pub courier_name : Option Text
  pub tracking_url : Option Text
