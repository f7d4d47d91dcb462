-- ===== src/Catalog/Model.antt =====
-- The rows of the catalog tables that the order service reads and writes (prisma/schema.prisma), the
-- statuses of catalog-order.constants.ts, and the exceptions and messages of the service.
-- Amounts are whole paise (the column is a decimal with two places), times are milliseconds.
use micro_saas_api.Base.{ℕ, Bool, List, Option, ◌==◌}
use micro_saas_api.Text.{Text}

pub data PaymentStatus : Type 0 where
  payment_pending payment_submitted payment_verified payment_rejected : PaymentStatus

pub data OrderStatus : Type 0 where
  pending_payment pending_verification confirmed ready_to_ship shipped : OrderStatus
  delivered rejected cancelled completed : OrderStatus

abbrev pub payment_rank : PaymentStatus → ℕ
payment_rank payment_pending = 0
payment_rank payment_submitted = 1
payment_rank payment_verified = 2
payment_rank payment_rejected = 3

abbrev pub order_rank : OrderStatus → ℕ
order_rank pending_payment = 0
order_rank pending_verification = 1
order_rank confirmed = 2
order_rank ready_to_ship = 3
order_rank shipped = 4
order_rank delivered = 5
order_rank rejected = 6
order_rank cancelled = 7
order_rank completed = 8

-- `a === b` on statuses.
abbrev pub same_payment : PaymentStatus → PaymentStatus → Bool
same_payment a b = payment_rank a == payment_rank b

abbrev pub same_status : OrderStatus → OrderStatus → Bool
same_status a b = order_rank a == order_rank b

pub record Order : Type 0 where
  pub id : ℕ
  pub order_number : Text
  pub user_id : ℕ
  pub site_id : ℕ
  pub contact_id : Option ℕ
  pub customer_phone : Option Text
  pub customer_name : Option Text
  pub product_id : Option ℕ
  pub product_name : Text
  pub product_price : Option ℕ
  pub quantity : ℕ
  pub amount_inr : ℕ
  pub payment_status : PaymentStatus
  pub order_status : OrderStatus
  pub payment_screenshot_media_id : Option ℕ
  pub verified_at : Option ℕ
  pub verified_by_user_id : Option ℕ
  pub rejection_reason : Option Text
  pub notes : Option Text
  pub shipping_name : Option Text
  pub shipping_address_line : Option Text
  pub shipping_city : Option Text
  pub shipping_state : Option Text
  pub shipping_pincode : Option Text
  pub shipping_landmark : Option Text
  pub shipping_phone : Option Text
  pub courier_name : Option Text
  pub tracking_number : Option Text
  pub tracking_url : Option Text
  pub shipped_at : Option ℕ
  pub delivered_at : Option ℕ

pub record Product : Type 0 where
  pub id : ℕ
  pub site_id : ℕ
  pub name : Text
  pub price_amount : Option ℕ
  pub is_active : Bool
  pub stock_quantity : ℕ

pub record Site : Type 0 where
  pub id : ℕ
  pub user_id : ℕ
  pub payments_enabled : Bool
  pub payment_qr_media_id : Option ℕ

pub record Media : Type 0 where
  pub id : ℕ
  pub site_id : ℕ
  pub is_image : Bool

pub record Contact : Type 0 where
  pub id : ℕ
  pub user_id : ℕ

-- The messages that the service sends off without waiting for them, by order.
pub data Notice : Type 0 where
  payment_was_submitted order_was_confirmed order_was_rejected address_received : ℕ → Notice
  order_was_shipped order_was_delivered : ℕ → Notice

pub record Shop : Type 0 where
  pub sites : List Site
  pub products : List Product
  pub media : List Media
  pub contacts : List Contact
  pub orders : List Order
  pub outbox : List Notice

pub data OrderError : Type 0 where
  site_not_found product_not_found product_inactive out_of_stock payments_not_configured :
      OrderError
  contact_not_found no_unique_number order_not_found screenshot_closed media_not_found : OrderError
  not_an_image no_product already_decided insufficient_stock bad_pincode no_address : OrderError
  no_tracking : OrderError
  cannot_confirm cannot_reject cannot_address cannot_ship cannot_deliver : OrderStatus → OrderError
