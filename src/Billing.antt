-- ===== src/Billing.antt =====
-- modules/billing: the subscriptions of the tenants. Access decides what a tenant may use, Lifecycle
-- is the daily job, ManualPayments the payments that an admin verifies, Subscriptions those that
-- Razorpay collects.
pub mod Lifecycle
pub mod Access
pub mod ManualPayments
pub mod Subscriptions
pub mod Webhook
