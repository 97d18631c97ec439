-- ===== src/Billing/Subscriptions.antt =====
-- src/billing/billing.service.ts: an organisation's subscription and the mandate behind it at Razorpay.
-- Razorpay is a record of the answers it gives within one operation, where `none` is a call that
-- throws; what an operation asks of it is a list of calls. Instants are milliseconds.
pub mod Rows
pub mod Remote
pub mod Groups
pub mod Effects
pub mod Webhook
pub mod Reconcile
pub mod Overage
pub mod Offer
pub mod Change
pub mod Register
pub mod Confirm
pub mod Proration
pub mod Refused
pub mod Verified
pub mod Opening
pub mod Kept
pub mod Once
pub mod Ends
pub mod Periods
pub mod Payments
mod Examples
