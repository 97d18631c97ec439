-- ===== src/Billing.antt =====
-- src/billing: tax, document numbers, and who may use a paid account.
pub mod Gst
pub mod InvoiceNumber
pub mod Access
pub mod Invoices
pub mod Subscriptions
