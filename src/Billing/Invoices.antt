-- ===== src/Billing/Invoices.antt =====
-- src/billing/invoice.service.ts and src/billing/receipt.service.ts: the documents of a captured
-- debit. The tables are lists, the newest row first; the transaction of `record` is one function of
-- them. Amounts are paise, which with their products are taken to be below 2 ^ 53.
pub mod Draft
pub mod Wording
pub mod Rows
pub mod Store
pub mod Lines
pub mod Closing
pub mod Numbering
pub mod Once
pub mod Lookup
pub mod Views
pub mod Delivery
pub mod Extract
pub mod Reading
mod Examples
