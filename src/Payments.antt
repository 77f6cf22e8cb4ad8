-- ===== src/Payments.antt =====
-- app/modules/payments: who collects, what was captured, and what was given back.
pub mod Models
pub mod Gate
pub mod Charges
pub mod Refunds
pub mod Webhook
pub mod Earnings
