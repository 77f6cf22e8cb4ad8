-- ===== src/Billing.antt =====
-- app/modules/billing: what an owner pays, and until when that entitles them to collect.
pub mod Models
pub mod Quotes
pub mod Subscriptions
pub mod Purchase
pub mod Discounts
pub mod Bands
mod Examples
