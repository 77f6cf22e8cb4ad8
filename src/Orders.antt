-- ===== src/Orders.antt =====
-- app/modules/orders: what an order costs, how it is paid, and how it follows its prints.
pub mod Quotes
pub mod Models
pub mod Paying
pub mod Progress
