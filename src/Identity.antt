-- ===== src/Identity.antt =====
-- app/modules/identity: who somebody is, and the sessions and links that prove it.
pub mod Models
pub mod Sessions
pub mod Links
pub mod Accounts
pub mod Visits
