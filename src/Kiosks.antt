-- ===== src/Kiosks.antt =====
-- app/modules/kiosks: the paper in the tray, the stages of a kiosk, its prices and its machine.
pub mod Models
pub mod Paper
pub mod Onboarding
pub mod Commands
pub mod Pricing
