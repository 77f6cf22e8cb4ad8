-- ===== src/Printing.antt =====
-- app/modules/printing: print tasks, what devices report about them, and the options of a print.
pub mod Options
pub mod Models
pub mod Tasks
pub mod Claims
pub mod Queue
