-- ===== src/Control.antt =====
-- control-center: the operator's side.
pub mod Listing
pub mod Transfer
pub mod Audit
pub mod Scripts
pub mod Sessions
pub mod Client
