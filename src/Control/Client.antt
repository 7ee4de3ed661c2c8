-- ===== src/Control/Client.antt =====
-- control-center/backend/client and the part of control-center/backend/protocol that it reads.
pub mod Protocol
pub mod Handshake
pub mod Agent
pub mod Manager
pub mod Pumps
pub mod Actions
pub mod Reconnect
