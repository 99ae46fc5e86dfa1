-- ===== src/Net.antt =====
-- lofire-net: the network protocol's messages, errors and handshake.
pub mod Overlay
pub mod Account
pub mod Requests
pub mod Responses
pub mod External
pub mod Messages
pub mod Errors
