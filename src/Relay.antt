-- ===== src/Relay.antt =====
-- The relay of internal/relay: the UDP pair forwarder and the WebSocket hub.
pub mod Wire
pub mod Pair
pub mod Server
pub mod Hub
