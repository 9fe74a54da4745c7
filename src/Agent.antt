-- ===== src/Agent.antt =====
-- The agent of cmd/agent: how it keeps each peer on a direct path or on a relay.
pub mod Sync
pub mod Backoff
pub mod Path
pub mod Probe
pub mod Fallback
