-- ===== src/Control.antt =====
-- cmd/server: what the control plane coordinates between two peers.
pub mod PairKey
pub mod Punch
pub mod Signal
pub mod Candidates
pub mod Entries
pub mod ClientIp
