-- ===== src/Store/Telemetry/Tokens.antt =====
-- `AuthenticatePeer` of internal/store/telemetry.go, and the tokens that `Enroll` hands out. Times
-- and the TTL are milliseconds; a TTL of 0 is none. Every row has the time at which its token was
-- issued.
pub mod Issued
use go_wireguard_mesh.Common.{
  Bool, String, bytes_key, find, if◌then◌else◌, ltb, nat_key, none, some, text_key, ℕ, ◌&&◌, ◌-◌,
  ◌==◌,
}
use go_wireguard_mesh.Store.{
  Db, Peer, exhausted_key, expired_key, other_key, peer_by_key, revoked_key, unknown_key,
}
use go_wireguard_mesh.Store.Peers.{is_active, sealed_private_key, static_key}

-- Only the log tells the reasons apart.
pub data Refusal : Type 0 where
  unknown_token : Refusal
  expired_token : Refusal

pub data Auth : Type 0 where
  admitted : ℕ → ℕ → Auth
  refused : Refusal → Auth

-- `auth_token_hash = ? AND revoked_at IS NULL`.
abbrev pub bears : String → Peer → Bool
bears token p = (p.token_hash == token) && is_active p

-- `s.TokenTTL > 0 && … time.Since(issued) > s.TokenTTL`.
abbrev pub token_expired : ℕ → ℕ → Peer → Bool
token_expired ttl now p = ltb 0 ttl && ltb ttl (now - p.issued_at)

-- `AuthenticatePeer`, for a token with the hash `token`.
unfoldable pub authenticate_peer : ℕ → String → ℕ → Db → Auth
authenticate_peer ttl token now db = elim (find (bears token) db.peers) [
  | none ↦ refused unknown_token
  | some p ↦ if token_expired ttl now p then refused expired_token else admitted p.id p.assigned_ip
]
