-- ===== src/Relay/Wire/Shape.antt =====
-- The shape of a WireGuard datagram, described without the order of the tests of `wgShaped`.
use go_wireguard_mesh.Common.{ℕ, ◌+◌, ◌≤◌, ◌≡◌, ◌⊎◌, true, List, [], ◌∷◌, arith, length, ◌↔◌}
use go_wireguard_mesh.Relay.Wire.{wg_shaped}

-- The size that the protocol gives a message of each type.
abbrev pub HasSize : ℕ → ℕ → Type 0
HasSize kind n =
    (kind ≡ 1) × (n ≡ 148) ⊎ (kind ≡ 2) × (n ≡ 92) ⊎ (kind ≡ 3) × (n ≡ 64) ⊎ (kind ≡ 4) × (32 ≤ n)

-- A type byte, three zero bytes, and a body that makes up the size of the type.
abbrev pub IsDatagram : List ℕ → Type 0
IsDatagram b =
    (kind : ℕ) × (body : List ℕ) × (b ≡ kind ∷ 0 ∷ 0 ∷ 0 ∷ body) × HasSize kind (length body + 4)

shaped_of :
    (k : ℕ) (body : List ℕ) → HasSize k (length body + 4) → wg_shaped (k ∷ 0 ∷ 0 ∷ 0 ∷ body) ≡ true
unfolding wg_shaped
shaped_of k body h = ground arith

IsDatagram-of : (b : List ℕ) → wg_shaped b ≡ true → IsDatagram b
unfolding wg_shaped
IsDatagram-of [] h = cc
IsDatagram-of (k ∷ []) h = ground arith
IsDatagram-of (k ∷ x ∷ []) h = ground arith
IsDatagram-of (k ∷ x ∷ y ∷ []) h = ground arith
IsDatagram-of (k ∷ x ∷ y ∷ z ∷ body) h = (k, body, ground arith, ground arith)

-- The relay accepts a datagram exactly when it is a type byte from 1 to 4, three zero bytes and a
-- body that brings it to the size of its type: 148, 92 or 64 bytes, or at least 32 for type 4.
pub wg_shaped_iff : (b : List ℕ) → (wg_shaped b ≡ true) ↔ IsDatagram b
wg_shaped_iff b = (IsDatagram-of b, λ (k, body, e, h). rw e (shaped_of k body h))
