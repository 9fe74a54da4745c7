-- ===== src/Relay/Pair/Latch.antt =====
-- Who can move the address that a leg has learned.
use go_wireguard_mesh.Common.{
  All, Bool, Bool-cases, List, Option-cases, [], arith, false, if◌then◌else◌, inl, inr, is_some,
  nat_eq, not, some, true, ℕ, ◌&&◌, ◌||◌, ◌∷◌, ◌≡◌, ◌≢◌, ◌⊎◌,
}
use go_wireguard_mesh.Relay.Wire.{byte_at, msg_transport, wg_shaped}
use go_wireguard_mesh.Relay.Pair.{AddrPort, Packet, Pair, addr_eq_iff, forward, run, source}

-- A datagram that may move the address of the leg it arrives on.
abbrev pub is_handshake : List ℕ → Bool
is_handshake b = wg_shaped b && not (nat_eq (byte_at b 0) msg_transport)

-- No handshake-shaped datagram arrives on the leg from another address than `a`.
abbrev pub NoForeignHandshake : Bool → AddrPort → List Packet → Type 0
NoForeignHandshake leg a = All (λ k. k.from_a ≡ leg → is_handshake k.payload ≡ true → k.src ≡ a)

forward_latched :
    (leg : Bool) (a : AddrPort) (k : Packet) (p : Pair)
    → (k.from_a ≡ leg → is_handshake k.payload ≡ true → k.src ≡ a)
    → source leg p ≡ some a
    → source leg (forward k p).0 ≡ some a
unfolding forward
forward_latched true a k p h e = ground (arith, addr_eq_iff a k.src)
forward_latched false a k p h e = ground (arith, addr_eq_iff a k.src)

-- Once a leg has learned the address `a`, it keeps it through every interleaving of datagrams on
-- both legs in which the leg receives no handshake-shaped datagram from another address.
pub run_latched :
    (leg : Bool) (a : AddrPort) (ks : List Packet) (p : Pair)
    → NoForeignHandshake leg a ks
    → source leg p ≡ some a
    → source leg (run ks p).0 ≡ some a
unfolding run
run_latched leg a [] p h e = e
run_latched leg a (k ∷ ks) p h e =
    run_latched leg a ks (forward k p).0 h.1 (forward_latched leg a k p h.0 e)

-- What a datagram does to the leg it arrives on: it is adopted as the source when it has the shape
-- of a WireGuard datagram and either the leg has no source yet or it is no transport message;
-- otherwise the source stays as it was. The other leg's source never changes.
pub source-forward :
    (k : Packet) (p : Pair)
    → (source k.from_a (forward k p).0 ≡ (
        if wg_shaped k.payload && (not (is_some (source k.from_a p)) || is_handshake k.payload)
        then some k.src
        else source k.from_a p))
      × (source (not k.from_a) (forward k p).0 ≡ source (not k.from_a) p)
unfolding forward
source-forward k p = elim (Bool-cases k.from_a) [
  | inl e ↦ rw e (elim (Option-cases p.src_a) [
    | inl n ↦ ground arith
    | inr (c, s) ↦ ground (arith, addr_eq_iff c k.src)
  ])
  | inr e ↦ rw e (elim (Option-cases p.src_b) [
    | inl n ↦ ground arith
    | inr (c, s) ↦ ground (arith, addr_eq_iff c k.src)
  ])
]

-- A datagram that the relay refuses, being misshapen or a transport message from an address other
-- than the leg's source, changes nothing: it is not forwarded, not learned from, and does not keep
-- the pair alive.
pub forward_refused :
    (k : Packet) (p : Pair)
    → (wg_shaped k.payload ≡ false)
      ⊎ ((c : AddrPort) × (source k.from_a p ≡ some c)
          × (c ≢ k.src)
          × (is_handshake k.payload ≡ false))
    → forward k p ≡ (p, [])
unfolding forward
forward_refused k p (inl bad) = rw bad
forward_refused k p (inr (c, s, ne, t)) = ground (arith, addr_eq_iff c k.src)
