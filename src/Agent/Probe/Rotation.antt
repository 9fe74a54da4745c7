-- ===== src/Agent/Probe/Rotation.antt =====
-- A probe that brings no handshake ends: the agent goes through its candidates and returns to the
-- relay.
use go_wireguard_mesh.Common.{
  Bool, List, [], arith, get_elem?, length, none, refl, some, suc, zero, ℕ, ◌+◌, ◌<◌, ◌∷◌, ◌≡◌, ◌≤◌,
  All, false, or_else,
}
use go_wireguard_mesh.Agent.Path.{Endpoint, PeerPath, Probe, WgPeer}
use go_wireguard_mesh.Agent.Probe.{check_direct_probe}

module _ (accepts : Endpoint → Bool) where
  -- Checks at the given times, with what WireGuard then says of the peer: the final state, and the
  -- endpoint that the device is left with.
  unfoldable pub checks : List (ℕ × WgPeer) → PeerPath → Endpoint → PeerPath × Endpoint
  checks [] p device = (p, device)
  checks ((now, peer) ∷ ts) p device =
      let (p', set) = check_direct_probe accepts peer now p in checks ts p' (or_else set device)

  -- Each check comes at least the dwell time after the one before it.
  abbrev pub IsSpaced : ℕ → ℕ → List (ℕ × WgPeer) → Type 0
  IsSpaced start interval [] = Unit
  IsSpaced start interval ((now, peer) ∷ ts) =
      (start + interval ≤ now) × (peer.last_handshake ≡ none) × IsSpaced now interval ts

  lt_of_get_elem? :
      (xs : List Endpoint) (i : ℕ) {e : Endpoint} → get_elem? xs i ≡ some e → i < length xs
  lt_of_get_elem? [] i h = absurd (cc h)
  lt_of_get_elem? (x ∷ xs) zero h = omega arith
  lt_of_get_elem? (x ∷ xs) (suc i) h = omega (arith, lt_of_get_elem? xs i h)

  stall :
      (peer : WgPeer) (now : ℕ) (p : PeerPath) (q : Probe) (next : Endpoint)
      → p.probe ≡ some q
      → q.confirmed_at ≡ none
      → q.deadline ≡ none
      → get_elem? q.candidates (q.index + 1) ≡ some next
      → accepts next ≡ false
      → peer.last_handshake ≡ none
      → check_direct_probe accepts peer now p ≡ (p, none)
  unfolding check_direct_probe
  stall peer now p q next e c d g no_accept h =
      ground (arith, lt_of_get_elem? q.candidates (q.index + 1) g)

  -- If the device refuses the next candidate, an uncoordinated probe without a handshake never ends:
  -- no check at any later time changes the peer's state or the endpoint, so the peer stays on the
  -- candidate before it and is not returned to its relay.
  pub refused_stalls :
      (ts : List (ℕ × WgPeer)) (p : PeerPath) (q : Probe) (device next : Endpoint)
      → p.probe ≡ some q
      → q.confirmed_at ≡ none
      → q.deadline ≡ none
      → get_elem? q.candidates (q.index + 1) ≡ some next
      → accepts next ≡ false
      → All (λ t. t.1.last_handshake ≡ none) ts
      → checks ts p device ≡ (p, device)
  unfolding checks
  refused_stalls [] p q device next e c d g no_accept h = refl
  refused_stalls ((now, peer) ∷ ts) p q device next e c d g no_accept h =
      rw (stall peer now p q next e c d g no_accept h.0)
        (refused_stalls ts p q device next e c d g no_accept h.1)
