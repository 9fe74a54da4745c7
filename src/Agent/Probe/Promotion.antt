-- ===== src/Agent/Probe/Promotion.antt =====
-- What it takes for a relayed peer to be moved to its direct path.
use go_wireguard_mesh.Common.{
  Bool, arith, false, none, some, true, ℕ, ◌+◌, ◌<◌, ◌≡◌, ◌≢◌, Bool-cases, Option-cases, inl, inr,
  ◌&&◌,
}
use go_wireguard_mesh.Agent.Backoff.{direct_probation_min}
use go_wireguard_mesh.Agent.Path.{Endpoint, PeerPath, Probe, WgPeer, after}
use go_wireguard_mesh.Agent.Probe.{check_direct_probe, promote_direct, is_direct_endpoint}

-- The probe has seen a direct handshake, WireGuard is at a direct endpoint now, and traffic has come
-- in from the peer more than 20 seconds after the handshake was noticed.
pub record IsProven (peer : WgPeer) (p : PeerPath) : Type 0 where
  pub probe : Probe
  pub confirmed : ℕ
  pub inbound : ℕ
  pub endpoint : Endpoint
  pub running : p.probe ≡ some probe
  pub handshake : probe.confirmed_at ≡ some confirmed
  pub at : peer.endpoint ≡ some endpoint
  pub direct : endpoint ≢ probe.relay_endpoint
  pub received : p.last_inbound ≡ some inbound
  pub later_on : confirmed + direct_probation_min < inbound

proven :
    (peer : WgPeer) (p : PeerPath) (q : Probe) (c : ℕ)
    → p.probe ≡ some q
    → q.confirmed_at ≡ some c
    → (is_direct_endpoint peer q && after p.last_inbound (some (c + direct_probation_min))) ≡ true
    → IsProven peer p
proven peer p q c e f h = elim (Option-cases peer.endpoint) [
  | inl n ↦ absurd (ground arith)
  | inr (d, g) ↦ elim (Option-cases p.last_inbound) [
    | inl n ↦ absurd (ground arith)
    | inr (t, l) ↦ record {
      probe = q;
      confirmed = c;
      inbound = t;
      endpoint = d;
      running = e;
      handshake = f;
      at = g;
      direct = ground arith;
      received = l;
      later_on = ground arith;
    }
  ]
]

module _ (accepts : Endpoint → Bool) where
  pub unprobed :
      (peer : WgPeer) (now : ℕ) (p : PeerPath)
      → p.probe ≡ none
      → check_direct_probe accepts peer now p ≡ (p, none)
  unfolding check_direct_probe
  unprobed peer now p n = ground arith

  unconfirmed :
      (peer : WgPeer) (now : ℕ) (p : PeerPath) (q : Probe)
      → p.probe ≡ some q
      → q.confirmed_at ≡ none
      → (check_direct_probe accepts peer now p).0.relayed ≡ p.relayed
  unfolding check_direct_probe
  unconfirmed peer now p q e n = ground arith

  unproven :
      (peer : WgPeer) (now : ℕ) (p : PeerPath) (q : Probe) (c : ℕ)
      → p.probe ≡ some q
      → q.confirmed_at ≡ some c
      → (is_direct_endpoint peer q && after p.last_inbound (some (c + direct_probation_min)))
        ≡ false
      → (check_direct_probe accepts peer now p).0.relayed ≡ p.relayed
  unfolding check_direct_probe
  unproven peer now p q c e f n = ground arith

  pub IsProven-of :
      (peer : WgPeer) (now : ℕ) (p : PeerPath)
      → p.relayed ≡ true
      → (check_direct_probe accepts peer now p).0.relayed ≡ false
      → IsProven peer p
  IsProven-of peer now p r h = elim (Option-cases p.probe) [
    | inl n ↦ absurd (ground (arith, unprobed peer now p n))
    | inr (q, e) ↦ elim (Option-cases q.confirmed_at) [
      | inl n ↦ absurd (ground (arith, unconfirmed peer now p q e n))
      | inr (c, f) ↦
          elim (Bool-cases
            (is_direct_endpoint peer q && after p.last_inbound (some (c + direct_probation_min)))) [
              | inr no_proof ↦ absurd (ground (arith, unproven peer now p q c e f no_proof))
              | inl proof ↦ proven peer p q c e f proof
            ]
    ]
  ]

  pub of_proven :
      (peer : WgPeer) (now : ℕ) (p : PeerPath)
      → IsProven peer p
      → check_direct_probe accepts peer now p ≡ (promote_direct now p, none)
  unfolding check_direct_probe
  of_proven peer now p v = ground arith
