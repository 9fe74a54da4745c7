-- ===== src/Agent/Fallback/Consistency.antt =====
-- The entries of a peer in the reporter's maps agree with one another, after every operation.
use go_wireguard_mesh.Common.{
  Option, arith, false, is_some, length, none, some, true, ◌<◌, ◌≡◌, Bool, List, Option-cases, [],
  get_elem?, inl, inr, suc, zero, ℕ, ◌∷◌, Bool-cases, ltb, nat_eq, not, ◌&&◌, ◌-◌, ◌||◌,
  if◌then◌else◌,
}
use go_wireguard_mesh.Agent.Probe.{
  check_direct_probe, maybe_retry_direct, next_index, promote_direct, restore_relay_after_probe,
  rotate, start_direct_probe, can_rotate, check_confirmed, check_unconfirmed, is_direct_endpoint,
  is_fast, note_candidates, note_epoch, retry_gates, is_held,
}
use go_wireguard_mesh.Agent.Path.{
  Endpoint, PeerPath, Probe, quic_relay, unseen, ws_relay, WgPeer, after, within,
}
use go_wireguard_mesh.Agent.Fallback.{retire_quic, retire_ws}
use go_wireguard_mesh.Agent.Backoff.{
  coordinated_probe_interval, coordinated_probe_window, direct_probe_interval,
  direct_retry_interval,
}

-- A probe stands at one of its candidates and returns to the endpoint of the peer's relay.
abbrev pub IsTargeted : Option Probe → Option Endpoint → Type 0
IsTargeted none relay = Unit
IsTargeted (some q) relay = (relay ≡ some q.relay_endpoint) × (q.index < length q.candidates)

pub record IsConsistent (p : PeerPath) : Type 0 where
  pub targeted : IsTargeted p.probe p.relay_endpoint
  pub probing : is_some p.probe ≡ true → p.relayed ≡ true
  pub placed : p.relayed ≡ true → is_some p.relay_endpoint ≡ true
  pub dated : p.relayed ≡ true → is_some p.relayed_at ≡ true
  pub stint : is_some p.direct_since ≡ true → p.relayed ≡ false
  pub over_ws : is_some p.ws_proxy ≡ true → (p.relayed ≡ true) × (p.path_kind ≡ some ws_relay)
  pub over_quic : is_some p.quic_proxy ≡ true → (p.relayed ≡ true) × (p.path_kind ≡ some quic_relay)

pub unseen-IsConsistent : IsConsistent unseen
unseen-IsConsistent = ground arith

pub retire_ws-IsConsistent : (p : PeerPath) → IsConsistent p → IsConsistent (retire_ws p)
unfolding retire_ws
retire_ws-IsConsistent p h = ground arith

pub retire_quic-IsConsistent : (p : PeerPath) → IsConsistent p → IsConsistent (retire_quic p)
unfolding retire_quic
retire_quic-IsConsistent p h = ground arith

pick :
    (b : Bool) (x y : PeerPath × Option Endpoint)
    → IsConsistent x.0
    → IsConsistent y.0
    → IsConsistent (if b then x else y).0
pick true x y hx hy = hx
pick false x y hx hy = hy

module _ (accepts : Endpoint → Bool) where
  lt_of_get : (xs : List Endpoint) (i : ℕ) {e : Endpoint} → get_elem? xs i ≡ some e → i < length xs
  lt_of_get [] i h = absurd (cc h)
  lt_of_get (x ∷ xs) zero h = omega arith
  lt_of_get (x ∷ xs) (suc i) h = omega (arith, lt_of_get xs i h)

  rotate-IsConsistent :
      (q : Probe) (now : ℕ) (p : PeerPath)
      → p.probe ≡ some q
      → IsConsistent p
      → IsConsistent (rotate accepts q now p).0
  unfolding rotate
  rotate-IsConsistent q now p e h = elim (Option-cases (get_elem? q.candidates (next_index q))) [
    | inl n ↦ ground arith
    | inr (c, g) ↦ ground (arith, lt_of_get q.candidates (next_index q) g)
  ]

  restore-IsConsistent :
      (q : Probe) (now : ℕ) (p : PeerPath)
      → IsConsistent p
      → IsConsistent (restore_relay_after_probe accepts q now p).0
  unfolding restore_relay_after_probe
  restore-IsConsistent q now p h = ground arith

  promote-IsConsistent : (now : ℕ) (p : PeerPath) → IsConsistent (promote_direct now p)
  unfolding promote_direct
  promote-IsConsistent now p = ground arith

  as_confirmed :
      (peer : WgPeer) (now : ℕ) (p : PeerPath) (q : Probe) (c : ℕ)
      → p.probe ≡ some q
      → q.confirmed_at ≡ some c
      → check_direct_probe accepts peer now p ≡ check_confirmed accepts peer q c now p
  unfolding check_direct_probe
  as_confirmed peer now p q c e f = ground arith

  as_unconfirmed :
      (peer : WgPeer) (now : ℕ) (p : PeerPath) (q : Probe)
      → p.probe ≡ some q
      → q.confirmed_at ≡ none
      → check_direct_probe accepts peer now p ≡ check_unconfirmed accepts peer q now p
  unfolding check_direct_probe
  as_unconfirmed peer now p q e f = ground arith

  as_unprobed :
      (peer : WgPeer) (now : ℕ) (p : PeerPath)
      → p.probe ≡ none
      → check_direct_probe accepts peer now p ≡ (p, none)
  unfolding check_direct_probe
  as_unprobed peer now p e = ground arith

  confirmed-IsConsistent :
      (peer : WgPeer) (q : Probe) (c now : ℕ) (p : PeerPath)
      → IsConsistent p
      → IsConsistent (check_confirmed accepts peer q c now p).0
  unfolding check_confirmed
  confirmed-IsConsistent peer q c now p h = ground arith

  marked-IsConsistent :
      (q : Probe) (now : ℕ) (p : PeerPath)
      → p.probe ≡ some q
      → IsConsistent p
      → IsConsistent (record p { probe = some (record q { confirmed_at = some now }) })
  marked-IsConsistent q now p e h = ground arith

  unconfirmed-IsConsistent :
      (peer : WgPeer) (q : Probe) (now : ℕ) (p : PeerPath)
      → p.probe ≡ some q
      → IsConsistent p
      → IsConsistent (check_unconfirmed accepts peer q now p).0
  unconfirmed-IsConsistent peer q now p e h =
      elim (Bool-cases (after peer.last_handshake (some q.started) && is_direct_endpoint peer q)) [
        | inl seen ↦ unfold check_unconfirmed in rw seen (marked-IsConsistent q now p e h)
        | inr no_shake ↦
            unfold check_unconfirmed in
            rw no_shake (elim (Bool-cases (ltb (now - q.started) q.interval)) [
              | inl early ↦ rw early h
              | inr due ↦ rw due (elim (Bool-cases (can_rotate now q)) [
                | inl r ↦ rw r (rotate-IsConsistent q now p e h)
                | inr r ↦ rw r (restore-IsConsistent q now p h)
              ])
            ])
      ]

  pub check_direct_probe-IsConsistent :
      (peer : WgPeer) (now : ℕ) (p : PeerPath)
      → IsConsistent p
      → IsConsistent (check_direct_probe accepts peer now p).0
  check_direct_probe-IsConsistent peer now p h = elim (Option-cases p.probe) [
    | inl n ↦ rw (as_unprobed peer now p n) h
    | inr (q, e) ↦ elim (Option-cases q.confirmed_at) [
      | inl n ↦ rw (as_unconfirmed peer now p q e n) (unconfirmed-IsConsistent peer q now p e h)
      | inr (c, f) ↦ rw (as_confirmed peer now p q c e f) (confirmed-IsConsistent peer q c now p h)
    ]
  ]

  start-IsConsistent :
      (now : ℕ) (candidates : List Endpoint) (interval window epoch : ℕ) (p : PeerPath)
      → p.relayed ≡ true
      → IsConsistent p
      → IsConsistent (start_direct_probe accepts now candidates interval window epoch p).0
  unfolding start_direct_probe
  start-IsConsistent now candidates interval window epoch p r h =
      elim (Option-cases (get_elem? candidates 0)) [
        | inl n ↦ ground arith
        | inr (c, g) ↦ ground (arith, lt_of_get candidates 0 g)
      ]

  gates-IsConsistent :
      (now : ℕ) (candidates : List Endpoint) (epoch : ℕ) (fast : Bool) (p : PeerPath)
      → p.relayed ≡ true
      → IsConsistent p
      → IsConsistent (retry_gates accepts now candidates epoch fast p).0
  gates-IsConsistent now candidates epoch fast p r h =
      unfold retry_gates in
      pick (is_held now p) _ _ h (
        pick (is_some p.probe && not fast) _ _ h (
          pick (not fast && within now p.relayed_at (direct_retry_interval p.direct_failures)) _ _ h
            (pick fast _ _
              (start-IsConsistent now candidates coordinated_probe_interval coordinated_probe_window
                epoch p r h)
              (start-IsConsistent now candidates direct_probe_interval 0 epoch p r h))))

  pub maybe_retry_direct-IsConsistent :
      (off : Bool) (now : ℕ) (candidates : List Endpoint) (epoch : ℕ) (p : PeerPath)
      → IsConsistent p
      → IsConsistent (maybe_retry_direct accepts off now candidates epoch p).0
  maybe_retry_direct-IsConsistent off now candidates epoch p h =
      elim (Bool-cases (off || nat_eq (length candidates) 0 || not p.relayed)) [
        | inl closed ↦ unfold maybe_retry_direct in rw closed h
        | inr opened ↦
            unfold maybe_retry_direct in
            rw opened (
              gates-IsConsistent now candidates epoch (is_fast epoch (note_candidates candidates p))
                (note_epoch epoch (note_candidates candidates p)) (ground arith) (ground arith))
      ]
