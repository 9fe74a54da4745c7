-- ===== src/Agent/Fallback/Silence.antt =====
-- When a direct peer falls back to a relay.
use go_wireguard_mesh.Common.{
  Bool, false, none, some, true, ℕ, ◌-◌, ◌↔◌, ◌≡◌, ◌≤◌, ◌⊎◌, Bool-cases, Option, arith,
  if◌then◌else◌, inl, inr, ltb, refl, ◌||◌, ◌∙◌,
}
use go_wireguard_mesh.Agent.Backoff.{direct_stale_after}
use go_wireguard_mesh.Agent.Path.{PeerPath, WgPeer, direct_silent_for, later}
use go_wireguard_mesh.Agent.Probe.{check_direct_probe, promote_direct, note_direct_stint_ended}
use go_wireguard_mesh.Agent.Probe.Promotion.{of_proven, IsProven-of, unprobed}
use go_wireguard_mesh.Agent.Fallback.{
  Net, Transport, check_peer, see_first, switch_to_relay, fall_back, relay_auto, relay_udp,
  relay_web_socket,
}

-- The times at which the agent has noticed the peer.
abbrev pub IsSign : WgPeer → PeerPath → ℕ → Type 0
IsSign peer p t =
    (p.first_seen ≡ some t) ⊎ (p.last_inbound ≡ some t) ⊎ (peer.last_handshake ≡ some t)

-- A peer's silence is never longer than the time since any sign of it: the first sighting, the last
-- growth of its received bytes and the last handshake.
pub silent_since_sign :
    (peer : WgPeer) (now t : ℕ) (p : PeerPath)
    → IsSign peer p t
    → direct_silent_for peer now p ≤ now - t
unfolding direct_silent_for
silent_since_sign peer now t p h = ground arith

later_attained :
    (a : ℕ) (o : Option ℕ) → (t : ℕ) × (later (some a) o ≡ some t) × ((t ≡ a) ⊎ (o ≡ some t))
later_attained a none = (a, refl, inl refl)
later_attained a (some b) = elim (Bool-cases (ltb a b)) [
  | inl e ↦ (b, rw e, inr refl)
  | inr e ↦ (a, rw e, inl refl)
]

-- It is the time since one of these signs, the latest.
pub silent_attained :
    (peer : WgPeer) (now s : ℕ) (p : PeerPath)
    → p.first_seen ≡ some s
    → (t : ℕ) × IsSign peer p t × (direct_silent_for peer now p ≡ now - t)
silent_attained peer now s p h =
    let (a, e, from_a) = later_attained s p.last_inbound in
    let (b, f, from_b) = later_attained a peer.last_handshake in
    (b, ground arith, unfold direct_silent_for in rw h (rw e (rw f)))

switch_relayed :
    (transport : Transport) (net : Net) (broken : Bool) (p : PeerPath)
    → (switch_to_relay transport net broken p).path.relayed ≡ p.relayed
unfolding switch_to_relay
switch_relayed relay_auto net broken p = ground arith
switch_relayed relay_web_socket net broken p = ground arith
switch_relayed relay_udp net broken p = ground arith

stint_relayed : (now : ℕ) (p : PeerPath) → (note_direct_stint_ended now p).relayed ≡ p.relayed
unfolding note_direct_stint_ended
stint_relayed now p = ground arith

fall_back_relayed :
    (transport : Transport) (net : Net) (now : ℕ) (broken : Bool) (p : PeerPath)
    → p.relayed ≡ false
    → (fall_back transport net now broken p).0.relayed
      ≡ (switch_to_relay transport net broken p).switched
fall_back_relayed transport net now broken p r =
    elim (Bool-cases (switch_to_relay transport net broken p).switched) [
      | inl e ↦
          unfold fall_back in
          rw e (
            stint_relayed now (record ((switch_to_relay transport net broken p).path) {
              relayed = true;
              relayed_at = some now;
            }))
      | inr e ↦ unfold fall_back in rw e (switch_relayed transport net broken p ∙ r)
    ]

-- A round moves a peer that is not relayed and has no probe onto a relay exactly when no relay is known to be missing,
-- the peer has been silent for 90 seconds or more, and the attempt at a relay succeeds.
pub falls_back_iff :
    (transport : Transport) (net : Net) (peer : WgPeer) (now : ℕ) (broken : Bool) (p : PeerPath)
    → p.probe ≡ none
    → p.relayed ≡ false
    → ((check_peer transport net peer now broken p).0.relayed ≡ true)
      ↔ (broken ≡ false)
        × (direct_stale_after ≤ direct_silent_for peer now (see_first now p))
        × ((switch_to_relay transport net broken (see_first now p)).switched ≡ true)
unfolding check_peer
falls_back_iff transport net peer now broken p n r =
    rw (unprobed net.accepts peer now p n)
      (ground (arith, fall_back_relayed transport net now broken (see_first now p)))

promoted_round :
    (transport : Transport) (net : Net) (peer : WgPeer) (now : ℕ) (broken : Bool) (p : PeerPath)
    → let q = see_first now (promote_direct now p) in
      (if q.relayed || broken
        then (q, broken)
        else if ltb (direct_silent_for peer now q) direct_stale_after
        then (q, broken)
        else fall_back transport net now broken q)
      ≡ (promote_direct now p, broken)
unfolding promote_direct
promoted_round transport net peer now broken p =
    ground (arith, silent_since_sign peer now now (promote_direct now p) (inl refl))

-- A peer that a round promotes to its direct path is not moved back in the same round, and whatever
-- the network would answer.
pub promoted_stays :
    (transport : Transport) (net : Net) (peer : WgPeer) (now : ℕ) (broken : Bool) (p : PeerPath)
    → p.relayed ≡ true
    → (check_direct_probe net.accepts peer now p).0.relayed ≡ false
    → check_peer transport net peer now broken p ≡ (promote_direct now p, broken)
promoted_stays transport net peer now broken p r h =
    let e : check_direct_probe net.accepts peer now p ≡ (promote_direct now p, none) =
      of_proven net.accepts peer now p (IsProven-of net.accepts peer now p r h) in
    unfold check_peer in rw e (promoted_round transport net peer now broken p)
