-- ===== src/Agent/Fallback.antt =====
-- cmd/agent/relay.go: the fallback of silent peers to a relay, `checkHandshakes` and
-- `switchToRelay`. What the network answers to an attempt at a relay is a parameter, `Net`: starting
-- the QUIC and the WebSocket proxy (cmd/agent/relayquic.go, cmd/agent/relayws.go) and asking the
-- control plane for a UDP relay are input and output.
pub mod Consistency
pub mod Rounds
pub mod Silence
use go_wireguard_mesh.Common.{
  Bool, List, Option, [], false, if◌then◌else◌, is_some, ltb, nat_eq, none, not, some, true, ℕ,
  ◌||◌, ◌∷◌,
}
use go_wireguard_mesh.Agent.Backoff.{direct_stale_after}
use go_wireguard_mesh.Agent.Path.{
  Endpoint, PeerPath, Proxy, WgPeer, direct_silent_for, quic_relay, udp_relay, ws_relay,
}
use go_wireguard_mesh.Agent.Probe.{check_direct_probe, note_direct_stint_ended}

-- `relayTransport`.
pub data Transport : Type 0 where
  relay_auto relay_web_socket relay_udp : Transport

-- `startWSRelay`: a proxy with its loopback endpoint, the error `errNoWSRelay`, another error.
pub data WsOutcome : Type 0 where
  ws_started : Endpoint → WsOutcome
  no_ws_relay : WsOutcome
  ws_failed : WsOutcome

-- `requestRelayEndpoint` and the resolution of what it returned: an endpoint, the empty text, or an
-- error of either.
pub data UdpOutcome : Type 0 where
  udp_endpoint : Endpoint → UdpOutcome
  no_udp_relay : UdpOutcome
  udp_failed : UdpOutcome

pub record Net : Type 0 where
  pub quic : Option Endpoint
  pub ws : WsOutcome
  pub udp : UdpOutcome
  pub accepts : Endpoint → Bool

-- The two loops of `checkHandshakes` that retire proxies whose pumps have stopped.
abbrev pub is_dead : Option Proxy → Bool
is_dead none = false
is_dead (some x) = not x.alive

unfoldable pub retire_ws : PeerPath → PeerPath
retire_ws p =
    if is_dead p.ws_proxy
    then record p {
      ws_proxy = none;
      relayed = false;
      relayed_at = none;
      relay_endpoint = none;
      probe = none;
      path_kind = none;
    }
    else p

unfoldable pub retire_quic : PeerPath → PeerPath
retire_quic p =
    if is_dead p.quic_proxy
    then record p {
      quic_proxy = none;
      relayed = false;
      relayed_at = none;
      relay_endpoint = none;
      probe = none;
      path_kind = none;
      quic_unavailable = true;
    }
    else p

-- What `switchToRelay` leaves behind: the peer's state, whether the reporter now knows that there is
-- no relay, and whether the peer is relayed.
pub record Switch : Type 0 where
  pub path : PeerPath
  pub broken : Bool
  pub switched : Bool

abbrev pub proxy_at : Endpoint → Option Proxy
proxy_at e = some (record { endpoint = e; alive = true })

unfoldable pub switch_ws : Net → Bool → PeerPath → Switch
switch_ws net broken p = elim net.ws [
  | ws_started e ↦ record {
    path = record p { ws_proxy = proxy_at e; relay_endpoint = some e; path_kind = some ws_relay };
    broken = broken;
    switched = true;
  }
  | no_ws_relay ↦ record { path = p; broken = true; switched = false }
  | ws_failed ↦ record { path = p; broken = broken; switched = false }
]

unfoldable pub switch_auto : Net → Bool → PeerPath → Switch
unfolding switch_ws
switch_auto net broken p = if p.quic_unavailable then switch_ws net broken p else elim net.quic [
  | some e ↦ record {
    path = record p {
      quic_proxy = proxy_at e;
      relay_endpoint = some e;
      path_kind = some quic_relay;
    };
    broken = broken;
    switched = true;
  }
  | none ↦ switch_ws net broken (record p { quic_unavailable = true })
]

unfoldable pub switch_udp : Net → Bool → PeerPath → Switch
switch_udp net broken p = elim net.udp [
  | udp_endpoint e ↦
      if net.accepts e
      then record {
        path = record p { relay_endpoint = some e; path_kind = some udp_relay };
        broken = broken;
        switched = true;
      }
      else record { path = p; broken = broken; switched = false }
  | no_udp_relay ↦ record { path = p; broken = true; switched = false }
  | udp_failed ↦ record { path = p; broken = broken; switched = false }
]

-- `switchToRelay`.
unfoldable pub switch_to_relay : Transport → Net → Bool → PeerPath → Switch
unfolding switch_auto switch_ws switch_udp
switch_to_relay relay_auto net broken p = switch_auto net broken p
switch_to_relay relay_web_socket net broken p = switch_ws net broken p
switch_to_relay relay_udp net broken p = switch_udp net broken p

abbrev pub see_first : ℕ → PeerPath → PeerPath
see_first now p = if is_some p.first_seen then p else record p { first_seen = some now }

-- The end of a round of `checkHandshakes`, for a peer that has been silent for too long.
unfoldable pub fall_back : Transport → Net → ℕ → Bool → PeerPath → PeerPath × Bool
unfolding switch_to_relay note_direct_stint_ended
fall_back transport net now broken p =
    let s = switch_to_relay transport net broken p in
    if s.switched
    then (
      note_direct_stint_ended now (record (s.path) { relayed = true; relayed_at = some now }),
      s.broken,
    )
    else (s.path, s.broken)

-- A round of the loop of `checkHandshakes` over the device's peers.
unfoldable pub check_peer : Transport → Net → WgPeer → ℕ → Bool → PeerPath → PeerPath × Bool
unfolding check_direct_probe direct_silent_for fall_back
check_peer transport net peer now broken p =
    let q = see_first now (check_direct_probe net.accepts peer now p).0 in
    if q.relayed || broken
    then (q, broken)
    else if ltb (direct_silent_for peer now q) direct_stale_after
    then (q, broken)
    else fall_back transport net now broken q

-- The reporter's part in this: its paths by key.
pub record Reporter : Type 0 where
  pub transport : Transport
  pub relay_broken : Bool
  pub paths : ℕ → PeerPath

abbrev pub set_path : ℕ → PeerPath → (ℕ → PeerPath) → ℕ → PeerPath
set_path key p paths k = if nat_eq key k then p else paths k

-- A peer of the device, with the answers of the network to what the round asks for it.
pub record DevicePeer : Type 0 where
  pub key : ℕ
  pub peer : WgPeer
  pub net : Net

unfoldable pub check_peers : ℕ → List DevicePeer → Reporter → Reporter
unfolding check_peer
check_peers now [] r = r
check_peers now (d ∷ ds) r =
    let (p, broken) = check_peer r.transport d.net d.peer now r.relay_broken (r.paths d.key) in
    check_peers now ds (record r { relay_broken = broken; paths = set_path d.key p r.paths })

-- `checkHandshakes`.
unfoldable pub check_handshakes : ℕ → List DevicePeer → Reporter → Reporter
unfolding retire_ws retire_quic check_peers
check_handshakes now ds r =
    check_peers now ds (record r { paths = λ k. retire_quic (retire_ws (r.paths k)) })
