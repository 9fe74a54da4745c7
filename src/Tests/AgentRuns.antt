-- ===== src/Tests/AgentRuns.antt =====
-- Runs of cmd/agent/relay.go.
use go_wireguard_mesh.Common.{
  Bool, List, [], arith, false, map, min, nat_eq, none, not, refl, some, true, ℕ, ◌*◌, ◌+◌, ◌↔◌,
  ◌∷◌, ◌≡◌, ◌≤◌,
}
use go_wireguard_mesh.Agent.Backoff.{
  direct_probe_interval, direct_retry_interval, direct_stale_after, flap_hold_down, minute,
  signal_backoff, signal_reconnect_max, signal_reconnect_min,
}
use go_wireguard_mesh.Agent.Backoff.Bounds.{backoff_monotone, signal_backoff_bounds}
use go_wireguard_mesh.Agent.Path.{
  Endpoint, PeerPath, Probe, WgPeer, candidate_digest, digest_eq, direct_silent_for, udp_relay,
  unseen, ws_relay,
}
use go_wireguard_mesh.Agent.Probe.{
  check_direct_probe, maybe_retry_direct, note_direct_stint_ended, promote_direct,
}
use go_wireguard_mesh.Agent.Probe.Gate.{IsOpen, flap_holds, retry-IsOpen}
use go_wireguard_mesh.Agent.Probe.Rotation.{checks, refused_stalls}
use go_wireguard_mesh.Agent.Fallback.{
  DevicePeer, Net, Reporter, check_handshakes, check_peer, no_udp_relay, relay_auto, see_first,
  switch_to_relay, ws_started,
}
use go_wireguard_mesh.Agent.Fallback.Silence.{falls_back_iff, promoted_stays}

intervals :
    map direct_retry_interval (0 ∷ 1 ∷ 2 ∷ 3 ∷ 9 ∷ [])
    ≡ (5 * minute) ∷ (10 * minute) ∷ (20 * minute) ∷ (30 * minute) ∷ (30 * minute) ∷ []
unfolding direct_retry_interval
intervals = refl

backoff_monotone_run :
    (direct_retry_interval 1 ≤ direct_retry_interval 3)
    × (direct_retry_interval 3 ≤ 30 * minute)
    × (flap_hold_down 1 ≤ flap_hold_down 3)
    × (flap_hold_down 3 ≤ 16 * minute)
backoff_monotone_run = backoff_monotone 1 3 (omega arith)

signal_backoff_bounds_example :
    (signal_reconnect_min ≤ signal_backoff 4)
    × (signal_backoff 4 ≤ signal_reconnect_max)
    × (signal_backoff 5 ≡ min (2 * signal_backoff 4) signal_reconnect_max)
signal_backoff_bounds_example = signal_backoff_bounds 4

abbrev relay_at : Endpoint
relay_at = 900

-- A peer that has been on its relay since the time 1.
abbrev on_relay : PeerPath
on_relay = record unseen {
  first_seen = some 0;
  relayed = true;
  relayed_at = some 1;
  relay_endpoint = some relay_at;
  path_kind = some udp_relay;
}

abbrev all_accepted : Endpoint → Bool
all_accepted e = true

-- The first retry after five minutes sets the first candidate.
retry_starts :
    (maybe_retry_direct all_accepted false (5 * minute + 1) (41 ∷ 42 ∷ []) 0 on_relay).1 ≡ some 41
unfolding maybe_retry_direct direct_retry_interval digest_eq candidate_digest
retry_starts = refl

retry-IsOpen_run :
    (◌≡◌ {A = Bool} false false) × IsOpen (5 * minute + 1) (41 ∷ 42 ∷ []) 0 on_relay 41
retry-IsOpen_run =
    retry-IsOpen all_accepted false (5 * minute + 1) (41 ∷ 42 ∷ []) 0 on_relay retry_starts

abbrev held : PeerPath
held = record on_relay { hold_down_until = some (3 * minute) }

flap_holds_example :
    ((note_direct_stint_ended minute (promote_direct 0 on_relay)).direct_flaps ≡ 0 + 1)
    × ((maybe_retry_direct all_accepted false (2 * minute) (41 ∷ []) 7 held).1 ≡ none)
    × ((maybe_retry_direct all_accepted false (2 * minute) (41 ∷ []) 7 held).0.probe ≡ none)
unfolding note_direct_stint_ended promote_direct flap_hold_down
flap_holds_example =
    flap_holds all_accepted false 0 minute (2 * minute) (41 ∷ []) 7 on_relay held (omega arith)
      (omega arith) refl

abbrev probe_of_two : Probe
probe_of_two = record {
  started = 10 * minute;
  confirmed_at = none;
  candidates = 41 ∷ 42 ∷ [];
  index = 0;
  relay_endpoint = relay_at;
  interval = direct_probe_interval;
  deadline = none;
  epoch = 0;
}

abbrev probing : PeerPath
probing = record on_relay { probe = some probe_of_two }

abbrev quiet : WgPeer
quiet = record { endpoint = some 41; last_handshake = none }

abbrev two_checks : List (ℕ × WgPeer)
two_checks = (11 * minute, quiet) ∷ (12 * minute, quiet) ∷ []

-- The device takes every endpoint but 42.
abbrev not_42 : Endpoint → Bool
not_42 e = not (nat_eq e 42)

refused_stalls_example : checks not_42 two_checks probing 41 ≡ (probing, 41)
refused_stalls_example =
    refused_stalls not_42 two_checks probing probe_of_two 41 42 refl refl refl refl refl
      (refl, (refl, tt))

abbrev confirmed_probe : PeerPath
confirmed_probe = record on_relay {
  probe = some (record probe_of_two { confirmed_at = some (11 * minute) });
  last_inbound = some (12 * minute);
}

abbrev ws_only : Net
ws_only = record { quic = none; ws = ws_started 77; udp = no_udp_relay; accepts = all_accepted }

abbrev met : PeerPath
met = record unseen { first_seen = some 1 }

falls_back_iff_run :
    ((check_peer relay_auto ws_only quiet (2 * minute) false met).0.relayed ≡ true)
    ↔ (◌≡◌ {A = Bool} false false)
      × (direct_stale_after ≤ direct_silent_for quiet (2 * minute) (see_first (2 * minute) met))
      × ((switch_to_relay relay_auto ws_only false (see_first (2 * minute) met)).switched ≡ true)
falls_back_iff_run = falls_back_iff relay_auto ws_only quiet (2 * minute) false met refl refl

promoted_stays_run :
    check_peer relay_auto ws_only quiet (12 * minute) false confirmed_probe
    ≡ (promote_direct (12 * minute) confirmed_probe, false)
unfolding check_direct_probe
promoted_stays_run =
    promoted_stays relay_auto ws_only quiet (12 * minute) false confirmed_probe refl refl

abbrev empty_reporter : Reporter
empty_reporter = record { transport = relay_auto; relay_broken = false; paths = λ k. unseen }

abbrev the_device : List DevicePeer
the_device = record { key = 5; peer = quiet; net = ws_only } ∷ []

abbrev after_rounds : Reporter
after_rounds =
    check_handshakes (4 * minute) the_device (check_handshakes minute the_device empty_reporter)

-- The peer is seen at minute 1 and has fallen back to the WebSocket relay by minute 4.
fallen_back : (after_rounds.paths 5).path_kind ≡ some ws_relay
unfolding check_handshakes check_direct_probe
fallen_back = refl
