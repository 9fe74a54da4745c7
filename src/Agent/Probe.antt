-- ===== src/Agent/Probe.antt =====
-- cmd/agent/relay.go: the direct probes of a relayed peer. An operation returns the peer's new
-- state and the endpoint that it set on the WireGuard device, if it set one. `accepts e` is whether
-- `ConfigureDevice` takes the endpoint e. One time stands for the calls of `time.Now` that one
-- operation makes.
pub mod Gate
pub mod Promotion
pub mod Rotation
use go_wireguard_mesh.Common.{
  Bool, List, Option, [], false, get_elem?, if◌then◌else◌, is_some, leb, length, ltb, nat_eq, none,
  not, some, ℕ, ◌&&◌, ◌+◌, ◌-◌, ◌||◌,
}
use go_wireguard_mesh.Agent.Backoff.{
  coordinated_probe_interval, coordinated_probe_window, direct_probation_min,
  direct_probation_timeout, direct_probe_interval, direct_retry_interval, direct_stable_tenure,
  flap_hold_down,
}
use go_wireguard_mesh.Agent.Path.{
  Endpoint, PeerPath, Probe, WgPeer, after, candidate_digest, digest_eq, within,
}

-- `noteDirectStintEnded`.
unfoldable pub note_direct_stint_ended : ℕ → PeerPath → PeerPath
note_direct_stint_ended now p = elim p.direct_since [
  | none ↦ p
  | some since ↦
      if leb direct_stable_tenure (now - since)
      then record p { direct_since = none; direct_flaps = 0 }
      else record p {
        direct_since = none;
        direct_flaps = p.direct_flaps + 1;
        hold_down_until = some (now + flap_hold_down (p.direct_flaps + 1));
      }
]

-- `promoteDirect`.
unfoldable pub promote_direct : ℕ → PeerPath → PeerPath
promote_direct now p = record p {
  ws_proxy = none;
  quic_proxy = none;
  probe = none;
  relayed = false;
  relayed_at = none;
  relay_endpoint = none;
  direct_failures = 0;
  last_candidates = [];
  path_kind = none;
  quic_unavailable = false;
  first_seen = some now;
  direct_since = some now;
  hold_down_until = none;
}

abbrev pub new_probe : ℕ → List Endpoint → Endpoint → ℕ → ℕ → ℕ → Probe
new_probe now candidates relay interval window epoch = record {
  started = now;
  confirmed_at = none;
  candidates = candidates;
  index = 0;
  relay_endpoint = relay;
  interval = interval;
  deadline = if ltb 0 window then some (now + window) else none;
  epoch = epoch;
}

-- The digest of a changed candidate set is stored, and past failures are forgotten.
abbrev pub note_candidates : List Endpoint → PeerPath → PeerPath
note_candidates candidates p =
    if digest_eq (candidate_digest candidates) p.last_candidates
    then p
    else record p { last_candidates = candidate_digest candidates; direct_failures = 0 }

abbrev pub is_fast : ℕ → PeerPath → Bool
is_fast epoch p = ltb 0 epoch && ltb p.last_punch_epoch epoch

abbrev pub note_epoch : ℕ → PeerPath → PeerPath
note_epoch epoch p = if is_fast epoch p then record p { last_punch_epoch = epoch } else p

-- `until, held := t.holdDownUntil[peer]; held && now.Before(until)`.
abbrev pub is_held : ℕ → PeerPath → Bool
is_held now p = after p.hold_down_until (some now)

-- Whether WireGuard talks to the peer at another endpoint than the relay's.
abbrev pub is_direct_endpoint : WgPeer → Probe → Bool
is_direct_endpoint peer probe = elim peer.endpoint [
  | none ↦ false
  | some e ↦ not (nat_eq e probe.relay_endpoint)
]

abbrev pub can_rotate : ℕ → Probe → Bool
can_rotate now probe = elim probe.deadline [
  | none ↦ ltb (probe.index + 1) (length probe.candidates)
  | some deadline ↦ ltb now deadline
]

abbrev pub next_index : Probe → ℕ
next_index probe = if leb (length probe.candidates) (probe.index + 1) then 0 else probe.index + 1

module _ (accepts : Endpoint → Bool) where
  -- `restoreRelayAfterProbe`.
  unfoldable pub restore_relay_after_probe : Probe → ℕ → PeerPath → PeerPath × Option Endpoint
  restore_relay_after_probe probe now p =
      if accepts probe.relay_endpoint
      then (
        record p { probe = none; relayed_at = some now; direct_failures = p.direct_failures + 1 },
        some probe.relay_endpoint,
      )
      else (p, none)

  -- `startDirectProbe`. Its caller has tested that there is a candidate.
  unfoldable pub start_direct_probe :
      ℕ → List Endpoint → ℕ → ℕ → ℕ → PeerPath → PeerPath × Option Endpoint
  start_direct_probe now candidates interval window epoch p = elim p.relay_endpoint [
    | none ↦ (p, none)
    | some relay ↦ elim (get_elem? candidates 0) [
      | none ↦ (p, none)
      | some c ↦
          if accepts c
          then (
            record p { probe = some (new_probe now candidates relay interval window epoch) },
            some c,
          )
          else (p, none)
    ]
  ]

  -- The gates of `maybeRetryDirect` behind the two notes, which have been made on `p`.
  unfoldable pub retry_gates : ℕ → List Endpoint → ℕ → Bool → PeerPath → PeerPath × Option Endpoint
  unfolding start_direct_probe
  retry_gates now candidates epoch fast p =
      if is_held now p
      then (p, none)
      else if is_some p.probe && not fast
      then (p, none)
      else if not fast && within now p.relayed_at (direct_retry_interval p.direct_failures)
      then (p, none)
      else if fast
      then start_direct_probe now candidates coordinated_probe_interval coordinated_probe_window
          epoch p
      else start_direct_probe now candidates direct_probe_interval 0 epoch p

  -- `maybeRetryDirect`. `off` is `t.directProbeOff`.
  unfoldable pub maybe_retry_direct :
      Bool → ℕ → List Endpoint → ℕ → PeerPath → PeerPath × Option Endpoint
  unfolding retry_gates
  maybe_retry_direct off now candidates epoch p =
      if off || nat_eq (length candidates) 0 || not p.relayed
      then (p, none)
      else let q = note_candidates candidates p in
        retry_gates now candidates epoch (is_fast epoch q) (note_epoch epoch q)

  -- The rotation to the next candidate. A candidate that the device refuses leaves the stored
  -- probe as it was.
  unfoldable pub rotate : Probe → ℕ → PeerPath → PeerPath × Option Endpoint
  rotate probe now p = elim (get_elem? probe.candidates (next_index probe)) [
    | none ↦ (p, none)
    | some next ↦
        if accepts next
        then (
          record p { probe = some (record probe { index = next_index probe; started = now }) },
          some next,
        )
        else (p, none)
  ]

  -- The part of `checkDirectProbe` for a probe with a handshake, at the time `confirmed`.
  unfoldable pub check_confirmed : WgPeer → Probe → ℕ → ℕ → PeerPath → PeerPath × Option Endpoint
  unfolding promote_direct restore_relay_after_probe
  check_confirmed peer probe confirmed now p =
      if is_direct_endpoint peer probe
        && after p.last_inbound (some (confirmed + direct_probation_min))
      then (promote_direct now p, none)
      else if ltb (now - confirmed) direct_probation_timeout
      then (p, none)
      else restore_relay_after_probe probe now p

  -- The part of `checkDirectProbe` for a probe that has seen no handshake.
  unfoldable pub check_unconfirmed : WgPeer → Probe → ℕ → PeerPath → PeerPath × Option Endpoint
  unfolding rotate restore_relay_after_probe
  check_unconfirmed peer probe now p =
      if after peer.last_handshake (some probe.started) && is_direct_endpoint peer probe
      then (record p { probe = some (record probe { confirmed_at = some now }) }, none)
      else if ltb (now - probe.started) probe.interval
      then (p, none)
      else if can_rotate now probe
      then rotate probe now p
      else restore_relay_after_probe probe now p

  -- `checkDirectProbe`.
  unfoldable pub check_direct_probe : WgPeer → ℕ → PeerPath → PeerPath × Option Endpoint
  unfolding check_confirmed check_unconfirmed
  check_direct_probe peer now p = elim p.probe [
    | none ↦ (p, none)
    | some probe ↦ elim probe.confirmed_at [
      | none ↦ check_unconfirmed peer probe now p
      | some confirmed ↦ check_confirmed peer probe confirmed now p
    ]
  ]
