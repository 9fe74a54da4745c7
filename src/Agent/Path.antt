-- ===== src/Agent/Path.antt =====
-- cmd/agent/telemetry.go, the relay fallback state of `telemetryReporter`, and the parts of
-- cmd/agent/relay.go that read it. The reporter has some fifteen maps from a peer's key; every
-- operation reads and writes them at one key. The model keeps their entries at one key together,
-- as the record `PeerPath`: `relayed` is `t.relayed[key]`, a missing entry is `none`, false, 0 or
-- the empty digest, as a missing entry of a Go map reads. A time is in nanoseconds, and `none` is
-- the zero time, which is before every other. A key, and a UDP endpoint, is a number: the agent
-- only compares them.
use go_wireguard_mesh.Common.{
  Bool, List, Option, [], false, if◌then◌else◌, leb, ltb, nat_eq, none, some, true, ℕ, ◌&&◌, ◌-◌,
  ◌∷◌,
}

abbrev pub Endpoint : Type 0
Endpoint = ℕ

pub data PathKind : Type 0 where
  quic_relay ws_relay udp_relay : PathKind

-- `directProbe`.
pub record Probe : Type 0 where
  pub started : ℕ
  pub confirmed_at : Option ℕ
  pub candidates : List Endpoint
  pub index : ℕ
  pub relay_endpoint : Endpoint
  pub interval : ℕ
  pub deadline : Option ℕ
  pub epoch : ℕ

-- A relay proxy: the loopback endpoint that it gives to WireGuard, and whether its pumps run.
pub record Proxy : Type 0 where
  pub endpoint : Endpoint
  pub alive : Bool

pub record PeerPath : Type 0 where
  pub first_seen : Option ℕ
  pub last_inbound : Option ℕ
  pub relayed : Bool
  pub relayed_at : Option ℕ
  pub relay_endpoint : Option Endpoint
  pub probe : Option Probe
  pub last_punch_epoch : ℕ
  pub direct_failures : ℕ
  pub last_candidates : List Endpoint
  pub ws_proxy : Option Proxy
  pub quic_proxy : Option Proxy
  pub path_kind : Option PathKind
  pub quic_unavailable : Bool
  pub direct_since : Option ℕ
  pub direct_flaps : ℕ
  pub hold_down_until : Option ℕ

-- What the agent reads of a peer from the WireGuard device.
pub record WgPeer : Type 0 where
  pub endpoint : Option Endpoint
  pub last_handshake : Option ℕ

-- `a.After(b)` and `a.Before(b)`.
abbrev pub after : Option ℕ → Option ℕ → Bool
after none b = false
after (some a) none = true
after (some a) (some b) = ltb b a

-- The test `now.Sub(t) < d`, for a wait d above 0.
abbrev pub within : ℕ → Option ℕ → ℕ → Bool
within now none d = false
within now (some t) d = ltb (now - t) d

-- A peer that the reporter has not met.
abbrev pub unseen : PeerPath
unseen = record {
  first_seen = none;
  last_inbound = none;
  relayed = false;
  relayed_at = none;
  relay_endpoint = none;
  probe = none;
  last_punch_epoch = 0;
  direct_failures = 0;
  last_candidates = [];
  ws_proxy = none;
  quic_proxy = none;
  path_kind = none;
  quic_unavailable = false;
  direct_since = none;
  direct_flaps = 0;
  hold_down_until = none;
}

abbrev pub later : Option ℕ → Option ℕ → Option ℕ
later last t = if after t last then t else last

abbrev pub since_or_zero : ℕ → Option ℕ → ℕ
since_or_zero now none = 0
since_or_zero now (some last) = now - last

-- `directSilentFor`.
unfoldable pub direct_silent_for : WgPeer → ℕ → PeerPath → ℕ
direct_silent_for peer now p =
    since_or_zero now (later (later p.first_seen p.last_inbound) peer.last_handshake)

-- The insertion of `sort.Strings`. The order of the texts does not matter, as long as equal sets of
-- candidates give equal digests: the model orders endpoints by their numbers.
unfoldable pub insert_sorted : Endpoint → List Endpoint → List Endpoint
insert_sorted a [] = a ∷ []
insert_sorted a (b ∷ bs) = if leb a b then a ∷ b ∷ bs else b ∷ insert_sorted a bs

-- `candidateDigest`: the sorted candidates. Joining their texts by commas loses nothing, as no
-- endpoint's text has a comma.
unfoldable pub candidate_digest : List Endpoint → List Endpoint
unfolding insert_sorted
candidate_digest [] = []
candidate_digest (a ∷ rest) = insert_sorted a (candidate_digest rest)

unfoldable pub digest_eq : List Endpoint → List Endpoint → Bool
digest_eq [] [] = true
digest_eq [] (b ∷ bs) = false
digest_eq (a ∷ rest) [] = false
digest_eq (a ∷ rest) (b ∷ bs) = nat_eq a b && digest_eq rest bs
