-- ===== src/Agent/Sync.antt =====
-- cmd/agent/sync.go: how the agent brings its WireGuard device to the peers that the control plane
-- wants. A key is a number, and the zero key is 0; an allowed network is a type of its own with
-- the text that `IPNet.String` gives it; an endpoint is its text. Go iterates a map in any order:
-- the order of the changes is not specified, and the theorems speak of the changes of each key.
pub mod Networks
pub mod Changes
pub mod Settled
pub mod Again
use go_wireguard_mesh.Common.{
  Bool, Bytes, Dict, List, Option, String, [], bytes_eq, bytes_key, false, if◌then◌else◌, insert,
  is_some, length, lookup, nat_eq, nat_key, none, not, or_else, some, sort, text_key, true, ℕ, ◌&&◌,
  ◌++◌, ◌==◌, ◌||◌, ◌∷◌,
}

-- `wgtypes.Peer`: a peer as the device shows it.
pub record DevicePeer (N : Type 0) : Type 0 where
  pub public_key : ℕ
  pub allowed_ips : List N
  pub preshared_key : ℕ
  pub keepalive : ℕ
  pub endpoint : Option String
  pub handshaken : Bool

-- `wgtypes.PeerConfig`: a peer that is wanted, or a change of one.
pub record PeerConfig (N : Type 0) : Type 0 where
  pub public_key : ℕ
  pub remove : Bool
  pub update_only : Bool
  pub replace_allowed_ips : Bool
  pub allowed_ips : List N
  pub preshared_key : Option ℕ
  pub keepalive : Option ℕ
  pub endpoint : Option String

-- The part of `wgBackend` that a sync calls; a call that fails returns `none`.
pub record Backend (N : Type 0) (S : Type 0) : Type 0 where
  pub device : S → Option (List (DevicePeer N))
  pub configure : List (PeerConfig N) → S → Option S

pub data Outcome (S : Type 0) : Type 0 where
  synced : S → Outcome S
  read_failed : Outcome S
  apply_failed : Outcome S

-- `strings.Join(ss, ",")`.
abbrev pub join_texts : List Bytes → Bytes
join_texts [] = []
join_texts (s ∷ []) = s
join_texts (s ∷ t ∷ ts) = s ++ 44 ∷ join_texts (t ∷ ts)

abbrev pub differs_from : Option ℕ → ℕ → Bool
differs_from none n = false
differs_from (some m) n = not (nat_eq n m)

-- `cur.Endpoint == nil || cur.Endpoint.String() != want.Endpoint.String()`.
abbrev pub other_endpoint : Option String → String → Bool
other_endpoint none e = true
other_endpoint (some d) e = not (d == e)

module _ {N : Type 0} where
  -- `current`, with the peers added to `m`.
  abbrev pub index_device : Dict ℕ (DevicePeer N) → List (DevicePeer N) → Dict ℕ (DevicePeer N)
  index_device m [] = m
  index_device m (p ∷ ps) = index_device (insert p.public_key p m) ps

  -- `desiredByKey`, with the peers added to `m`.
  abbrev pub index_desired : Dict ℕ (PeerConfig N) → List (PeerConfig N) → Dict ℕ (PeerConfig N)
  index_desired m [] = m
  index_desired m (p ∷ ps) = index_desired (insert p.public_key p m) ps

  abbrev pub removal : ℕ → PeerConfig N
  removal k = record {
    public_key = k;
    remove = true;
    update_only = false;
    replace_allowed_ips = false;
    allowed_ips = [];
    preshared_key = none;
    keepalive = none;
    endpoint = none;
  }

  -- The first loop of `syncPeers`.
  abbrev pub removals : Dict ℕ (PeerConfig N) → Dict ℕ (DevicePeer N) → List (PeerConfig N)
  removals desired [] = []
  removals desired ((k, cur) ∷ rest) =
      if is_some (lookup k desired)
      then removals desired rest
      else removal k ∷ removals desired rest

  abbrev pub endpoint_stale : DevicePeer N → PeerConfig N → Bool
  endpoint_stale cur want =
      not cur.handshaken
      && elim want.endpoint [ none ↦ false | some e ↦ other_endpoint cur.endpoint e ]

  abbrev pub update_of : DevicePeer N → PeerConfig N → PeerConfig N
  update_of cur want = record want {
    update_only = true;
    replace_allowed_ips = true;
    endpoint = if endpoint_stale cur want then want.endpoint else none;
  }

  -- The peers of both maps are those that `text` tells apart.
  module _ (text : N → Bytes) where
    abbrev pub texts : List N → List Bytes
    texts [] = []
    texts (n ∷ ns) = text n ∷ texts ns

    -- `sameAllowedIPs`.
    unfoldable pub same_allowed_ips : List N → List N → Bool
    same_allowed_ips ms ns =
        nat_eq (length ms) (length ns)
        && bytes_eq (join_texts (sort (texts ms))) (join_texts (sort (texts ns)))

    -- `peerNeedsUpdate`.
    unfoldable pub peer_needs_update : DevicePeer N → PeerConfig N → Bool
    peer_needs_update cur want =
        not (same_allowed_ips cur.allowed_ips want.allowed_ips)
        || not (nat_eq cur.preshared_key (or_else want.preshared_key 0))
        || differs_from want.keepalive cur.keepalive

    -- The body of the second loop of `syncPeers`.
    unfoldable pub change_for : Option (DevicePeer N) → PeerConfig N → Option (PeerConfig N)
    change_for none want = some want
    change_for (some cur) want =
        if peer_needs_update cur want || endpoint_stale cur want
        then some (update_of cur want)
        else none

    -- The second loop of `syncPeers`.
    abbrev pub updates : Dict ℕ (DevicePeer N) → Dict ℕ (PeerConfig N) → List (PeerConfig N)
    updates current [] = []
    updates current ((k, want) ∷ rest) = elim (change_for (lookup k current) want) [
      | none ↦ updates current rest
      | some c ↦ c ∷ updates current rest
    ]

    -- `changes`.
    unfoldable pub sync_changes : List (DevicePeer N) → List (PeerConfig N) → List (PeerConfig N)
    sync_changes ps desired =
        let current = index_device [] ps in
        let wanted = index_desired [] desired in removals wanted current ++ updates current wanted

    abbrev pub apply_changes : {S : Type 0} → Backend N S → List (PeerConfig N) → S → Outcome S
    apply_changes b [] s = synced s
    apply_changes b (c ∷ cs) s = elim (b.configure (c ∷ cs) s) [
      | none ↦ apply_failed
      | some t ↦ synced t
    ]

    -- `syncPeers`.
    unfoldable pub sync_peers : {S : Type 0} → Backend N S → List (PeerConfig N) → S → Outcome S
    unfolding sync_changes
    sync_peers b desired s = elim (b.device s) [
      | none ↦ read_failed
      | some ps ↦ apply_changes b (sync_changes ps desired) s
    ]
