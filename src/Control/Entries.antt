-- ===== src/Control/Entries.antt =====
-- cmd/server/main.go: the WireGuard peers that an agent is configured with (`buildPeerEntries` and
-- what it calls), and the ACL policy that it is given. `others` are the rows that `listVisible`
-- shows to `self`. The group `mobilesByGateway[g]` holds the routed peers of the gateway `g` in
-- their order.
pub mod Sums
pub mod Exclusive
pub mod Once
pub mod Policy
use go_wireguard_mesh.Common.{
  Bool, List, Option, String, [], any, false, if◌then◌else◌, is_some, keep, ltb, none, not, some,
  true, ℕ, ◌&&◌, ◌++◌, ◌∷◌,
}
use go_wireguard_mesh.Store.{Peer, agent, static}
use go_wireguard_mesh.Store.Enroll.{is_id}
use go_wireguard_mesh.Control.Candidates.{Candidate}

-- An allowed network: one address of a family, or all of them.
pub data Allowed : Type 0 where
  host4 : ℕ → Allowed
  host6 : ℕ → Allowed
  all4 : Allowed
  all6 : Allowed

-- `PeerConfigResponse`.
pub record Entry : Type 0 where
  pub public_key : String
  pub hostname : Option String
  pub preshared_key : String
  pub punch_epoch : ℕ
  pub keepalive : ℕ
  pub exit_node : Bool
  pub endpoint : Option String
  pub candidates : List Candidate
  pub allowed_ips : List Allowed

-- The parts of the server that the entries are made of: `DerivePairKey` of two public keys,
-- `punchEpoch`, `pairCandidates`, and the configured keepalive, of which every value that is not
-- positive is 0.
pub record EntrySource : Type 0 where
  pub pair_key : String → String → Option String
  pub epoch : String → String → ℕ
  pub pair_candidates : Peer → Peer → List Candidate
  pub keepalive : ℕ

abbrev pub default_keepalive_seconds : ℕ
default_keepalive_seconds = 25

-- `keepaliveOrDefault`.
unfoldable pub keepalive_or_default : EntrySource → ℕ
keepalive_or_default s = if ltb 0 s.keepalive then s.keepalive else default_keepalive_seconds

abbrev pub is_static : Peer → Bool
is_static p = elim p.kind [ agent ↦ false | static ↦ true ]

abbrev pub optional6 : Option ℕ → List Allowed
optional6 none = []
optional6 (some a) = host6 a ∷ []

-- `allowedIPsForPeer`.
abbrev pub allowed_ips_for_peer : Peer → List Allowed
allowed_ips_for_peer p = host4 p.assigned_ip ∷ optional6 p.assigned_ip6

-- The peer is routed by this gateway.
abbrev pub routed_by : ℕ → Peer → Bool
routed_by g p = is_static p && is_id p.gateway g

-- `o.PeerType == "static" && o.GatewayPeerID != 0 && o.GatewayPeerID != self.ID`.
abbrev pub routed_away : Peer → Peer → Bool
routed_away self o = is_static o && is_some o.gateway && not (is_id o.gateway self.id)

abbrev pub all_allowed : List Peer → List Allowed
all_allowed [] = []
all_allowed (p ∷ ps) = allowed_ips_for_peer p ++ all_allowed ps

abbrev pub exit_routes : Peer → Peer → List Allowed
exit_routes self o = if is_id self.exit_node o.id then all4 ∷ all6 ∷ [] else []

abbrev pub first_endpoint : List Candidate → Option String
first_endpoint [] = none
first_endpoint (c ∷ cs) = some c.endpoint

-- The entry of the peer `o`, with the key of the pair.
unfoldable pub entry_for : EntrySource → Peer → List Peer → Peer → String → Entry
unfolding keepalive_or_default
entry_for s self others o key =
    let cs = if is_static o then [] else s.pair_candidates self o in
    record {
      public_key = o.public_key;
      hostname = o.hostname;
      preshared_key = key;
      punch_epoch = s.epoch self.public_key o.public_key;
      keepalive = keepalive_or_default s;
      exit_node = not (is_static o) && is_id self.exit_node o.id;
      endpoint = first_endpoint cs;
      candidates = cs;
      allowed_ips =
          if is_static o
          then allowed_ips_for_peer o
          else allowed_ips_for_peer o
            ++ (all_allowed (keep (routed_by o.id) others) ++ exit_routes self o);
    }

abbrev pub cons_some {ℓ} : {A : Type ℓ} → A → Option (List A) → Option (List A)
cons_some a none = none
cons_some a (some xs) = some (a ∷ xs)

-- The loop of `buildPeerEntries`; `none` when a key cannot be derived.
unfoldable pub entries_from : EntrySource → Peer → List Peer → List Peer → Option (List Entry)
unfolding entry_for
entries_from s self others [] = some []
entries_from s self others (o ∷ os) =
    let rest = entries_from s self others os in
    if routed_away self o then rest else elim (s.pair_key self.public_key o.public_key) [
      | none ↦ none
      | some key ↦ cons_some (entry_for s self others o key) rest
    ]

-- `buildPeerEntries`.
unfoldable pub build_peer_entries : EntrySource → Peer → List Peer → Option (List Entry)
unfolding entries_from
build_peer_entries s self others = entries_from s self others others

-- `gatewayRoutesFor`.
unfoldable pub gateway_routes_for : Peer → List Peer → List Allowed
gateway_routes_for self others = all_allowed (keep (routed_by self.id) others)

-- `exitNodeActiveFor`.
unfoldable pub exit_node_active_for : Peer → List Peer → Bool
exit_node_active_for self others = any (λ o. is_id o.exit_node self.id) others
