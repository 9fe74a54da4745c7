-- ===== src/Tests/EntryRuns.antt =====
-- Runs of the candidates, entries and policies of cmd/server/main.go.
use go_wireguard_mesh.Common.{
  Bool, Option, String, [], any, bytes_key, false, if◌then◌else◌, inl, inr, nat_key, none, refl,
  some, text_key, true, ℕ, ◌+◌, ◌==◌, ◌∷◌, ◌≡◌, ◌≤◌,
}
use go_wireguard_mesh.Store.{Db, Kind, Peer, agent, static, tcp}
use go_wireguard_mesh.Store.Enroll.{is_visible, list_visible}
use go_wireguard_mesh.Store.Rows.{AllDiffer}
use go_wireguard_mesh.Control.Candidates.{
  AgentCandidate, Net, PeerRow, Source, cand, endpoint_candidates, same_v4_subnet, sort_candidates,
  valid_agent_candidates,
}
use go_wireguard_mesh.Control.Candidates.Live.{pair_candidates}
use go_wireguard_mesh.Control.Candidates.Ranking.{IsOffered}
use go_wireguard_mesh.Control.Candidates.Offers.{pair_candidates-IsOffered}
use go_wireguard_mesh.Control.Candidates.Pinned.{PinnedFirst, endpoint_candidates-PinnedFirst}
use go_wireguard_mesh.Control.Entries.{
  Entry, EntrySource, all4, all6, build_peer_entries, entry_for, exit_node_active_for,
  gateway_routes_for, host4, keepalive_or_default,
}
use go_wireguard_mesh.Control.Entries.Sums.{allowed_times}
use go_wireguard_mesh.Control.Entries.Once.{list_visible-entries_once}
use go_wireguard_mesh.Control.Entries.Policy.{admits, build_acl_policy, build_acl_policy-is_visible}

-- A host is its endpoint here, and the only address is that of one subnet.
abbrev net : Net
net = record {
  split_host = λ e. some e;
  to4 = λ h. if h == "10.0.0.1" then some 167_772_161 else none;
  join_host_port = λ h p. h;
  resolves_udp = λ e. true;
}

abbrev reports : String → String → AgentCandidate
reports e t = record { endpoint = e; type = t }

abbrev asking : PeerRow
asking = record {
  public_key = "a";
  observed_ip = "";
  listen_port = 0;
  public_endpoint = "192.0.2.1";
  candidates = reports "10.0.0.1" "host" ∷ [];
}

abbrev asked : PeerRow
asked = record {
  public_key = "b";
  observed_ip = "203.0.113.9";
  listen_port = 51_820;
  public_endpoint = "198.51.100.2";
  candidates =
      reports "10.0.0.1" "host" ∷ reports "10.9.9.9" "host" ∷ reports "vpn.example" "pinned" ∷ [];
}

abbrev live : Source
live = record { text = "198.51.100.2:7"; loopback = false }

abbrev after : String → String → Bool
after a b = a == "b"

candidates_run :
    pair_candidates net after (some (none, some live)) asking asked
    ≡ cand "vpn.example" "pinned" 140
      ∷ cand "10.0.0.1" "host" 110
      ∷ cand "198.51.100.2:7" "relay" 95
      ∷ cand "198.51.100.2" "stun" 90
      ∷ cand "203.0.113.9" "lan" 80
      ∷ []
unfolding pair_candidates endpoint_candidates same_v4_subnet sort_candidates
candidates_run = refl

valid_run :
    valid_agent_candidates net (reports "x" "host" ∷ reports "y" "bogus" ∷ [])
    ≡ reports "x" "host" ∷ []
unfolding valid_agent_candidates
valid_run = refl

pair_candidates-IsOffered_example :
    IsOffered (pair_candidates net after (some (none, some live)) asking asked)
pair_candidates-IsOffered_example =
    pair_candidates-IsOffered net after (some (none, some live)) asking asked refl

endpoint_candidates-PinnedFirst_example : PinnedFirst (endpoint_candidates net asking asked)
endpoint_candidates-PinnedFirst_example = endpoint_candidates-PinnedFirst net asking asked refl refl

abbrev peer : ℕ → String → Kind → Option ℕ → Option ℕ → Peer
peer i key kind gateway exit = record {
  id = i;
  public_key = key;
  assigned_ip = 100 + i;
  assigned_ip6 = none;
  kind = kind;
  gateway = gateway;
  advertises = false;
  exit_node = exit;
  hostname = none;
  listen_port = none;
  setup_key_id = 1;
  token_hash = "";
  issued_at = 0;
  observed_ip = none;
  public_endpoint = none;
  private_key_enc = none;
  gateway_endpoint = none;
  revoked_at = none;
}

-- The third peer is a phone behind the second, which is the exit node of the first.
abbrev db : Db
db = record {
  setup_keys = [];
  peers =
      peer 1 "a" agent none (some 2)
      ∷ peer 2 "b" agent none none
      ∷ peer 3 "c" static (some 2) none
      ∷ [];
  acl_rules =
      record {
        id = 1;
        src = some 1;
        dst = some 2;
        name = none;
        protocol = tcp;
        port_min = some 443;
        port_max = some 443;
      }
      ∷ [];
}

abbrev server : EntrySource
server = record {
  pair_key = λ a b. some "k";
  epoch = λ a b. 0;
  pair_candidates = λ p q. [];
  keepalive = 0;
}

abbrev entry_b : Entry
entry_b = record {
  public_key = "b";
  hostname = none;
  preshared_key = "k";
  punch_epoch = 0;
  keepalive = 25;
  exit_node = true;
  endpoint = none;
  candidates = [];
  allowed_ips = host4 102 ∷ host4 103 ∷ all4 ∷ all6 ∷ [];
}

entries_run :
    build_peer_entries server (peer 1 "a" agent none (some 2)) (list_visible true 1 db)
    ≡ some (entry_b ∷ [])
unfolding build_peer_entries list_visible is_visible keepalive_or_default entry_for
entries_run = refl

all-AllDiffer : AllDiffer db.peers
all-AllDiffer = (refl, (refl, (refl, tt)))

list_visible-entries_once_example : allowed_times (host4 103) (entry_b ∷ []) ≤ 1
list_visible-entries_once_example =
    list_visible-entries_once server true (peer 1 "a" agent none (some 2)) db (entry_b ∷ [])
      (host4 103) all-AllDiffer entries_run

policy_admits :
    any
      (admits (peer 1 "a" agent none (some 2)) (peer 2 "b" agent none none))
      (build_acl_policy false db).rules
    ≡ true
unfolding build_acl_policy
policy_admits = refl

build_acl_policy-is_visible_example : is_visible false 1 db (peer 2 "b" agent none none) ≡ true
build_acl_policy-is_visible_example =
    build_acl_policy-is_visible db (peer 1 "a" agent none (some 2)) (peer 2 "b" agent none none)
      all-AllDiffer (inl refl) (inr (inl refl)) refl refl policy_admits

routes_run : gateway_routes_for (peer 2 "b" agent none none) db.peers ≡ host4 103 ∷ []
unfolding gateway_routes_for
routes_run = refl

exit_run : exit_node_active_for (peer 2 "b" agent none none) db.peers ≡ true
unfolding exit_node_active_for
exit_run = refl
