-- ===== src/Store/Peers.antt =====
-- internal/store/admin.go, static.go and exit.go: what the admin interface does to peers. Inputs
-- are trimmed and parsed already: an address is its number.
pub mod Exits
use go_wireguard_mesh.Store.SetupKeys.{
  consume_key, create_named_setup_key, diagnose_key, insert_key, new_key, revoke_key,
  revoke_setup_key,
}
use Prim.Native.String.{◌++◌ as append}
use go_wireguard_mesh.Common.{
  Bool, List, Option, String, [], any, false, if◌then◌else◌, is_some, keep, nat_eq, nat_key, none,
  not, some, text_key, true, ℕ, ◌&&◌, ◌++◌, ◌==◌, ◌||◌, ◌∷◌,
}
use go_wireguard_mesh.Store.{
  Db, Kind, Peer, Result, SetupKey, agent, constraint, err, exhausted_key, expired_key, insert_peer,
  invalid, key_ids, next_id, no_stored_config, not_found, nullable, ok, other_key, peer_by_id,
  peer_by_key, peer_exists, peer_ids, replace_peer, revoked_key, save_peer, static, unknown_key,
}
use go_wireguard_mesh.Store.Address.{allocate_addr}
use go_wireguard_mesh.Store.Enroll.{Settings, addresses, allocate_ip6, check_key, is_id}

abbrev pub is_active : Peer → Bool
is_active p = not (is_some p.revoked_at)

-- `RevokePeer`. The row and its address are kept.
unfoldable pub revoke_peer : ℕ → ℕ → Db → Result (Db × Unit)
unfolding save_peer
revoke_peer i now db = elim (peer_by_id i db) [
  | none ↦ err not_found
  | some p ↦
      if is_active p
      then ok (record db { peers = replace_peer (record p { revoked_at = some now }) db.peers }, tt)
      else err not_found
]

abbrev pub clear_id : ℕ → Option ℕ → Option ℕ
clear_id i o = if is_id o i then none else o

-- The row of another peer after `ON DELETE SET NULL` for the peer `i`.
abbrev pub detached : ℕ → Peer → Peer
detached i p = record p { gateway = clear_id i p.gateway; exit_node = clear_id i p.exit_node }

abbrev pub delete_peer : ℕ → List Peer → List Peer
delete_peer i [] = []
delete_peer i (p ∷ ps) = if nat_eq p.id i then delete_peer i ps else detached i p ∷ delete_peer i ps

-- `RemovePeer`: only a revoked peer, with the cascades of the foreign keys.
unfoldable pub remove_peer : ℕ → Db → Result (Db × Unit)
remove_peer i db =
    if any (λ p. nat_eq p.id i && is_some p.revoked_at) db.peers
    then ok (
      record db {
        peers = delete_peer i db.peers;
        acl_rules = keep (λ r. not (is_id r.src i) && not (is_id r.dst i)) db.acl_rules;
      },
      tt,
    )
    else err not_found

-- `SetAdvertiseExitNode`.
unfoldable pub set_advertise_exit_node : ℕ → Bool → Db → Db
set_advertise_exit_node i offers db = elim (peer_by_id i db) [
  | none ↦ db
  | some p ↦ record db { peers = replace_peer (record p { advertises = offers }) db.peers }
]

abbrev pub is_agent : Kind → Bool
is_agent agent = true
is_agent static = false

-- The checks of `SetExitNode` on the exit node.
abbrev pub exit_ok : Peer → Bool
exit_ok e = is_active e && is_agent e.kind && e.advertises && not (is_some e.exit_node)

-- Whether an active peer exits through `i`: the count of clients is not 0.
abbrev pub has_clients : ℕ → List Peer → Bool
has_clients i ps = any (λ p. is_id p.exit_node i && is_active p) ps

abbrev pub assign : Peer → Option ℕ → Db → Db
assign p e db = record db { peers = replace_peer (record p { exit_node = e }) db.peers }

-- `SetExitNode`; the exit `none` clears the assignment.
unfoldable pub set_exit_node : ℕ → Option ℕ → Db → Result (Db × Unit)
set_exit_node i exit db = if is_id exit i then err invalid else elim (peer_by_id i db) [
  | none ↦ err invalid
  | some p ↦ if not (is_active p) || not (is_agent p.kind) then err invalid else elim exit [
    | none ↦ ok (assign p none db, tt)
    | some j ↦ elim (peer_by_id j db) [
      | none ↦ err invalid
      | some e ↦
          if exit_ok e && not (has_clients i db.peers)
          then ok (assign p (some j) db, tt)
          else err invalid
    ]
  ]
]

-- `StaticPeer`.
pub record StaticPeer : Type 0 where
  pub public_key : String
  pub hostname : String
  pub gateway_peer_id : ℕ
  pub private_key_enc : String
  pub gateway_endpoint : String

abbrev pub static_name : String → String
static_name hostname = if hostname == "" then "static peer" else append "static peer: " hostname

-- The setup key that stands for a static peer, used up from the start.
abbrev pub static_key : ℕ → String → String → SetupKey
static_key id key hostname = record {
  id = id;
  key = key;
  name = some (static_name hostname);
  max_uses = some 1;
  uses_consumed = 1;
  expires_at = none;
  revoked_at = none;
}

abbrev pub new_static : StaticPeer → String → ℕ → ℕ → ℕ → Option ℕ → ℕ → Peer
new_static s token now id ip ip6 key_id = record {
  id = id;
  public_key = s.public_key;
  assigned_ip = ip;
  assigned_ip6 = ip6;
  kind = static;
  gateway = some s.gateway_peer_id;
  advertises = false;
  exit_node = none;
  hostname = nullable s.hostname;
  listen_port = none;
  setup_key_id = key_id;
  token_hash = token;
  issued_at = now;
  observed_ip = none;
  public_endpoint = none;
  private_key_enc = nullable s.private_key_enc;
  gateway_endpoint = nullable s.gateway_endpoint;
  revoked_at = none;
}

-- The insertion of the row.
abbrev pub answer : Peer → Result Db → Result (Db × Peer)
answer p (err e) = err e
answer p (ok d) = ok (d, p)

-- The part of `CreateStaticPeer` behind the insertion of the key with the id `key_id`.
unfoldable pub place_static : Settings → StaticPeer → String → ℕ → ℕ → Db → Result (Db × Peer)
unfolding insert_peer
place_static st s token now key_id db = elim (allocate_addr st.network (addresses db.peers)) [
  | err e ↦ err e
  | ok ip ↦ elim (allocate_ip6 st db) [
    | err e ↦ err e
    | ok ip6 ↦
        let p = new_static s token now (next_id (peer_ids db.peers)) ip ip6 key_id in
        answer p (insert_peer p db)
  ]
]

-- The part of `CreateStaticPeer` behind the checks.
unfoldable pub add_static : Settings → StaticPeer → String → String → ℕ → Db → Result (Db × Peer)
unfolding insert_key place_static
add_static st s key token now db =
    let key_id = next_id (key_ids db.setup_keys) in
    elim (insert_key (static_key key_id key s.hostname) db) [
      | err e ↦ err e
      | ok d ↦ place_static st s token now key_id d
    ]

-- `CreateStaticPeer`, with the marker key and the token's hash as parameters.
unfoldable pub create_static_peer :
    Settings → StaticPeer → String → String → ℕ → Db → Result (Db × Peer)
unfolding add_static
create_static_peer st s key token now db =
    if (s.public_key == "") || nat_eq s.gateway_peer_id 0
    then err invalid
    else elim (peer_by_id s.gateway_peer_id db) [
      | none ↦ err invalid
      | some g ↦
          if not (is_active g) || not (is_agent g.kind)
          then err invalid
          else if is_some (peer_by_key s.public_key db)
          then err peer_exists
          else add_static st s key token now db
    ]

-- `SealedPrivateKey`.
unfoldable pub sealed_private_key : ℕ → Db → Result String
sealed_private_key i db = elim (peer_by_id i db) [
  | none ↦ err no_stored_config
  | some p ↦ if is_agent p.kind then err no_stored_config else elim p.private_key_enc [
    | none ↦ err no_stored_config
    | some sealed ↦ if sealed == "" then err no_stored_config else ok sealed
  ]
]
