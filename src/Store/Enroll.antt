-- ===== src/Store/Enroll.antt =====
-- internal/store/store.go: `Enroll`, `reEnroll` and `listVisible`. The auth token is random; its
-- hash is a parameter.
pub mod Visible
pub mod Again
pub mod Settled
pub mod Repeat
pub mod Free
pub mod Outcome
use go_wireguard_mesh.Common.{
  Bool, List, Option, String, [], any, false, if◌then◌else◌, is_some, keep, ltb, nat_eq, none, not,
  some, true, ℕ, ◌&&◌, ◌||◌, ◌∷◌,
}
use go_wireguard_mesh.Store.{
  AclRule, Db, Peer, Reason, Result, agent, coalesce, err, insert_peer, next_id, nullable, ok,
  other_key, peer_by_id, peer_by_key, peer_ids, revoked_key, save_peer, transact, unauthorized,
  unknown_key,
}
use go_wireguard_mesh.Store.Address.{Prefix, allocate_addr}
use go_wireguard_mesh.Store.SetupKeys.{consume_key, key_by_text}

-- The fields of `Store` that are set up once.
pub record Settings : Type 0 where
  pub network : Prefix
  pub network6 : Option Prefix
  pub default_allow : Bool

-- The arguments of `Enroll`. `listen_port` of 0 stands for every port that is not positive.
pub record Request : Type 0 where
  pub setup_key : String
  pub public_key : String
  pub hostname : String
  pub listen_port : ℕ
  pub observed_ip : String
  pub public_endpoint : String

-- `EnrollResult`: the row of the peer as it is stored.
pub record Enrolled : Type 0 where
  pub peer : Peer
  pub others : List Peer
  pub created : Bool

abbrev pub addresses : List Peer → List ℕ
addresses [] = []
addresses (p ∷ ps) = p.assigned_ip ∷ addresses ps

-- `WHERE assigned_ip6 IS NOT NULL`.
abbrev pub addresses6 : List Peer → List ℕ
addresses6 [] = []
addresses6 (p ∷ ps) = elim p.assigned_ip6 [ none ↦ addresses6 ps | some a ↦ a ∷ addresses6 ps ]

-- `allocateIP6`, where the IPv6 overlay is enabled.
abbrev pub allocate_ip6 : Settings → Db → Result (Option ℕ)
allocate_ip6 st db = elim st.network6 [
  | none ↦ ok none
  | some p ↦ elim (allocate_addr p (addresses6 db.peers)) [ err e ↦ err e | ok a ↦ ok (some a) ]
]

abbrev pub is_id : Option ℕ → ℕ → Bool
is_id none i = false
is_id (some j) i = nat_eq j i

-- `r.src_peer_id IS NULL OR r.src_peer_id IN (self, other)`.
abbrev pub names : Option ℕ → ℕ → ℕ → Bool
names none self other = true
names (some i) self other = nat_eq i self || nat_eq i other

abbrev pub rule_connects : ℕ → ℕ → AclRule → Bool
rule_connects self other r = names r.src self other && names r.dst self other

-- `(SELECT COALESCE(exit_node_peer_id, 0) FROM peers WHERE id = self)`; ids start at 1.
abbrev pub exits_through : ℕ → ℕ → Db → Bool
exits_through self other db = elim (peer_by_id self db) [
  | none ↦ false
  | some p ↦ is_id p.exit_node other
]

-- The WHERE clause of `listVisible`.
unfoldable pub is_visible : Bool → ℕ → Db → Peer → Bool
is_visible default_allow self db p =
    not (is_some p.revoked_at)
    && not (nat_eq p.id self)
    && (default_allow
        || is_id p.gateway self
        || is_id p.exit_node self
        || exits_through self p.id db
        || any (rule_connects self p.id) db.acl_rules)

-- `listVisible`.
unfoldable pub list_visible : Bool → ℕ → Db → List Peer
list_visible default_allow self db = keep (is_visible default_allow self db) db.peers

abbrev pub port_of : ℕ → Option ℕ
port_of n = if ltb 0 n then some n else none

abbrev pub new_peer : Request → String → ℕ → ℕ → ℕ → Option ℕ → ℕ → Peer
new_peer r token now id ip ip6 key_id = record {
  id = id;
  public_key = r.public_key;
  assigned_ip = ip;
  assigned_ip6 = ip6;
  kind = agent;
  gateway = none;
  advertises = false;
  exit_node = none;
  hostname = nullable r.hostname;
  listen_port = port_of r.listen_port;
  setup_key_id = key_id;
  token_hash = token;
  issued_at = now;
  observed_ip = nullable r.observed_ip;
  public_endpoint = nullable r.public_endpoint;
  private_key_enc = none;
  gateway_endpoint = none;
  revoked_at = none;
}

abbrev pub enrolled : Settings → Peer → Bool → Db → Enrolled
enrolled st p created db = record {
  peer = p;
  others = list_visible st.default_allow p.id db;
  created = created;
}

-- The answer, once the row is written.
abbrev pub finish : Settings → Peer → Bool → Result Db → Result (Db × Enrolled)
finish st p created (err e) = err e
finish st p created (ok d) = ok (d, enrolled st p created d)

-- The part of `Enroll` behind the consumption of the key.
unfoldable pub admit : Settings → Request → String → ℕ → ℕ → Db → Result (Db × Enrolled)
unfolding insert_peer
admit st r token now key_id db = elim (allocate_addr st.network (addresses db.peers)) [
  | err e ↦ err e
  | ok ip ↦ elim (allocate_ip6 st db) [
    | err e ↦ err e
    | ok ip6 ↦
        let p = new_peer r token now (next_id (peer_ids db.peers)) ip ip6 key_id in
        finish st p true (insert_peer p db)
  ]
]

abbrev pub refreshed : Request → String → ℕ → Option ℕ → Peer → Peer
refreshed r token now ip6 p = record p {
  token_hash = token;
  issued_at = now;
  assigned_ip6 = coalesce ip6 p.assigned_ip6;
  hostname = coalesce (nullable r.hostname) p.hostname;
  observed_ip = coalesce (nullable r.observed_ip) p.observed_ip;
  public_endpoint = coalesce (nullable r.public_endpoint) p.public_endpoint;
  listen_port = coalesce (port_of r.listen_port) p.listen_port;
}

-- The IPv6 address for a peer that has none yet.
abbrev pub backfill : Settings → Peer → Db → Result (Option ℕ)
backfill st p db = if is_some p.assigned_ip6 then ok none else allocate_ip6 st db

-- The checks of `reEnroll` on the presented key.
abbrev pub check_key : String → Peer → Db → Option Reason
check_key key p db = elim (key_by_text key db) [
  | none ↦ some unknown_key
  | some k ↦
      if is_some k.revoked_at
      then some revoked_key
      else if nat_eq k.id p.setup_key_id
      then none
      else some other_key
]

-- `reEnroll`.
unfoldable pub re_enroll : Settings → Request → String → ℕ → Peer → Db → Result (Db × Enrolled)
unfolding save_peer
re_enroll st r token now p db = elim (check_key r.setup_key p db) [
  | some reason ↦ err (unauthorized reason)
  | none ↦ elim (backfill st p db) [
    | err e ↦ err e
    | ok ip6 ↦ let q = refreshed r token now ip6 p in finish st q false (save_peer q db)
  ]
]

-- The transaction of `Enroll`.
unfoldable pub enroll_body : Settings → Request → String → ℕ → Db → Result (Db × Enrolled)
unfolding consume_key admit re_enroll
enroll_body st r token now db = elim (peer_by_key r.public_key db) [
  | some p ↦ re_enroll st r token now p db
  | none ↦ elim (consume_key r.setup_key now db) [
    | err e ↦ err e
    | ok c ↦ admit st r token now c.1 c.0
  ]
]

-- `Enroll`.
unfoldable pub enroll : Settings → Request → String → ℕ → Db → Db × Result Enrolled
unfolding transact enroll_body
enroll st r token now db = transact (enroll_body st r token now) db
