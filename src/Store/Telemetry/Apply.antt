-- ===== src/Store/Telemetry/Apply.antt =====
-- internal/store/telemetry.go, connections.go: `ApplyReport` and what it calls.
-- `peerIDsByPublicKey`, with the rows added to `m`.
use go_wireguard_mesh.Common.{
  Bool, Dict, List, Option, String, [], bytes_key, if◌then◌else◌, insert, lookup, nat_eq, nat_key,
  none, or_else, some, text_key, ℕ, ◌++◌, ◌+◌, ◌==◌, ◌||◌, ◌∷◌,
}
use go_wireguard_mesh.Store.{Peer, Result, coalesce, constraint, err, nullable, ok}
use go_wireguard_mesh.Store.Telemetry.{
  Access, AccessRow, Counter, Event, Flow, Link, PathRow, PathState, Report, Seen, Tables,
  agent_version, and_then, filled, has_peer, nat_type, pair_key,
}

abbrev pub peer_ids_by_public_key : Dict String ℕ → List Peer → Dict String ℕ
peer_ids_by_public_key m [] = m
peer_ids_by_public_key m (p ∷ ps) = peer_ids_by_public_key (insert p.public_key p.id m) ps

-- `currentPathStates`, with the rows added to `m`.
abbrev pub current_path_states : ℕ → Dict ℕ String → Dict (ℕ × ℕ) PathRow → Dict ℕ String
current_path_states i m [] = m
current_path_states i m ((k, row) ∷ rest) =
    current_path_states i (if nat_eq k.0 i then insert k.1 row.state m else m) rest

abbrev pub is_relay_state : String → Bool
is_relay_state s = (s == "quic-relay") || (s == "ws-relay") || (s == "udp-relay")

-- `connectionEventKind`.
unfoldable pub connection_event_kind : String → String → Option String
connection_event_kind prev next =
    if prev == next
    then none
    else if next == "direct"
    then some "direct"
    else if is_relay_state next
    then if is_relay_state prev then none else some "relay"
    else none

abbrev pub touched : String → Report → Peer → Peer
touched observed r p = record p {
  observed_ip = coalesce (nullable observed) p.observed_ip;
  public_endpoint = coalesce (nullable r.public_endpoint) p.public_endpoint;
  advertises = r.advertise_exit_node;
}

abbrev pub touch : ℕ → String → Report → List Peer → List Peer
touch i observed r [] = []
touch i observed r (p ∷ ps) =
    (if nat_eq p.id i then touched observed r p else p) ∷ touch i observed r ps

abbrev pub unseen : Seen
unseen = record { last_seen_at = none; candidates = none; nat_type = none; agent_version = none }

abbrev pub seen_now : ℕ → Report → Seen → Seen
unfolding nat_type agent_version
seen_now now r s = record s {
  last_seen_at = some now;
  candidates = coalesce (filled r.candidates) s.candidates;
  nat_type = coalesce (nullable (nat_type r.nat_type)) s.nat_type;
  agent_version = coalesce (filled (agent_version r.version)) s.agent_version;
}

-- `UPDATE peers SET last_seen_at = …`.
unfoldable pub update_peer : ℕ → ℕ → String → Report → Tables → Tables
update_peer now i observed r t = record t {
  db = record t.db { peers = touch i observed r t.db.peers };
  seen =
      if has_peer i t.db.peers
      then insert i (seen_now now r (or_else (lookup i t.seen) unseen)) t.seen
      else t.seen;
}

-- A row of the reporter is written: its foreign key must be there.
abbrev pub owned : ℕ → Tables → Tables → Result Tables
owned i t u = if has_peer i t.db.peers then ok u else err constraint

abbrev pub accumulated : ℕ → Counter → Option Link → Link
accumulated now c none = record {
  rx_bytes = c.rx_bytes;
  tx_bytes = c.tx_bytes;
  last_handshake_at = nullable c.last_handshake_at;
  updated_at = now;
}
accumulated now c (some l) = record {
  rx_bytes = l.rx_bytes + c.rx_bytes;
  tx_bytes = l.tx_bytes + c.tx_bytes;
  last_handshake_at = coalesce (nullable c.last_handshake_at) l.last_handshake_at;
  updated_at = now;
}

-- `INSERT INTO link_stats … ON CONFLICT … DO UPDATE`.
abbrev pub upsert_link : ℕ → ℕ × ℕ → Counter → Dict (ℕ × ℕ) Link → Dict (ℕ × ℕ) Link
upsert_link now k c m = insert k (accumulated now c (lookup k m)) m

-- The loop over `report.Counters`.
unfoldable pub apply_counters : ℕ → ℕ → Dict String ℕ → List Counter → Tables → Result Tables
apply_counters now i ids [] t = ok t
apply_counters now i ids (c ∷ cs) t = elim (lookup c.key ids) [
  | none ↦ apply_counters now i ids cs t
  | some j ↦
      and_then (owned i t (record t { links = upsert_link now (i, j) c t.links }))
        λ u. apply_counters now i ids cs u
]

abbrev pub logged : ℕ → ℕ → ℕ → Option String → String → List Event → List Event
unfolding connection_event_kind
logged now i j prev next es = elim (connection_event_kind (or_else prev "") next) [
  | none ↦ es
  | some kind ↦
      es
      ++ record {
        reporter = i;
        remote = j;
        kind = kind;
        from_state = nullable (or_else prev "");
        to_state = next;
        at = now;
      }
        ∷ []
]

-- The event, and `INSERT INTO peer_paths … ON CONFLICT … DO UPDATE`.
abbrev pub write_path : ℕ → ℕ → ℕ → Dict ℕ String → PathState → Tables → Tables
write_path now i j prev p t = record t {
  events = logged now i j (lookup j prev) p.state t.events;
  paths =
      insert (i, j) record { state = p.state; endpoint = nullable p.endpoint; updated_at = now }
        t.paths;
}

-- The loop over `report.PathStates`.
unfoldable pub apply_paths :
    ℕ → ℕ → Dict String ℕ → Dict ℕ String → List PathState → Tables → Result Tables
apply_paths now i ids prev [] t = ok t
apply_paths now i ids prev (p ∷ ps) t = elim (lookup p.key ids) [
  | none ↦ apply_paths now i ids prev ps t
  | some j ↦ and_then (owned i t (write_path now i j prev p t)) λ u. apply_paths now i ids prev ps u
]

-- The loop over `report.Flows`.
unfoldable pub apply_flows : ℕ → ℕ → List Flow → Tables → Result Tables
apply_flows now i [] t = ok t
apply_flows now i (f ∷ fs) t =
    and_then
      (owned i t
        (record t { flows = t.flows ++ record { peer = i; flow = f; reported_at = now } ∷ [] }))
      λ u. apply_flows now i fs u

abbrev pub access_row : String → ℕ → Access → AccessRow
access_row now_text i e = record {
  peer = i;
  at = if e.at == "" then now_text else e.at;
  method = nullable e.method;
  host = nullable e.host;
  url = nullable e.url;
  status = e.status;
  duration_ms = e.duration_ms;
  req_bytes = e.req_bytes;
  resp_bytes = e.resp_bytes;
  client_ip = nullable e.client_ip;
  service = nullable e.service;
}

-- The loop over `report.ProxyEvents`.
unfoldable pub apply_proxy_events : String → ℕ → List Access → Tables → Result Tables
apply_proxy_events now_text i [] t = ok t
apply_proxy_events now_text i (e ∷ es) t =
    and_then (owned i t (record t { accesses = t.accesses ++ access_row now_text i e ∷ [] }))
      λ u. apply_proxy_events now_text i es u

-- The body of `ApplyReport`, at the time `now`, whose text is `now_text`.
unfoldable pub report_body : ℕ → String → ℕ → String → Report → Tables → Result Tables
unfolding update_peer apply_counters apply_paths apply_flows apply_proxy_events
report_body now now_text i observed r t =
    let ids = peer_ids_by_public_key [] t.db.peers in
    and_then (apply_counters now i ids r.counters (update_peer now i observed r t)) λ u.
      and_then (apply_paths now i ids (current_path_states i [] u.paths) r.path_states u) λ v.
        and_then (apply_flows now i r.flows v) λ w. apply_proxy_events now_text i r.proxy_events w

-- `Commit`, or the deferred `Rollback`.
abbrev pub settle_report : Tables → Result Tables → Tables × Result Unit
settle_report t (err e) = (t, err e)
settle_report t (ok u) = (u, ok tt)

-- `ApplyReport`.
unfoldable pub apply_report : ℕ → String → ℕ → String → Report → Tables → Tables × Result Unit
unfolding report_body
apply_report now now_text i observed r t = settle_report t (report_body now now_text i observed r t)
