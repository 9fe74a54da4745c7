-- ===== src/Tests/TelemetryRuns.antt =====
-- Runs of internal/store/telemetry.go: two peers that report about each other.
use go_wireguard_mesh.Common.{
  List, String, [], arith, bytes_key, false, insert, lookup, nat_key, none, refl, some, text_key, ℕ,
  ◌+◌, ◌∷◌, ◌≡◌, ◌≢◌, ==_iff, true,
}
use go_wireguard_mesh.Store.{Peer, agent, constraint, err, ok}
use go_wireguard_mesh.Store.SetupKeys.{create_named_setup_key}
use go_wireguard_mesh.Store.Address.{allocate_addr}
use go_wireguard_mesh.Store.Enroll.{Enrolled, enroll, is_visible, list_visible}
use go_wireguard_mesh.Store.Telemetry.{Counter, Report, Tables, pair_key}
use go_wireguard_mesh.Store.Telemetry.Apply.{apply_report, connection_event_kind}
use go_wireguard_mesh.Store.Telemetry.Repeat.{apply_report_again}
use go_wireguard_mesh.Store.Telemetry.Ledger.{Sent, rx_sent}
use go_wireguard_mesh.Store.Telemetry.Tokens.{admitted, authenticate_peer, refused, unknown_token}
use go_wireguard_mesh.Store.Telemetry.Tokens.Issued.{
  authenticate_peer-enroll, authenticate_peer-re_enroll, held_elsewhere, is_held,
}
use go_wireguard_mesh.Tests.StoreRuns.{
  first_answer, first_enrolled, first_peer, first_request, second_request, settings, with_key,
  with_peer,
}

abbrev row : ℕ → String → String → Peer
row i key token = record {
  id = i;
  public_key = key;
  assigned_ip = 100 + i;
  assigned_ip6 = none;
  kind = agent;
  gateway = none;
  advertises = false;
  exit_node = none;
  hostname = none;
  listen_port = none;
  setup_key_id = 1;
  token_hash = token;
  issued_at = 10;
  observed_ip = none;
  public_endpoint = none;
  private_key_enc = none;
  gateway_endpoint = none;
  revoked_at = none;
}

abbrev tables : Tables
tables = record {
  db = record { setup_keys = []; peers = row 1 "pa" "ta" ∷ row 2 "pb" "tb" ∷ []; acl_rules = [] };
  seen = [];
  links = [];
  paths = [];
  events = [];
  flows = [];
  accesses = [];
}

abbrev counter : String → ℕ → ℕ → Counter
counter key rx tx = record { key = key; rx_bytes = rx; tx_bytes = tx; last_handshake_at = "" }

abbrev report : ℕ → String → Report
report rx state = record {
  public_endpoint = "192.0.2.1:1";
  candidates = [];
  nat_type = "easy";
  counters = counter "pb" rx 1 ∷ counter "gone" 9 9 ∷ [];
  flows = [];
  path_states = record { key = "pb"; state = state; endpoint = "" } ∷ [];
  proxy_events = [];
  advertise_exit_node = false;
  version = [];
}

abbrev sent : ℕ → ℕ → ℕ → Sent
sent now i rx = record {
  now = now;
  now_text = "";
  reporter = i;
  observed = "";
  report = report rx "direct";
}

-- The third report comes from a peer without a row, and fails.
abbrev three : List Sent
three = sent 20 1 5 ∷ sent 30 1 7 ∷ sent 40 3 8 ∷ []

sum_sent : rx_sent tables.db.peers 1 2 three ≡ 12
unfolding lookup insert
sum_sent = refl

refused_third : (apply_report 40 "" 3 "" (report 8 "direct") tables).1 ≡ err constraint
unfolding apply_report lookup insert
refused_third = refl

abbrev once : Tables
once = (apply_report 20 "" 1 "" (report 5 "direct") tables).0

abbrev twice : Tables
twice = (apply_report 30 "" 1 "" (report 7 "direct") once).0

one_event :
    once.events
    ≡ record {
      reporter = 1;
      remote = 2;
      kind = "direct";
      from_state = none;
      to_state = "direct";
      at = 20;
    }
      ∷ []
unfolding apply_report lookup insert connection_event_kind
one_event = refl

first_ok : apply_report 20 "" 1 "" (report 5 "direct") tables ≡ (once, ok tt)
unfolding apply_report lookup insert
first_ok = refl

second_ok : apply_report 30 "" 1 "" (report 7 "direct") once ≡ (twice, ok tt)
unfolding apply_report lookup insert
second_ok = refl

apply_report_again_example : twice.events ≡ once.events
apply_report_again_example =
    apply_report_again 20 30 1 "" "" "" "" (report 5 "direct") (report 7 "direct") tables once twice
      refl tt (λ j e. refl, tt) first_ok second_ok

fresh : is_held "t1" with_key.peers ≡ false
unfolding create_named_setup_key
fresh = refl

authenticate_peer-enroll_example :
    authenticate_peer 100 "t1" 60 (enroll settings first_request "t1" 10 with_key).0
    ≡ admitted 1 101
authenticate_peer-enroll_example =
    authenticate_peer-enroll settings first_request "t1" 10 with_key first_answer 100 60
      first_enrolled fresh refl

abbrev second_answer : Enrolled
second_answer = record {
  peer = record first_peer { token_hash = "t2"; issued_at = 99; hostname = some "moved" };
  others = [];
  created = false;
}

second_enrolled : (enroll settings second_request "t2" 99 with_peer).1 ≡ ok second_answer
unfolding enroll create_named_setup_key list_visible is_visible allocate_addr
second_enrolled = refl

not_elsewhere : held_elsewhere "t1" 1 with_peer.peers ≡ false
unfolding enroll create_named_setup_key allocate_addr
not_elsewhere = refl

other_token : ◌≢◌ {A = String} "t2" "t1"
other_token h = let e : false ≡ true = (==_iff "t2" "t1").1 h in ground arith

authenticate_peer-re_enroll_example :
    authenticate_peer 100 "t1" 100 (enroll settings second_request "t2" 99 with_peer).0
    ≡ refused unknown_token
authenticate_peer-re_enroll_example =
    authenticate_peer-re_enroll settings second_request "t2" "t1" 99 with_peer second_answer 100 100
      second_enrolled refl other_token not_elsewhere
