-- ===== src/Tests/StoreRuns.antt =====
-- Runs of internal/store/store.go, admin.go, static.go and exit.go.
use go_wireguard_mesh.Store.Enroll.Free.{IsRefusal}
use go_wireguard_mesh.Store.Enroll.Outcome.{enroll_outcome}
use go_wireguard_mesh.Store.Peers.Exits.{IsFlat}
use go_wireguard_mesh.Store.Valid.Chains.{Reach-IsFlat}
use go_wireguard_mesh.Common.{
  [], false, none, refl, some, true, ◌↔◌, ◌∷◌, ◌≡◌, arith, if◌then◌else◌, is_some,
}
use go_wireguard_mesh.Store.{
  Db, Peer, err, exhausted_key, no_free_address, ok, settle, unauthorized, invalid, transact,
  SetupKey, expired_key, revoked_key,
}
use go_wireguard_mesh.Store.Address.{allocate_addr}
use go_wireguard_mesh.Store.Address.Lowest.{
  IsFull, IsLowest, allocate_addr-IsFull, allocate_addr_iff,
}
use go_wireguard_mesh.Store.SetupKeys.{
  create_named_setup_key, TextsDiffer, consume, consume_key, consume_key_lem, consumed,
  is_exhausted, is_expired, key_by_text, new_key,
}
use go_wireguard_mesh.Store.Enroll.{
  Enrolled, Request, Settings, enroll, is_visible, list_visible, new_peer,
}
use go_wireguard_mesh.Store.Enroll.Visible.{is_visible_comm}
use go_wireguard_mesh.Store.Enroll.Repeat.{IsRepeated, enroll_again}
use go_wireguard_mesh.Store.Valid.Life.{
  Reach, Reach-empty_db-IsValid, creates_key, empty_db, enrolls, here, next, advertises,
  assigns_exit,
}
use go_wireguard_mesh.Store.Peers.{set_advertise_exit_node, set_exit_node}

abbrev pub settings : Settings
settings = record {
  network = record { addr = 100; size = 4 };
  network6 = some (record { addr = 1_000; size = 4 });
  default_allow = false;
}

allocate_addr_iff_example :
    (allocate_addr settings.network (101 ∷ 103 ∷ []) ≡ ok 102)
    ↔ IsLowest settings.network (101 ∷ 103 ∷ []) 102
allocate_addr_iff_example = allocate_addr_iff settings.network (101 ∷ 103 ∷ []) 102

allocate_addr-IsFull_run :
    (allocate_addr settings.network (103 ∷ 101 ∷ 102 ∷ []) ≡ err no_free_address)
    ↔ IsFull settings.network (103 ∷ 101 ∷ 102 ∷ [])
allocate_addr-IsFull_run = allocate_addr-IsFull settings.network (103 ∷ 101 ∷ 102 ∷ [])

lowest_taken : allocate_addr settings.network (101 ∷ 103 ∷ []) ≡ ok 102
unfolding allocate_addr
lowest_taken = refl

-- A setup key with one use, until the time 50.
abbrev pub with_key : Db
with_key = (settle empty_db (create_named_setup_key "k" "lab" 1 (some 50) empty_db)).0

abbrev pub first_request : Request
first_request = record {
  setup_key = "k";
  public_key = "pa";
  hostname = "a";
  listen_port = 51_820;
  observed_ip = "";
  public_endpoint = "";
}

abbrev pub second_request : Request
second_request = record first_request { hostname = "moved"; listen_port = 0 }

abbrev other_request : Request
other_request = record first_request { public_key = "pb" }

abbrev pub with_peer : Db
with_peer = (enroll settings first_request "t1" 10 with_key).0

abbrev pub first_peer : Peer
first_peer = new_peer first_request "t1" 10 1 101 (some 1_001) 1

abbrev pub first_answer : Enrolled
first_answer = record { peer = first_peer; others = []; created = true }

pub first_enrolled : (enroll settings first_request "t1" 10 with_key).1 ≡ ok first_answer
unfolding enroll create_named_setup_key list_visible is_visible allocate_addr
first_enrolled = refl

key_reached : Reach settings empty_db with_key
key_reached = next here (creates_key "k" "lab" 1 (some 50) empty_db)

peer_reached : Reach settings empty_db with_peer
peer_reached = next key_reached (enrolls first_request "t1" 10 with_key)

enroll_again_example :
    IsRepeated with_peer first_answer (enroll settings second_request "t2" 99 with_peer)
enroll_again_example =
    enroll_again settings first_request second_request "t1" "t2" 10 99 with_key first_answer
      (Reach-empty_db-IsValid settings key_reached) first_enrolled refl refl refl

exhausted : (enroll settings other_request "t3" 20 with_peer).1 ≡ err (unauthorized exhausted_key)
unfolding enroll create_named_setup_key list_visible is_visible allocate_addr
exhausted = refl

abbrev used_key : SetupKey
used_key = consumed (new_key 1 "k" "lab" 1 (some 50))

used_found : key_by_text "k" with_peer ≡ some used_key
unfolding enroll create_named_setup_key allocate_addr
used_found = refl

one_text : TextsDiffer with_peer.setup_keys
unfolding enroll create_named_setup_key allocate_addr
one_text = (refl, tt)

consume_key_lem_run : consume_key "k" 20 with_peer ≡ (
    if is_some used_key.revoked_at
    then err (unauthorized revoked_key)
    else if is_expired 20 used_key
    then err (unauthorized expired_key)
    else if is_exhausted used_key
    then err (unauthorized exhausted_key)
    else ok (record with_peer { setup_keys = consume "k" 20 with_peer.setup_keys }, used_key.id))
consume_key_lem_run = consume_key_lem "k" 20 with_peer used_key one_text used_found

abbrev second_peer : Peer
second_peer = record first_peer {
  id = 2;
  public_key = "pb";
  assigned_ip = 102;
  assigned_ip6 = none;
  exit_node = some 1;
}

abbrev two_peers : Db
two_peers = record { setup_keys = []; peers = first_peer ∷ second_peer ∷ []; acl_rules = [] }

-- The exit node of the second peer is the first one, so that they see each other.
is_visible_comm_run :
    is_visible false 1 two_peers second_peer ≡ is_visible false 2 two_peers first_peer
is_visible_comm_run =
    is_visible_comm false two_peers first_peer second_peer refl refl refl refl refl refl

enroll_outcome_example :
    ((enroll settings other_request "t3" 20 with_peer).0 ≡ with_peer)
    × IsRefusal (unauthorized exhausted_key)
enroll_outcome_example =
    enroll_outcome settings other_request "t3" 20 with_peer (unauthorized exhausted_key)
      (Reach-empty_db-IsValid settings peer_reached) (omega arith) (omega arith) exhausted

-- A key for any number of peers, two peers under it, and the first as the exit node of the second.
abbrev open_key : Db
open_key = (settle empty_db (create_named_setup_key "k" "" 0 none empty_db)).0

abbrev one_in : Db
one_in = (enroll settings first_request "t1" 10 open_key).0

abbrev two_in : Db
two_in = (enroll settings other_request "t2" 11 one_in).0

abbrev offered : Db
offered = set_advertise_exit_node 1 true two_in

abbrev assigned : Db
assigned = (transact (set_exit_node 2 (some 1)) offered).0

assigned_reached : Reach settings empty_db assigned
assigned_reached =
    next
      (next
        (next
          (next (next here (creates_key "k" "" 0 none empty_db))
            (enrolls first_request "t1" 10 open_key))
          (enrolls other_request "t2" 11 one_in))
        (advertises 1 true two_in))
      (assigns_exit 2 (some 1) offered)

Reach-IsFlat_example : IsFlat assigned.peers
Reach-IsFlat_example = Reach-IsFlat settings assigned_reached

-- The exit node may not get one itself.
no_chain :
    (transact (set_exit_node 1 (some 2)) (set_advertise_exit_node 2 true assigned)).1 ≡ err invalid
unfolding transact set_exit_node set_advertise_exit_node enroll create_named_setup_key list_visible
    is_visible allocate_addr
no_chain = refl
