-- ===== src/Store/Valid/Life.antt =====
-- The database over any operations of the store.
use go_wireguard_mesh.Store.Readdress.{update_peer_address}
use mathlib.Core.Path.{subst}
use go_wireguard_mesh.Common.{Bool, Option, String, [], arith, ℕ, ◌≡◌}
use go_wireguard_mesh.Store.{Db, ok, settle, settle_keeps, transact}
use go_wireguard_mesh.Store.SetupKeys.{create_named_setup_key, revoke_key, revoke_setup_key}
use go_wireguard_mesh.Store.Enroll.{Request, Settings, enroll}
use go_wireguard_mesh.Store.Peers.{
  StaticPeer, create_static_peer, remove_peer, revoke_peer, set_advertise_exit_node, set_exit_node,
}
use go_wireguard_mesh.Store.Valid.{IsValid}
use go_wireguard_mesh.Store.Valid.Enrolling.{enroll-IsValid}
use go_wireguard_mesh.Store.Valid.Admin.{create_key-IsValid, revoke_keys-IsValid}
use go_wireguard_mesh.Store.Valid.PeerRows.{
  advertise-IsValid, create_static_peer-IsValid, remove_peer-IsValid, revoke_peer-IsValid,
  set_exit_node-IsValid, update_peer_address-IsValid,
}

module _ (st : Settings) where
  -- The operations that write to setup keys, peers and rules' peers, with any arguments, at any
  -- time.
  pub data Step : Db → Db → Type 0 where
    creates_key :
        (key name : String) (max_uses : ℕ) (expires : Option ℕ) (db : Db)
        → Step db (settle db (create_named_setup_key key name max_uses expires db)).0
    revokes_key : (i now : ℕ) (db : Db) → Step db (settle db (revoke_setup_key i now db)).0
    enrolls :
        (r : Request) (token : String) (now : ℕ) (db : Db) → Step db (enroll st r token now db).0
    creates_static :
        (s : StaticPeer) (key token : String) (now : ℕ) (db : Db)
        → Step db (transact (create_static_peer st s key token now) db).0
    revokes_peer : (i now : ℕ) (db : Db) → Step db (settle db (revoke_peer i now db)).0
    removes_peer : (i : ℕ) (db : Db) → Step db (settle db (remove_peer i db)).0
    advertises : (i : ℕ) (offers : Bool) (db : Db) → Step db (set_advertise_exit_node i offers db)
    assigns_exit :
        (i : ℕ) (exit : Option ℕ) (db : Db) → Step db (transact (set_exit_node i exit) db).0
    readdresses :
        (i : ℕ) (a b : Option ℕ) (db : Db) → Step db (transact (update_peer_address st i a b) db).0

  pub data Reach (s : Db) : Db → Type 0 where
    here : Reach s s
    next : {t u : Db} → Reach s t → Step t u → Reach s u

abbrev pub empty_db : Db
empty_db = record { setup_keys = []; peers = []; acl_rules = [] }

revoke_key-IsValid :
    (i now : ℕ) (db d : Db) (u : Unit)
    → revoke_setup_key i now db ≡ ok (d, u)
    → IsValid db
    → IsValid d
unfolding revoke_setup_key
revoke_key-IsValid i now db d u h w =
    let r : record db { setup_keys = revoke_key i now db.setup_keys } ≡ d = ground arith in
    subst IsValid r (revoke_keys-IsValid i now db w)

Step-IsValid : (st : Settings) {s t : Db} → Step st s t → IsValid s → IsValid t
unfolding transact
Step-IsValid st (creates_key key name max_uses expires db) w =
    settle_keeps IsValid db (create_named_setup_key key name max_uses expires db) w
      (λ d u h. create_key-IsValid key name max_uses expires db d u h w)
Step-IsValid st (revokes_key i now db) w =
    settle_keeps IsValid db (revoke_setup_key i now db) w
      (λ d u h. revoke_key-IsValid i now db d u h w)
Step-IsValid st (enrolls r token now db) w = enroll-IsValid st r token now db w
Step-IsValid st (creates_static s key token now db) w =
    settle_keeps IsValid db (create_static_peer st s key token now db) w
      (λ d q h. create_static_peer-IsValid st s key token now db d q h w)
Step-IsValid st (revokes_peer i now db) w =
    settle_keeps IsValid db (revoke_peer i now db) w (λ d u h. revoke_peer-IsValid i now db d u h w)
Step-IsValid st (removes_peer i db) w =
    settle_keeps IsValid db (remove_peer i db) w (λ d u h. remove_peer-IsValid i db d u h w)
Step-IsValid st (advertises i offers db) w = advertise-IsValid i offers db w
Step-IsValid st (assigns_exit i exit db) w =
    settle_keeps IsValid db (set_exit_node i exit db) w
      (λ d u h. set_exit_node-IsValid i exit db d u h w)
Step-IsValid st (readdresses i a b db) w =
    settle_keeps IsValid db (update_peer_address st i a b db) w
      (λ d q h. update_peer_address-IsValid st i a b db d q h w)

pub Reach-empty_db-IsValid : (st : Settings) {t : Db} → Reach st empty_db t → IsValid t
Reach-empty_db-IsValid st here = record {
  rows_differ = tt;
  keys_differ = tt;
  owned = tt;
  within = tt;
}
Reach-empty_db-IsValid st (next r s) = Step-IsValid st s (Reach-empty_db-IsValid st r)
