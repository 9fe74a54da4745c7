-- ===== src/Store/Valid/Chains.antt =====
-- No active peer's traffic is led from one exit node to another.
use go_wireguard_mesh.Store.Readdress.{update_peer_address, update_peer_address_inv}
use mathlib.Core.Path.{subst}
use go_wireguard_mesh.Common.{
  Bool, Option, Option-cases, String, ap, arith, false, inl, inr, nat_eq, nat_eq_iff, nat_key, none,
  refl, some, sym, text_key, ℕ, ◌==◌, ◌≡◌,
}
use go_wireguard_mesh.Store.{
  Db, Peer, Result-cases, insert_peer, key_ids, next_id, ok, peer_by_id, peer_by_key, replace_peer,
  settle_keeps, transact,
}
use go_wireguard_mesh.Store.SetupKeys.{
  consume_key, create_named_setup_key, insert_key, revoke_setup_key,
}
use go_wireguard_mesh.Store.Enroll.{Enrolled, Request, Settings, enroll, enroll_body}
use go_wireguard_mesh.Store.Enroll.Again.{admit_inv, re_enroll_inv}
use go_wireguard_mesh.Store.Peers.{
  StaticPeer, add_static, create_static_peer, delete_peer, has_clients, remove_peer, revoke_peer,
  set_advertise_exit_node, set_exit_node, static_key,
}
use go_wireguard_mesh.Store.Peers.Exits.{
  IsFlat, append-IsFlat, assign-IsFlat, clear-IsFlat, delete-IsFlat, keep-IsFlat,
}
use go_wireguard_mesh.Store.Rows.{AllDiffer}
use go_wireguard_mesh.Store.Uses.{find-In, find_test}
use go_wireguard_mesh.Store.Valid.{IsValid}
use go_wireguard_mesh.Store.Valid.Writes.{insert_peer_inv, save_peer_inv}
use go_wireguard_mesh.Store.Valid.Enrolling.{consume_key_inv}
use go_wireguard_mesh.Store.Valid.PeerRows.{peer-In, place_inv, set_exit_node_inv}
use go_wireguard_mesh.Store.Valid.Life.{
  Reach, Reach-empty_db-IsValid, Step, advertises, assigns_exit, creates_key, creates_static,
  empty_db, enrolls, here, next, removes_peer, revokes_key, revokes_peer, readdresses,
}

insert-IsFlat :
    (q : Peer) (db d : Db)
    → insert_peer q db ≡ ok d
    → q.exit_node ≡ none
    → IsFlat db.peers
    → IsFlat d.peers
insert-IsFlat q db d h e f =
    subst (λ (x : Db). IsFlat x.peers) (insert_peer_inv q db d h).1 (append-IsFlat q db.peers e f)

enroll_body-IsFlat :
    (st : Settings) (r : Request) (token : String) (now : ℕ) (db d : Db) (e : Enrolled)
    → enroll_body st r token now db ≡ ok (d, e)
    → IsFlat db.peers
    → IsFlat d.peers
unfolding enroll_body
enroll_body-IsFlat st r token now db d e h f = elim (Option-cases (peer_by_key r.public_key db)) [
  | inr (p, g) ↦
      let v = (re_enroll_inv st r token now p db d e (ground arith)).0 in
      subst (λ (x : Db). IsFlat x.peers) (save_peer_inv e.peer db d v.0)
        (keep-IsFlat p e.peer db.peers (find-In (λ q. q.public_key == r.public_key) p db.peers g)
          v.1 v.6 (ground (arith, v.7)) f)
  | inl g ↦ elim (Result-cases (consume_key r.setup_key now db)) [
    | inr (x, k) ↦ absurd (ground arith)
    | inl (c, k) ↦
        let q = consume_key_inv r.setup_key now db c.0 c.1 k in
        let a = (admit_inv st r token now c.1 c.0 d e (ground arith)).0 in
        insert-IsFlat e.peer c.0 d a.0 a.5 (subst (λ (x : Db). IsFlat x.peers) q.1 f)
  ]
]

static-IsFlat :
    (st : Settings) (s : StaticPeer) (key token : String) (now : ℕ) (db d : Db) (q : Peer)
    → create_static_peer st s key token now db ≡ ok (d, q)
    → IsFlat db.peers
    → IsFlat d.peers
unfolding create_static_peer add_static insert_key
static-IsFlat st s key token now db d q h f =
    let i = next_id (key_ids db.setup_keys) in
    let k = static_key i key s.hostname in
    elim (Option-cases (peer_by_id s.gateway_peer_id db)) [
      | inl e ↦ absurd (ground arith)
      | inr (g, e) ↦
          let a : add_static st s key token now db ≡ ok (d, q) = ground arith in
          elim (Result-cases (insert_key k db)) [
            | inr (x, b) ↦ absurd (ground arith)
            | inl (c, b) ↦
                let p = place_inv st s token now i c d q (ground arith) in
                let t : db.peers ≡ c.peers = ground arith in
                insert-IsFlat q c d p.0 p.3 (subst IsFlat t f)
          ]
    ]

revoke_peer-IsFlat :
    (i now : ℕ) (db d : Db) (u : Unit)
    → revoke_peer i now db ≡ ok (d, u)
    → IsFlat db.peers
    → IsFlat d.peers
unfolding revoke_peer
revoke_peer-IsFlat i now db d u h f = elim (Option-cases (peer_by_id i db)) [
  | inl e ↦ absurd (ground arith)
  | inr (p, e) ↦
      let q : Peer = record p { revoked_at = some now } in
      let r : replace_peer q db.peers ≡ d.peers = ground arith in
      subst IsFlat r (keep-IsFlat p q db.peers (peer-In i db p e) refl refl (λ n. refl) f)
]

remove_peer-IsFlat :
    (i : ℕ) (db d : Db) (u : Unit) → remove_peer i db ≡ ok (d, u) → IsFlat db.peers → IsFlat d.peers
unfolding remove_peer
remove_peer-IsFlat i db d u h f =
    let r : delete_peer i db.peers ≡ d.peers = ground arith in
    subst IsFlat r (delete-IsFlat i db.peers f)

advertise-IsFlat :
    (i : ℕ) (offers : Bool) (db : Db)
    → IsFlat db.peers
    → IsFlat (set_advertise_exit_node i offers db).peers
unfolding set_advertise_exit_node
advertise-IsFlat i offers db f = elim (Option-cases (peer_by_id i db)) [
  | inl e ↦
      let r : db.peers ≡ (set_advertise_exit_node i offers db).peers = ground arith in
      subst IsFlat r f
  | inr (p, e) ↦
      let q : Peer = record p { advertises = offers } in
      let r : replace_peer q db.peers ≡ (set_advertise_exit_node i offers db).peers =
        ground arith in
      subst IsFlat r (keep-IsFlat p q db.peers (peer-In i db p e) refl refl (λ n. n) f)
]

-- What `SetExitNode` has checked when it assigns an exit node.
set_exit_checked :
    (i j : ℕ) (db d : Db) (u : Unit)
    → set_exit_node i (some j) db ≡ ok (d, u)
    → (nat_eq j i ≡ false)
      × (has_clients i db.peers ≡ false)
      × ((e : Peer) × (peer_by_id j db ≡ some e) × (e.exit_node ≡ none))
unfolding set_exit_node
set_exit_checked i j db d u h = elim (Option-cases (peer_by_id i db)) [
  | inl a ↦ absurd (ground arith)
  | inr (p, a) ↦ elim (Option-cases (peer_by_id j db)) [
    | inl b ↦ absurd (ground arith)
    | inr (e, b) ↦ (ground arith, ground arith, (e, b, ground arith))
  ]
]

set_exit_node-IsFlat :
    (i : ℕ) (exit : Option ℕ) (db d : Db) (u : Unit)
    → set_exit_node i exit db ≡ ok (d, u)
    → AllDiffer db.peers
    → IsFlat db.peers
    → IsFlat d.peers
set_exit_node-IsFlat i none db d u h w f =
    let (p, a, r) = set_exit_node_inv i none db d u h in
    subst (λ (x : Db). IsFlat x.peers) r
      (clear-IsFlat (record p { exit_node = none }) db.peers refl f)
set_exit_node-IsFlat i (some j) db d u h w f =
    let (p, a, r) = set_exit_node_inv i (some j) db d u h in
    let (ne, c, (e, b, n)) = set_exit_checked i j db d u h in
    let pi : p.id ≡ i = (nat_eq_iff p.id i).0 (find_test (λ x. nat_eq x.id i) p db.peers a) in
    let ej : e.id ≡ j = (nat_eq_iff e.id j).0 (find_test (λ x. nat_eq x.id j) e db.peers b) in
    subst (λ (x : Db). IsFlat x.peers) r
      (assign-IsFlat (record p { exit_node = some j }) e db.peers (peer-In j db e b) w
        (ap (λ x. some x) (sym ej)) n (ground (arith, ne, pi, ej)) (rw pi c) f)

update_peer_address-IsFlat :
    (st : Settings) (i : ℕ) (a b : Option ℕ) (db d : Db) (q : Peer)
    → update_peer_address st i a b db ≡ ok (d, q)
    → IsFlat db.peers
    → IsFlat d.peers
update_peer_address-IsFlat st i a b db d q h f =
    let (p, e, r) = update_peer_address_inv st i a b db d q h in
    subst (λ (x : Db). IsFlat x.peers) (save_peer_inv q db d r.0)
      (keep-IsFlat p q db.peers (peer-In i db p e) r.1 r.3 (ground (arith, r.4)) f)

Step-IsFlat : (st : Settings) {s t : Db} → Step st s t → IsValid s → IsFlat s.peers → IsFlat t.peers
unfolding transact enroll create_named_setup_key insert_key revoke_setup_key
Step-IsFlat st (creates_key key name max_uses expires db) w f =
    settle_keeps (λ x. IsFlat x.peers) db (create_named_setup_key key name max_uses expires db) f
      (λ d u h. let r : db.peers ≡ d.peers = ground arith in subst IsFlat r f)
Step-IsFlat st (revokes_key i now db) w f =
    settle_keeps (λ x. IsFlat x.peers) db (revoke_setup_key i now db) f
      (λ d u h. let r : db.peers ≡ d.peers = ground arith in subst IsFlat r f)
Step-IsFlat st (enrolls r token now db) w f =
    settle_keeps (λ x. IsFlat x.peers) db (enroll_body st r token now db) f
      (λ d e h. enroll_body-IsFlat st r token now db d e h f)
Step-IsFlat st (creates_static s key token now db) w f =
    settle_keeps (λ x. IsFlat x.peers) db (create_static_peer st s key token now db) f
      (λ d q h. static-IsFlat st s key token now db d q h f)
Step-IsFlat st (revokes_peer i now db) w f =
    settle_keeps (λ x. IsFlat x.peers) db (revoke_peer i now db) f
      (λ d u h. revoke_peer-IsFlat i now db d u h f)
Step-IsFlat st (removes_peer i db) w f =
    settle_keeps (λ x. IsFlat x.peers) db (remove_peer i db) f
      (λ d u h. remove_peer-IsFlat i db d u h f)
Step-IsFlat st (advertises i offers db) w f = advertise-IsFlat i offers db f
Step-IsFlat st (assigns_exit i exit db) w f =
    settle_keeps (λ x. IsFlat x.peers) db (set_exit_node i exit db) f
      (λ d u h. set_exit_node-IsFlat i exit db d u h w.rows_differ f)
Step-IsFlat st (readdresses i a b db) w f =
    settle_keeps (λ x. IsFlat x.peers) db (update_peer_address st i a b db) f
      (λ d q h. update_peer_address-IsFlat st i a b db d q h f)

-- Over any operations on an empty database, no active peer exits through a peer that is assigned an
-- exit node itself: exit nodes never form a chain, whatever is assigned, revoked and removed in
-- between.
pub Reach-IsFlat : (st : Settings) {t : Db} → Reach st empty_db t → IsFlat t.peers
Reach-IsFlat st here = refl
Reach-IsFlat st (next r s) = Step-IsFlat st s (Reach-empty_db-IsValid st r) (Reach-IsFlat st r)
