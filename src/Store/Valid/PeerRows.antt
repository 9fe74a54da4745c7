-- ===== src/Store/Valid/PeerRows.antt =====
-- The operations of the administrator on peers keep the database well formed.
use go_wireguard_mesh.Store.Readdress.{update_peer_address, update_peer_address_inv}
use mathlib.Core.Path.{subst}
use go_wireguard_mesh.Common.{
  All, Bool, List, Option, Option-cases, String, [], ap, arith, inl, inr, keep, nat_eq, not, refl,
  some, sym, ℕ, ◌&&◌, ◌∙◌, ◌∷◌, ◌≡◌, ◌≤◌, All-append, none, ◌++◌,
}
use go_wireguard_mesh.Store.{
  AclRule, Db, Peer, Result, Result-cases, SetupKey, err, insert_peer, key_ids, next_id, ok,
  ok-injective, peer_by_id, peer_ids, replace_peer,
}
use go_wireguard_mesh.Store.Address.{allocate_addr}
use go_wireguard_mesh.Store.Enroll.{Settings, addresses, allocate_ip6, is_id}
use go_wireguard_mesh.Store.Peers.{
  StaticPeer, answer, assign, delete_peer, new_static, place_static, remove_peer, revoke_peer,
  set_advertise_exit_node, set_exit_node, static_key, add_static, create_static_peer,
}
use go_wireguard_mesh.Store.Uses.{In, find-In, let_in_fresh}
use go_wireguard_mesh.Store.Valid.{IsValid, IsWithin}
use go_wireguard_mesh.Store.Valid.Writes.{update-IsValid, save-IsValid}
use go_wireguard_mesh.Store.Valid.Consumption.{IsRoomy}
use go_wireguard_mesh.Store.Valid.Admin.{delete-IsValid, insert_key-IsValid, next_id-append}
use go_wireguard_mesh.Store.SetupKeys.{insert_key}
use go_wireguard_mesh.Store.Valid.Enrolling.{insert-IsValid}

pub peer-In : (i : ℕ) (db : Db) (p : Peer) → peer_by_id i db ≡ some p → In p db.peers
peer-In i db p e = find-In (λ q. nat_eq q.id i) p db.peers e

pub revoke_peer-IsValid :
    (i now : ℕ) (db d : Db) (u : Unit) → revoke_peer i now db ≡ ok (d, u) → IsValid db → IsValid d
unfolding revoke_peer
revoke_peer-IsValid i now db d u h w = elim (Option-cases (peer_by_id i db)) [
  | inl e ↦ absurd (ground arith)
  | inr (p, e) ↦
      let q : Peer = record p { revoked_at = some now } in
      let r : record db { peers = replace_peer q db.peers } ≡ d = ground arith in
      subst IsValid r (update-IsValid p q db (peer-In i db p e) (refl, refl, refl, refl, refl) w)
]

pub remove_peer-IsValid :
    (i : ℕ) (db d : Db) (u : Unit) → remove_peer i db ≡ ok (d, u) → IsValid db → IsValid d
unfolding remove_peer
remove_peer-IsValid i db d u h w =
    let rules : List AclRule =
      keep (λ r. not (is_id r.src i) && not (is_id r.dst i)) db.acl_rules in
    let r : record db { peers = delete_peer i db.peers; acl_rules = rules } ≡ d = ground arith in
    subst IsValid r (delete-IsValid i rules db w)

pub advertise-IsValid :
    (i : ℕ) (offers : Bool) (db : Db) → IsValid db → IsValid (set_advertise_exit_node i offers db)
unfolding set_advertise_exit_node
advertise-IsValid i offers db w = elim (Option-cases (peer_by_id i db)) [
  | inl e ↦ let r : db ≡ set_advertise_exit_node i offers db = ground arith in subst IsValid r w
  | inr (p, e) ↦
      let q : Peer = record p { advertises = offers } in
      let r : record db { peers = replace_peer q db.peers } ≡ set_advertise_exit_node i offers db =
        ground arith in
      subst IsValid r (update-IsValid p q db (peer-In i db p e) (refl, refl, refl, refl, refl) w)
]

-- A successful `SetExitNode` writes the assignment to the row.
pub set_exit_node_inv :
    (i : ℕ) (exit : Option ℕ) (db d : Db) (u : Unit)
    → set_exit_node i exit db ≡ ok (d, u)
    → (p : Peer) × (peer_by_id i db ≡ some p) × (assign p exit db ≡ d)
unfolding set_exit_node
set_exit_node_inv i none db d u h = elim (Option-cases (peer_by_id i db)) [
  | inl e ↦ absurd (ground arith)
  | inr (p, e) ↦ (p, e, ground arith)
]
set_exit_node_inv i (some j) db d u h = elim (Option-cases (peer_by_id i db)) [
  | inl e ↦ absurd (ground arith)
  | inr (p, e) ↦ elim (Option-cases (peer_by_id j db)) [
    | inl f ↦ absurd (ground arith)
    | inr (x, f) ↦ (p, e, ground arith)
  ]
]

pub set_exit_node-IsValid :
    (i : ℕ) (exit : Option ℕ) (db d : Db) (u : Unit)
    → set_exit_node i exit db ≡ ok (d, u)
    → IsValid db
    → IsValid d
set_exit_node-IsValid i exit db d u h w =
    let (p, e, r) = set_exit_node_inv i exit db d u h in
    subst IsValid r (
      update-IsValid p (record p { exit_node = exit }) db (peer-In i db p e)
        (refl, refl, refl, refl, refl) w)

pub update_peer_address-IsValid :
    (st : Settings) (i : ℕ) (a b : Option ℕ) (db d : Db) (q : Peer)
    → update_peer_address st i a b db ≡ ok (d, q)
    → IsValid db
    → IsValid d
update_peer_address-IsValid st i a b db d q h w =
    let (p, e, r) = update_peer_address_inv st i a b db d q h in
    save-IsValid p q db d (peer-In i db p e) r.1 r.2 r.0 w

fresh-IsRoomy :
    (i : ℕ) (ps : List Peer) (ks : List SetupKey)
    → next_id (key_ids ks) ≤ i
    → All (IsWithin ps) ks
    → All (IsRoomy i ps) ks
fresh-IsRoomy i ps [] l w = tt
fresh-IsRoomy i ps (k ∷ ks) l w = ground (arith, fresh-IsRoomy i ps ks, w.0.0, w.0.1, w.1)

-- What `CreateStaticPeer` inserts.
abbrev pub IsPlaced : Db → ℕ → Db → Peer → Type 0
IsPlaced db key_id d p =
    (insert_peer p db ≡ ok d)
    × (p.id ≡ next_id (peer_ids db.peers))
    × (p.setup_key_id ≡ key_id)
    × (p.exit_node ≡ none)

answer_inv : (p q : Peer) (r : Result Db) (d : Db) → answer p r ≡ ok (d, q) → (r ≡ ok d) × (p ≡ q)
answer_inv p q (err x) d h = cc
answer_inv p q (ok c) d h =
    let e : (c, p) ≡ (d, q) = ok-injective (c, p) (d, q) h in (ap (λ x. ok x.0) e, ap (λ x. x.1) e)

place_ok :
    (st : Settings) (s : StaticPeer) (token : String) (now key_id : ℕ) (db : Db) (ip : ℕ)
    (ip6 : Option ℕ)
    → allocate_addr st.network (addresses db.peers) ≡ ok ip
    → allocate_ip6 st db ≡ ok ip6
    → let p = new_static s token now (next_id (peer_ids db.peers)) ip ip6 key_id in
      place_static st s token now key_id db ≡ answer p (insert_peer p db)
unfolding place_static
place_ok st s token now key_id db ip ip6 a b = ground arith

pub place_inv :
    (st : Settings) (s : StaticPeer) (token : String) (now key_id : ℕ) (db d : Db) (q : Peer)
    → place_static st s token now key_id db ≡ ok (d, q)
    → IsPlaced db key_id d q
unfolding place_static
place_inv st s token now key_id db d q h =
    elim (Result-cases (allocate_addr st.network (addresses db.peers))) [
      | inr (x, a) ↦ absurd (ground arith)
      | inl (ip, a) ↦ elim (Result-cases (allocate_ip6 st db)) [
        | inr (x, b) ↦ absurd (ground arith)
        | inl (ip6, b) ↦
            let p : Peer = new_static s token now (next_id (peer_ids db.peers)) ip ip6 key_id in
            let f =
              answer_inv p q (insert_peer p db) d
                (sym (place_ok st s token now key_id db ip ip6 a b) ∙ h) in
            subst (IsPlaced db key_id d) f.1 (f.0, refl, refl, refl)
      ]
    ]

place-IsValid :
    (st : Settings) (s : StaticPeer) (token key : String) (now : ℕ) (db c d : Db) (q : Peer)
    → let i = next_id (key_ids db.setup_keys) in
      insert_key (static_key i key s.hostname) db ≡ ok c
      → place_static st s token now i c ≡ ok (d, q)
      → IsValid db
      → IsValid d
unfolding insert_key
place-IsValid st s token key now db c d q hk hp w =
    let i = next_id (key_ids db.setup_keys) in
    let k = static_key i key s.hostname in
    let t : record db { setup_keys = db.setup_keys ++ k ∷ [] } ≡ c = ground arith in
    let b : Db = record db { setup_keys = db.setup_keys ++ k ∷ [] } in
    let v : IsValid b = subst IsValid (sym t) (insert_key-IsValid k db c refl (omega arith) hk w) in
    let f =
      place_inv st s token now i b d q
        (subst (λ (x : Db). place_static st s token now i x ≡ ok (d, q)) (sym t) hp) in
    let roomy : All (IsRoomy i db.peers) (db.setup_keys ++ k ∷ []) =
      All-append (IsRoomy i db.peers) db.setup_keys (k ∷ [])
        (fresh-IsRoomy i db.peers db.setup_keys (omega arith) w.within)
        ((ground (arith, let_in_fresh i db.peers w.owned), omega arith), tt) in
    insert-IsValid q b d v.rows_differ v.keys_differ v.owned
      (rw (next_id-append k db.setup_keys (omega arith)) (omega (arith, f.2)))
      (subst (λ (x : ℕ). All (IsRoomy x db.peers) b.setup_keys) (sym f.2) roomy) f.1 f.0

pub create_static_peer-IsValid :
    (st : Settings) (s : StaticPeer) (key token : String) (now : ℕ) (db d : Db) (q : Peer)
    → create_static_peer st s key token now db ≡ ok (d, q)
    → IsValid db
    → IsValid d
unfolding create_static_peer add_static
create_static_peer-IsValid st s key token now db d q h w =
    let i = next_id (key_ids db.setup_keys) in
    elim (Option-cases (peer_by_id s.gateway_peer_id db)) [
      | inl e ↦ absurd (ground arith)
      | inr (g, e) ↦
          let a : add_static st s key token now db ≡ ok (d, q) = ground arith in
          elim (Result-cases (insert_key (static_key i key s.hostname) db)) [
            | inr (x, f) ↦ absurd (ground arith)
            | inl (c, f) ↦ place-IsValid st s token key now db c d q f (ground arith) w
          ]
    ]
