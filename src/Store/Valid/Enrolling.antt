-- ===== src/Store/Valid/Enrolling.antt =====
-- `Enroll` keeps the database well formed.
use mathlib.Core.Path.{subst}
use go_wireguard_mesh.Common.{
  All, All-append, All-imp, List, Option-cases, String, [], any, arith, inl, inr, nat_key, refl,
  some, text_key, true, ℕ, ◌++◌, ◌<◌, ◌==◌, ◌∷◌, ◌≡◌, sym, ◌∙◌,
}
use go_wireguard_mesh.Store.{
  Db, Peer, Result-cases, SetupKey, insert_peer, key_ids, next_id, ok, peer_by_key, peer_ids,
  transact, settle_keeps,
}
use go_wireguard_mesh.Store.SetupKeys.{consume, consume_key, is_usable, key_by_text}
use go_wireguard_mesh.Store.Enroll.{
  Enrolled, Request, Settings, admit, enroll, enroll_body, re_enroll,
}
use go_wireguard_mesh.Store.Enroll.Again.{admit_inv, re_enroll_inv}
use go_wireguard_mesh.Store.Rows.{AllDiffer, append-AllDiffer, new_row}
use go_wireguard_mesh.Store.Uses.{IsOwned, find-In, let_in-append}
use go_wireguard_mesh.Store.Valid.{
  IsValid, IsWithin, KeysDiffer, consume-KeysDiffer, consume-ids, key_below,
}
use go_wireguard_mesh.Store.Valid.Writes.{insert_peer_inv, save-IsValid}
use go_wireguard_mesh.Store.Valid.Consumption.{IsRoomy, consume-IsRoomy}

-- Room for one more peer under a key, and a peer inserted under it.
room_used :
    (i : ℕ) (p : Peer) (ps : List Peer) (ks : List SetupKey)
    → p.setup_key_id ≡ i
    → All (IsRoomy i ps) ks
    → All (IsWithin (ps ++ p ∷ [])) ks
room_used i p ps ks e h =
    All-imp (IsRoomy i ps) (IsWithin (ps ++ p ∷ [])) ks
      (λ k r. (ground (arith, let_in-append k.id p ps, r.0), r.1)) h

IsOwned-append :
    (n : ℕ) (p : Peer) (ps : List Peer)
    → p.setup_key_id < n
    → All (IsOwned n) ps
    → All (IsOwned n) (ps ++ p ∷ [])
IsOwned-append n p ps l h = All-append (IsOwned n) ps (p ∷ []) h (l, tt)

pub insert-IsValid :
    (p : Peer) (db d : Db)
    → AllDiffer db.peers
    → KeysDiffer db.setup_keys
    → All (IsOwned (next_id (key_ids db.setup_keys))) db.peers
    → p.setup_key_id < next_id (key_ids db.setup_keys)
    → All (IsRoomy p.setup_key_id db.peers) db.setup_keys
    → p.id ≡ next_id (peer_ids db.peers)
    → insert_peer p db ≡ ok d
    → IsValid d
insert-IsValid p db d rd kd o l r i h =
    let inv = insert_peer_inv p db d h in
    let v : IsValid (record db { peers = db.peers ++ p ∷ [] }) = record {
      rows_differ = append-AllDiffer p db.peers (new_row p db.peers (omega (arith, i)) inv.0) rd;
      keys_differ = kd;
      owned = IsOwned-append (next_id (key_ids db.setup_keys)) p db.peers l o;
      within = room_used p.setup_key_id p db.peers db.setup_keys refl r;
    } in
    subst IsValid inv.1 v

-- The tables after the consumption of a use.
abbrev pub after_use : String → ℕ → Db → Db
after_use key now db = record db { setup_keys = consume key now db.setup_keys }

pub consume_key_inv :
    (key : String) (now : ℕ) (db c : Db) (i : ℕ)
    → consume_key key now db ≡ ok (c, i)
    → (any (is_usable key now) db.setup_keys ≡ true)
      × (after_use key now db ≡ c)
      × ((k : SetupKey) × (key_by_text key db ≡ some k) × (k.id ≡ i))
unfolding consume_key
consume_key_inv key now db c i h = elim (Option-cases (key_by_text key db)) [
  | inl e ↦ absurd (ground arith)
  | inr (k, e) ↦ (ground arith, ground arith, (k, e, ground arith))
]

new-IsValid :
    (st : Settings) (r : Request) (token : String) (now i : ℕ) (db c d : Db) (e : Enrolled)
    → consume_key r.setup_key now db ≡ ok (c, i)
    → admit st r token now i c ≡ ok (d, e)
    → IsValid db
    → IsValid d
new-IsValid st r token now i db c d e hc ha w =
    let (u, q, (k, f, ki)) = consume_key_inv r.setup_key now db c i hc in
    let roomy : All (IsRoomy k.id db.peers) (consume r.setup_key now db.setup_keys) =
      consume-IsRoomy r.setup_key now db.peers k db.setup_keys f u w.keys_differ w.within in
    let t = after_use r.setup_key now db in
    let b =
      admit_inv st r token now i t d e
        (subst (λ (x : Db). admit st r token now i x ≡ ok (d, e)) (sym q) ha) in
    let m : k.id ≡ e.peer.setup_key_id = ki ∙ sym b.0.2 in
    insert-IsValid e.peer t d w.rows_differ
      (consume-KeysDiffer r.setup_key now db.setup_keys w.keys_differ)
      (rw (consume-ids r.setup_key now db.setup_keys) (w.owned))
      (rw (← m, consume-ids r.setup_key now db.setup_keys)
        (key_below (λ x. x.key == r.setup_key) db.setup_keys k f))
      (subst (λ (x : ℕ). All (IsRoomy x db.peers) t.setup_keys) m roomy) b.0.1 b.0.0

pub enroll_body-IsValid :
    (st : Settings) (r : Request) (token : String) (now : ℕ) (db d : Db) (e : Enrolled)
    → enroll_body st r token now db ≡ ok (d, e)
    → IsValid db
    → IsValid d
unfolding enroll_body
enroll_body-IsValid st r token now db d e h w = elim (Option-cases (peer_by_key r.public_key db)) [
  | inr (p, f) ↦
      let g : re_enroll st r token now p db ≡ ok (d, e) = ground arith in
      let v = re_enroll_inv st r token now p db d e g in
      save-IsValid p e.peer db d (find-In (λ q. q.public_key == r.public_key) p db.peers f) v.0.1
        v.0.2 v.0.0 w
  | inl f ↦ elim (Result-cases (consume_key r.setup_key now db)) [
    | inr (x, g) ↦ absurd (ground arith)
    | inl (c, g) ↦ new-IsValid st r token now c.1 db c.0 d e g (ground arith) w
  ]
]

pub enroll-IsValid :
    (st : Settings) (r : Request) (token : String) (now : ℕ) (db : Db)
    → IsValid db
    → IsValid (enroll st r token now db).0
unfolding enroll transact
enroll-IsValid st r token now db w =
    settle_keeps IsValid db (enroll_body st r token now db) w
      (λ d e h. enroll_body-IsValid st r token now db d e h w)
