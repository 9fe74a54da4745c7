-- ===== src/Store/Enroll/Outcome.antt =====
-- Which errors an enrollment can end in: the database engine never refuses what `Enroll` writes.
use go_wireguard_mesh.Store.Enroll.Free.{
  IsRefusal, address_error, address_free, err-injective, ip6_error, ip6_free, no_clash, readdressed,
}
use mathlib.Core.Path.{subst}
use go_wireguard_mesh.Common.{
  List, Option, Option-cases, String, [], any, arith, false, find, inl, inr, nat_key, none, refl,
  some, sym, text_key, true, ℕ, ◌==◌, ◌∙◌, ◌∷◌, ◌≡◌, Bool-cases, ap, is_some, ◌≢◌, ◌≤◌,
}
use go_wireguard_mesh.Store.{
  Db, Error, Peer, Result, Result-cases, clash, err, insert_peer, next_id, ok, peer_by_key,
  peer_ids, port_ok, unauthorized, SetupKey, coalesce, save_peer, settle, transact,
}
use go_wireguard_mesh.Store.Address.{allocate_addr}
use go_wireguard_mesh.Store.Enroll.{
  Request, Settings, addresses, admit, allocate_ip6, finish, new_peer, port_of, backfill, check_key,
  enroll, enroll_body, re_enroll, refreshed,
}
use go_wireguard_mesh.Store.Enroll.Again.{admit_ok, re_enroll_ok}
use go_wireguard_mesh.Store.Rows.{other_clash, AllDiffer}
use go_wireguard_mesh.Store.SetupKeys.{consume_key, diagnose_key, is_usable, key_by_text}
use go_wireguard_mesh.Store.Uses.{In, find-In}
use go_wireguard_mesh.Store.Valid.{IsValid}
use go_wireguard_mesh.Store.Valid.Writes.{own_no_clash, same_no_clash}

admit_outcome :
    (st : Settings) (r : Request) (token : String) (now key_id : ℕ) (db : Db) (e : Error)
    → peer_by_key r.public_key db ≡ none
    → port_ok (port_of r.listen_port) ≡ true
    → admit st r token now key_id db ≡ err e
    → IsRefusal e
unfolding admit insert_peer
admit_outcome st r token now key_id db e f po h =
    elim (Result-cases (allocate_addr st.network (addresses db.peers))) [
      | inr (x, a) ↦
          let q : x ≡ e = ground arith in
          subst IsRefusal q (address_error st.network (addresses db.peers) x a)
      | inl (ip, a) ↦ elim (Result-cases (allocate_ip6 st db)) [
        | inr (x, b) ↦ let q : x ≡ e = ground arith in subst IsRefusal q (ip6_error st db x b)
        | inl (ip6, b) ↦
            let p : Peer = new_peer r token now (next_id (peer_ids db.peers)) ip ip6 key_id in
            let c : any (clash p) db.peers ≡ false =
              no_clash p db.peers f (address_free st.network (addresses db.peers) ip a)
                (ip6_free st db ip6 b) in
            let k : finish st p true (insert_peer p db) ≡ err e =
              sym (admit_ok st r token now key_id db ip ip6 a b) ∙ h in
            absurd (ground (arith, c))
      ]
    ]

port_given :
    (n : ℕ) (o : Option ℕ)
    → 1 ≤ n
    → n ≤ 65_535
    → (port_ok (port_of n) ≡ true) × (port_ok (coalesce (port_of n) o) ≡ true)
port_given n o a b = (ground arith, ground arith)

refreshed_free :
    (st : Settings) (r : Request) (token : String) (now : ℕ) (ip6 : Option ℕ) (p : Peer) (db : Db)
    → backfill st p db ≡ ok ip6
    → any (other_clash p) db.peers ≡ false
    → any (other_clash (refreshed r token now ip6 p)) db.peers ≡ false
refreshed_free st r token now none p db b h =
    same_no_clash (refreshed r token now none p) p db.peers (refl, refl, refl, refl, refl) ∙ h
refreshed_free st r token now (some a) p db b h =
    readdressed p (refreshed r token now (some a) p) db.peers refl refl refl
      (ip6_free st db (some a) (ground arith)) h

backfill_error :
    (st : Settings) (p : Peer) (db : Db) (e : Error) → backfill st p db ≡ err e → IsRefusal e
backfill_error st p db e h = elim (Bool-cases (is_some p.assigned_ip6)) [
  | inl s ↦ absurd (ground arith)
  | inr s ↦ ip6_error st db e (ground arith)
]

re_enroll_outcome :
    (st : Settings) (r : Request) (token : String) (now : ℕ) (p : Peer) (db : Db) (e : Error)
    → In p db.peers
    → AllDiffer db.peers
    → 1 ≤ r.listen_port
    → r.listen_port ≤ 65_535
    → re_enroll st r token now p db ≡ err e
    → IsRefusal e
unfolding re_enroll save_peer
re_enroll_outcome st r token now p db e m w l u h =
    elim (Option-cases (check_key r.setup_key p db)) [
      | inr (x, a) ↦ let q : unauthorized x ≡ e = ground arith in subst IsRefusal q (inr (x, refl))
      | inl a ↦ elim (Result-cases (backfill st p db)) [
        | inr (x, b) ↦
            let q : x ≡ e = ground arith in subst IsRefusal q (backfill_error st p db x b)
        | inl (ip6, b) ↦
            let q : Peer = refreshed r token now ip6 p in
            let c : any (other_clash q) db.peers ≡ false =
              refreshed_free st r token now ip6 p db b (own_no_clash p db.peers m w) in
            let o = port_given r.listen_port p.listen_port l u in
            let k : finish st q false (save_peer q db) ≡ err e =
              sym (re_enroll_ok st r token now p db ip6 a b) ∙ h in
            absurd (ground (arith, c, o.1))
      ]
    ]

usable_found :
    (key : String) (now : ℕ) (ks : List SetupKey)
    → any (is_usable key now) ks ≡ true
    → find (λ k. k.key == key) ks ≢ none
usable_found key now [] h n = cc
usable_found key now (k ∷ ks) h n = ground (arith, usable_found key now ks)

consume_outcome :
    (key : String) (now : ℕ) (db : Db) (e : Error) → consume_key key now db ≡ err e → IsRefusal e
unfolding consume_key
consume_outcome key now db e h = elim (Bool-cases (any (is_usable key now) db.setup_keys)) [
  | inl a ↦ elim (Option-cases (key_by_text key db)) [
    | inl n ↦ absurd (usable_found key now db.setup_keys a n)
    | inr (k, f) ↦ absurd (ground arith)
  ]
  | inr a ↦ inr (diagnose_key key now db, ground arith)
]

consume-peers :
    (key : String) (now : ℕ) (db c : Db) (i : ℕ)
    → consume_key key now db ≡ ok (c, i)
    → db.peers ≡ c.peers
unfolding consume_key
consume-peers key now db c i h = elim (Option-cases (key_by_text key db)) [
  | inl n ↦ absurd (ground arith)
  | inr (k, f) ↦ ground arith
]

body_outcome :
    (st : Settings) (r : Request) (token : String) (now : ℕ) (db : Db) (e : Error)
    → IsValid db
    → 1 ≤ r.listen_port
    → r.listen_port ≤ 65_535
    → enroll_body st r token now db ≡ err e
    → IsRefusal e
unfolding enroll_body
body_outcome st r token now db e w l u h = elim (Option-cases (peer_by_key r.public_key db)) [
  | inr (p, f) ↦
      re_enroll_outcome st r token now p db e
        (find-In (λ q. q.public_key == r.public_key) p db.peers f) w.rows_differ l u (ground arith)
  | inl f ↦ elim (Result-cases (consume_key r.setup_key now db)) [
    | inr (x, g) ↦
        let q : x ≡ e = ground arith in subst IsRefusal q (consume_outcome r.setup_key now db x g)
    | inl (c, g) ↦
        let t : db.peers ≡ c.0.peers = consume-peers r.setup_key now db c.0 c.1 g in
        admit_outcome st r token now c.1 c.0 e
          (ap (λ ps. find (λ q. q.public_key == r.public_key) ps) (sym t) ∙ f)
          (port_given r.listen_port none l u).0 (ground arith)
  ]
]

settle_err :
    {A : Type 0} (db : Db) (r : Result (Db × A)) (e : Error)
    → (settle db r).1 ≡ err e
    → (r ≡ err e) × ((settle db r).0 ≡ db)
settle_err db (err x) e h = (ap (λ y. err y) (err-injective x e h), refl)
settle_err db (ok r) e h = cc

-- An enrollment of a well-formed database, with a real port, that fails leaves the tables as they
-- were, with the use of the key given back, and it fails because the key is refused or because a
-- network is full, and for no other reason.
pub enroll_outcome :
    (st : Settings) (r : Request) (token : String) (now : ℕ) (db : Db) (e : Error)
    → IsValid db
    → 1 ≤ r.listen_port
    → r.listen_port ≤ 65_535
    → (enroll st r token now db).1 ≡ err e
    → ((enroll st r token now db).0 ≡ db) × IsRefusal e
unfolding enroll transact
enroll_outcome st r token now db e w l u h =
    let s = settle_err db (enroll_body st r token now db) e h in
    (s.1, body_outcome st r token now db e w l u s.0)
