-- ===== src/Store/Enroll/Repeat.antt =====
-- `Enroll` is idempotent: an agent whose answer was lost may ask again.
use mathlib.Core.Path.{subst}
use go_wireguard_mesh.Common.{
  List, Option-cases, String, [], any, ap, arith, false, find, inl, inr, nat_eq, nat_eq_iff,
  nat_key, none, refl, some, sym, text_key, true, ℕ, ◌++◌, ◌==◌, ◌∙◌, ◌∷◌, ◌≡◌, ==_iff, bytes_key,
}
use go_wireguard_mesh.Store.{
  Db, Peer, Result-cases, SetupKey, ok, replace_peer, insert_peer, peer_by_key, save_peer, Result,
  err, ok-injective, port_ok, settle, transact,
}
use go_wireguard_mesh.Store.SetupKeys.{consume, consumed, is_usable, consume_key, key_by_text}
use go_wireguard_mesh.Store.Enroll.{
  Settings, Enrolled, Request, admit, check_key, re_enroll, enroll, enroll_body, port_of,
}
use go_wireguard_mesh.Store.Uses.{In, find-In, find_test}
use go_wireguard_mesh.Store.Valid.{KeysDiffer, IsValid}
use go_wireguard_mesh.Store.Valid.Consumption.{not_usable}
use go_wireguard_mesh.Store.Enroll.Again.{admit_inv, re_enroll_inv}
use go_wireguard_mesh.Store.Enroll.Settled.{IsSettled, repeated}
use go_wireguard_mesh.Store.Valid.Enrolling.{consume_key_inv, enroll_body-IsValid}
use go_wireguard_mesh.Store.Valid.Writes.{insert_peer_inv, save_peer_inv}

-- The key that let a peer in is still there after its use, with the same id and not revoked.
key_stays :
    (key : String) (now : ℕ) (ks : List SetupKey) (k : SetupKey)
    → KeysDiffer ks
    → any (is_usable key now) ks ≡ true
    → find (λ x. x.key == key) ks ≡ some k
    → find (λ x. x.key == key) (consume key now ks) ≡ some (consumed k) × (k.revoked_at ≡ none)
key_stays key now [] k d u e = cc
key_stays key now (j ∷ js) k d u e =
    ground (arith, not_usable key now j js, key_stays key now js k d.1, d.0)

In-append : (p : Peer) (ps : List Peer) → In p (ps ++ p ∷ [])
In-append p [] = inl refl
In-append p (q ∷ qs) = inr (In-append p qs)

In-replace : (p q : Peer) (ps : List Peer) → In p ps → q.id ≡ p.id → In q (replace_peer q ps)
In-replace p q [] m e = absurd m
In-replace p q (r ∷ rs) (inl m) e =
    let f : nat_eq r.id q.id ≡ true =
      (nat_eq_iff r.id q.id).1 (sym (ap (λ (x : Peer). x.id) m) ∙ sym e) in
    inl (rw f refl)
In-replace p q (r ∷ rs) (inr m) e = inr (In-replace p q rs m e)

key_found :
    (key : String) (now i : ℕ) (db : Db)
    → KeysDiffer db.setup_keys
    → any (is_usable key now) db.setup_keys ≡ true
    → (k : SetupKey) → key_by_text key db ≡ some k
    → k.id ≡ i
    → (c : Db) (p : Peer) → c.setup_keys ≡ consume key now db.setup_keys
    → p.setup_key_id ≡ i
    → check_key key p c ≡ none
key_found key now i db d u k e n c p q m =
    let s = key_stays key now db.setup_keys k d u e in
    let f : key_by_text key c ≡ some (consumed k) =
      ap (λ ks. find (λ x. x.key == key) ks) q ∙ s.0 in
    ground (arith, f, s.1, n, m)

pub new-IsSettled :
    (st : Settings) (r : Request) (token : String) (now i : ℕ) (db c d : Db) (e : Enrolled)
    → consume_key r.setup_key now db ≡ ok (c, i)
    → admit st r token now i c ≡ ok (d, e)
    → KeysDiffer db.setup_keys
    → IsSettled st r.setup_key d e.peer × (e.peer.public_key ≡ r.public_key)
unfolding insert_peer
new-IsSettled st r token now i db c d e hc ha kd =
    let (u, q, (k, f, ki)) = consume_key_inv r.setup_key now db c i hc in
    let a = (admit_inv st r token now i c d e ha).0 in
    let t = insert_peer_inv e.peer c d a.0 in
    (
      record {
        present = subst (λ (x : Db). In e.peer x.peers) t.1 (In-append e.peer c.peers);
        allowed =
            key_found r.setup_key now i db kd u k f ki d e.peer
              (ap (λ (x : Db). x.setup_keys) (sym t.1) ∙ ap (λ (x : Db). x.setup_keys) (sym q)) a.2;
        addressed = a.4;
        port = ground (arith, a.0);
      },
      a.3,
    )

check_key_same :
    (key : String) (p q : Peer) (db c : Db)
    → c.setup_keys ≡ db.setup_keys
    → q.setup_key_id ≡ p.setup_key_id
    → check_key key q c ≡ check_key key p db
check_key_same key p q db c k i =
    let f : key_by_text key c ≡ key_by_text key db = ap (λ ks. find (λ x. x.key == key) ks) k in
    ground (arith, f, i)

pub re-IsSettled :
    (st : Settings) (r : Request) (token : String) (now : ℕ) (p : Peer) (db d : Db) (e : Enrolled)
    → In p db.peers
    → p.public_key ≡ r.public_key
    → re_enroll st r token now p db ≡ ok (d, e)
    → IsSettled st r.setup_key d e.peer × (e.peer.public_key ≡ r.public_key)
unfolding save_peer
re-IsSettled st r token now p db d e m k h =
    let a = (re_enroll_inv st r token now p db d e h).0 in
    let t = save_peer_inv e.peer db d a.0 in
    (
      record {
        present = subst (λ (x : Db). In e.peer x.peers) t (In-replace p e.peer db.peers m a.1);
        allowed =
            check_key_same r.setup_key p e.peer db d (ap (λ (x : Db). x.setup_keys) (sym t)) a.2
            ∙ a.5;
        addressed = a.4;
        port = ground (arith, a.0);
      },
      a.3 ∙ k,
    )

enroll-IsSettled :
    (st : Settings) (r : Request) (token : String) (now : ℕ) (db d : Db) (e : Enrolled)
    → enroll_body st r token now db ≡ ok (d, e)
    → IsValid db
    → IsSettled st r.setup_key d e.peer × (e.peer.public_key ≡ r.public_key)
unfolding enroll_body
enroll-IsSettled st r token now db d e h w = elim (Option-cases (peer_by_key r.public_key db)) [
  | inr (p, f) ↦
      re-IsSettled st r token now p db d e
        (find-In (λ q. q.public_key == r.public_key) p db.peers f)
        ((==_iff p.public_key r.public_key).0
          (find_test (λ q. q.public_key == r.public_key) p db.peers f))
        (ground arith)
  | inl f ↦ elim (Result-cases (consume_key r.setup_key now db)) [
    | inr (x, g) ↦ absurd (ground arith)
    | inl (c, g) ↦ new-IsSettled st r token now c.1 db c.0 d e g (ground arith) w.keys_differ
  ]
]

pub settle_inv :
    {A : Type 0} (db : Db) (r : Result (Db × A)) (a : A)
    → (settle db r).1 ≡ ok a
    → r ≡ ok ((settle db r).0, a)
settle_inv db (err e) a h = cc
settle_inv db (ok r) a h = ap (λ x. ok (r.0, x)) (ok-injective r.1 a h)

-- The answer to a repetition, given the first answer: the same peer at the same address, and no
-- further use of the setup key.
abbrev pub IsRepeated : Db → Enrolled → Db × Result Enrolled → Type 0
IsRepeated d e c =
    (f : Enrolled) × (c.1 ≡ ok f)
    × (f.created ≡ false)
    × (f.peer.id ≡ e.peer.id)
    × (f.peer.assigned_ip ≡ e.peer.assigned_ip)
    × (f.peer.assigned_ip6 ≡ e.peer.assigned_ip6)
    × (c.0.setup_keys ≡ d.setup_keys)

-- An enrollment that succeeded may be repeated with the same setup key and public key, at any time
-- and whatever else the request says, as long as its port is one: the repetition succeeds even when
-- the key has expired or has no uses left, returns the same peer at the same addresses, and consumes
-- no use.
pub enroll_again :
    (st : Settings) (r s : Request) (token token2 : String) (now now2 : ℕ) (db : Db) (e : Enrolled)
    → IsValid db
    → (enroll st r token now db).1 ≡ ok e
    → s.setup_key ≡ r.setup_key
    → s.public_key ≡ r.public_key
    → port_ok (port_of s.listen_port) ≡ true
    → IsRepeated
        (enroll st r token now db).0
        e
        (enroll st s token2 now2 (enroll st r token now db).0)
unfolding enroll transact
enroll_again st r s token token2 now now2 db e w h sk pk po =
    let d = (enroll st r token now db).0 in
    let b : enroll_body st r token now db ≡ ok (d, e) =
      settle_inv db (enroll_body st r token now db) e h in
    let v : IsValid d = enroll_body-IsValid st r token now db d e b w in
    let x = enroll-IsSettled st r token now db d e b w in
    let y : IsSettled st s.setup_key d e.peer =
      subst (λ (z : String). IsSettled st z d e.peer) (sym sk) x.0 in
    let z = repeated st s token2 now2 d e.peer v.rows_differ (x.1 ∙ sym pk) po y in
    subst (IsRepeated d e) (sym z) (_, refl, refl, refl, refl, refl, refl)
