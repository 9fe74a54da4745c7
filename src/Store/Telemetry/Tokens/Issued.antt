-- ===== src/Store/Telemetry/Tokens/Issued.antt =====
-- Which tokens work after an enrollment.
use mathlib.Core.Path.{subst}
use go_wireguard_mesh.Common.{
  List, Option-cases, String, [], ap, arith, bytes_key, false, inl, inr, nat_key, sym, text_key,
  true, ℕ, ◌++◌, ◌==◌, ◌∙◌, ◌∷◌, ◌≡◌, ◌⊎◌, ==_iff, Bool, any, find, if◌then◌else◌, ltb, nat_eq,
  nat_eq_iff, none, not, refl, some, ◌&&◌, ◌-◌, ◌≢◌, ==_false,
}
use go_wireguard_mesh.Store.{
  Db, Peer, Result-cases, insert_peer, next_id, ok, peer_by_key, peer_ids, replace_peer, save_peer,
  transact,
}
use go_wireguard_mesh.Store.Address.{allocate_addr}
use go_wireguard_mesh.Store.SetupKeys.{consume_key}
use go_wireguard_mesh.Store.Enroll.Repeat.{settle_inv}
use go_wireguard_mesh.Store.Enroll.{
  Enrolled, Request, Settings, addresses, admit, allocate_ip6, backfill, check_key, enroll_body,
  finish, new_peer, re_enroll, refreshed, enroll,
}
use go_wireguard_mesh.Store.Peers.{is_active}
use go_wireguard_mesh.Store.Uses.{In, find-In}
use go_wireguard_mesh.Store.Enroll.Again.{
  admit_inv, admit_ok, finish_inv, re_enroll_inv, re_enroll_ok,
}
use go_wireguard_mesh.Store.Valid.Enrolling.{consume_key_inv}
use go_wireguard_mesh.Store.Valid.Writes.{save_peer_inv, insert_peer_inv}
use go_wireguard_mesh.Store.Telemetry.Tokens.{
  admitted, authenticate_peer, bears, expired_token, refused, unknown_token,
}

admit_token :
    (st : Settings) (r : Request) (token : String) (now i : ℕ) (db d : Db) (e : Enrolled)
    → admit st r token now i db ≡ ok (d, e)
    → (e.peer.token_hash ≡ token) × (e.peer.issued_at ≡ now)
unfolding admit
admit_token st r token now i db d e h =
    elim (Result-cases (allocate_addr st.network (addresses db.peers))) [
      | inr (x, a) ↦ absurd (ground arith)
      | inl (ip, a) ↦ elim (Result-cases (allocate_ip6 st db)) [
        | inr (x, b) ↦ absurd (ground arith)
        | inl (ip6, b) ↦
            let p : Peer = new_peer r token now (next_id (peer_ids db.peers)) ip ip6 i in
            let g : finish st p true (insert_peer p db) ≡ ok (d, e) =
              sym (admit_ok st r token now i db ip ip6 a b) ∙ h in
            let f = (finish_inv st p true (insert_peer p db) d e g).1 in
            (ap (λ (q : Peer). q.token_hash) (sym f), ap (λ (q : Peer). q.issued_at) (sym f))
      ]
    ]

re_enroll_token :
    (st : Settings) (r : Request) (token : String) (now : ℕ) (p : Peer) (db d : Db) (e : Enrolled)
    → re_enroll st r token now p db ≡ ok (d, e)
    → (e.peer.token_hash ≡ token) × (e.peer.issued_at ≡ now)
unfolding re_enroll
re_enroll_token st r token now p db d e h = elim (Option-cases (check_key r.setup_key p db)) [
  | inr (x, a) ↦ absurd (ground arith)
  | inl a ↦ elim (Result-cases (backfill st p db)) [
    | inr (x, b) ↦ absurd (ground arith)
    | inl (ip6, b) ↦
        let q : Peer = refreshed r token now ip6 p in
        let g : finish st q false (save_peer q db) ≡ ok (d, e) =
          sym (re_enroll_ok st r token now p db ip6 a b) ∙ h in
        let f = (finish_inv st q false (save_peer q db) d e g).1 in
        (ap (λ (y : Peer). y.token_hash) (sym f), ap (λ (y : Peer). y.issued_at) (sym f))
  ]
]

-- The rows after an enrollment: the peer's row is new, or stands in the place of its old one.
abbrev IsWritten : Enrolled → List Peer → List Peer → Type 0
IsWritten e ps qs =
    ((qs ≡ ps ++ e.peer ∷ []) × (true ≡ e.created))
    ⊎ ((qs ≡ replace_peer e.peer ps) × In (e.peer.id) (peer_ids ps))

In-peer_ids : (p : Peer) (ps : List Peer) → In p ps → In p.id (peer_ids ps)
In-peer_ids p [] m = absurd m
In-peer_ids p (q ∷ qs) (inl m) = inl (ap (λ (x : Peer). x.id) m)
In-peer_ids p (q ∷ qs) (inr m) = inr (In-peer_ids p qs m)

enroll-IsWritten :
    (st : Settings) (r : Request) (token : String) (now : ℕ) (db d : Db) (e : Enrolled)
    → enroll_body st r token now db ≡ ok (d, e)
    → IsWritten e db.peers d.peers × (e.peer.token_hash ≡ token) × (e.peer.issued_at ≡ now)
unfolding enroll_body
enroll-IsWritten st r token now db d e h = elim (Option-cases (peer_by_key r.public_key db)) [
  | inr (p, f) ↦
      let g : re_enroll st r token now p db ≡ ok (d, e) = ground arith in
      let a = (re_enroll_inv st r token now p db d e g).0 in
      let t = re_enroll_token st r token now p db d e g in
      (
        inr (
          ap (λ (x : Db). x.peers) (sym (save_peer_inv e.peer db d a.0)),
          subst (λ (i : ℕ). In i (peer_ids db.peers)) (sym a.1)
              (In-peer_ids p db.peers (find-In (λ q. q.public_key == r.public_key) p db.peers f)),
        ),
        t.0,
        t.1,
      )
  | inl f ↦ elim (Result-cases (consume_key r.setup_key now db)) [
    | inr (x, g) ↦ absurd (ground arith)
    | inl (c, g) ↦
        let k : admit st r token now c.1 c.0 ≡ ok (d, e) = ground arith in
        let q = (consume_key_inv r.setup_key now db c.0 c.1 (ground arith)).1 in
        let a = (admit_inv st r token now c.1 c.0 d e k).0 in
        let t = admit_token st r token now c.1 c.0 d e k in
        (
          inl (
            ap (λ (x : Db). x.peers) (sym (insert_peer_inv e.peer c.0 d a.0).1)
                ∙ ap (λ (x : Db). x.peers ++ e.peer ∷ []) (sym q),
            (admit_inv st r token now c.1 c.0 d e k).1,
          ),
          t.0,
          t.1,
        )
  ]
]

-- No row holds the token.
abbrev pub is_held : String → List Peer → Bool
is_held token ps = any (λ q. q.token_hash == token) ps

find-append :
    (token : String) (p : Peer) (ps : List Peer)
    → is_held token ps ≡ false
    → bears token p ≡ true
    → find (bears token) (ps ++ p ∷ []) ≡ some p
find-append token p [] n b = ground arith
find-append token p (q ∷ qs) n b = ground (arith, find-append token p qs)

find-replace :
    (token : String) (p : Peer) (ps : List Peer)
    → is_held token ps ≡ false
    → bears token p ≡ true
    → In p.id (peer_ids ps)
    → find (bears token) (replace_peer p ps) ≡ some p
find-replace token p [] n b m = absurd m
find-replace token p (q ∷ qs) n b (inl m) = ground (arith, nat_eq_iff q.id p.id)
find-replace token p (q ∷ qs) n b (inr m) = ground (arith, find-replace token p qs)

find_written :
    (token : String) (e : Enrolled) (ps qs : List Peer)
    → is_held token ps ≡ false
    → bears token e.peer ≡ true
    → IsWritten e ps qs
    → find (bears token) qs ≡ some e.peer
find_written token e ps qs n b (inl (w, c)) =
    ap (find (bears token)) w ∙ find-append token e.peer ps n b
find_written token e ps qs n b (inr (w, m)) =
    ap (find (bears token)) w ∙ find-replace token e.peer ps n b m

-- The rows other than that of the peer `i` do not hold the token.
abbrev pub held_elsewhere : String → ℕ → List Peer → Bool
held_elsewhere token i ps = any (λ q. (q.token_hash == token) && not (nat_eq q.id i)) ps

find_gone :
    (old : String) (p : Peer) (ps : List Peer)
    → held_elsewhere old p.id ps ≡ false
    → (p.token_hash == old) ≡ false
    → find (bears old) (replace_peer p ps) ≡ none
find_gone old p [] n b = refl
find_gone old p (q ∷ qs) n b = ground (arith, find_gone old p qs)

gone_written :
    (old : String) (e : Enrolled) (ps qs : List Peer)
    → held_elsewhere old e.peer.id ps ≡ false
    → (e.peer.token_hash == old) ≡ false
    → e.created ≡ false
    → IsWritten e ps qs
    → find (bears old) qs ≡ none
gone_written old e ps qs n b c (inl (w, d)) = ground arith
gone_written old e ps qs n b c (inr (w, m)) = ap (find (bears old)) w ∙ find_gone old e.peer ps n b

-- After an enrollment that succeeded with a token that no row held before, where the peer is not
-- revoked: the token authenticates as the enrolled peer, under its overlay address, at any time up
-- to the TTL later or where there is no TTL, and is refused as expired after that.
pub authenticate_peer-enroll :
    (st : Settings) (r : Request) (token : String) (now : ℕ) (db : Db) (e : Enrolled)
    (ttl later : ℕ)
    → (enroll st r token now db).1 ≡ ok e
    → is_held token db.peers ≡ false
    → is_active e.peer ≡ true
    → authenticate_peer ttl token later (enroll st r token now db).0 ≡ (
        if ltb 0 ttl && ltb ttl (later - now)
        then refused expired_token
        else admitted e.peer.id e.peer.assigned_ip)
unfolding enroll transact authenticate_peer
authenticate_peer-enroll st r token now db e ttl later h n a =
    let d = (enroll st r token now db).0 in
    let b : enroll_body st r token now db ≡ ok (d, e) =
      settle_inv db (enroll_body st r token now db) e h in
    let w = enroll-IsWritten st r token now db d e b in
    let t : bears token e.peer ≡ true = ground (arith, w.1, ==_iff e.peer.token_hash token) in
    ground (arith, w.2, find_written token e db.peers d.peers n t w.0)

-- After a repeated enrollment that succeeded, a token other than the new one, which no row but the
-- peer's own held before, is refused as unknown: the peer's old token has stopped working.
pub authenticate_peer-re_enroll :
    (st : Settings) (r : Request) (token old : String) (now : ℕ) (db : Db) (e : Enrolled)
    (ttl later : ℕ)
    → (enroll st r token now db).1 ≡ ok e
    → e.created ≡ false
    → token ≢ old
    → held_elsewhere old e.peer.id db.peers ≡ false
    → authenticate_peer ttl old later (enroll st r token now db).0 ≡ refused unknown_token
unfolding enroll transact authenticate_peer
authenticate_peer-re_enroll st r token old now db e ttl later h c ne g =
    let d = (enroll st r token now db).0 in
    let b : enroll_body st r token now db ≡ ok (d, e) =
      settle_inv db (enroll_body st r token now db) e h in
    let w = enroll-IsWritten st r token now db d e b in
    let t : (e.peer.token_hash == old) ≡ false = ground (arith, w.1, ==_false token old ne) in
    ground (arith, gone_written old e db.peers d.peers g t c w.0)
