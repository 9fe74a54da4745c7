-- ===== src/Store/Enroll/Settled.antt =====
-- What a repeated enrollment needs, and that it then succeeds.
use mathlib.Core.Path.{subst}
use go_wireguard_mesh.Common.{
  ==_refl, List, String, [], any, arith, false, find, inl, inr, nat_key, none, refl, some, sym,
  text_key, true, ℕ, ◌==◌, ◌∷◌, ◌≡◌, ap, ◌∙◌,
}
use go_wireguard_mesh.Store.{
  Db, Peer, ok, peer_by_key, port_ok, replace_peer, save_peer, transact, settle,
}
use go_wireguard_mesh.Store.Enroll.{
  Request, Settings, backfill, check_key, enroll, enroll_body, enrolled, port_of, refreshed, finish,
  re_enroll,
}
use go_wireguard_mesh.Store.Rows.{AllDiffer, collide}
use go_wireguard_mesh.Store.Uses.{In}
use go_wireguard_mesh.Store.Valid.Writes.{own_no_clash, same_no_clash}
use go_wireguard_mesh.Store.Enroll.Again.{re_enroll_ok, is_missing}

-- A row of the table that a repetition with this key finds in order.
pub record IsSettled (st : Settings) (key : String) (d : Db) (p : Peer) : Type 0 where
  pub present : In p d.peers
  pub allowed : check_key key p d ≡ none
  pub addressed : is_missing st p.assigned_ip6 ≡ false
  pub port : port_ok p.listen_port ≡ true

clash-In :
    (p q : Peer) (qs : List Peer)
    → In p qs
    → any (collide q) qs ≡ false
    → (q.public_key == p.public_key) ≡ false
clash-In p q [] m h = absurd m
clash-In p q (x ∷ xs) (inl e) h = rw e (ground arith)
clash-In p q (x ∷ xs) (inr m) h = ground (arith, clash-In p q xs m)

find_present :
    (p : Peer) (ps : List Peer)
    → In p ps
    → AllDiffer ps
    → find (λ q. q.public_key == p.public_key) ps ≡ some p
find_present p [] m w = absurd m
find_present p (q ∷ qs) (inl e) w =
    subst (λ (x : Peer). find (λ y. y.public_key == x.public_key) (q ∷ qs) ≡ some x) (sym e)
      (ground (arith, ==_refl q.public_key))
find_present p (q ∷ qs) (inr m) w = ground (arith, clash-In p q qs m w.0, find_present p qs m w.1)

-- The repetition writes the row again.
abbrev again : Request → String → ℕ → Peer → Peer
again r token now p = refreshed r token now none p

no_backfill :
    (st : Settings) (key : String) (d : Db) (p : Peer)
    → IsSettled st key d p
    → backfill st p d ≡ ok none
no_backfill st key d p s = ground (arith, s.addressed)

again_saved :
    (st : Settings) (r : Request) (token : String) (now : ℕ) (d : Db) (p : Peer)
    → AllDiffer d.peers
    → port_ok (port_of r.listen_port) ≡ true
    → IsSettled st r.setup_key d p
    → save_peer (again r token now p) d
      ≡ ok (record d { peers = replace_peer (again r token now p) d.peers })
unfolding save_peer
again_saved st r token now d p w po s = ground (
  arith,
  s.port,
  same_no_clash (again r token now p) p d.peers (refl, refl, refl, refl, refl),
  own_no_clash p d.peers s.present w,
)

known :
    (st : Settings) (r : Request) (token : String) (now : ℕ) (d : Db) (p : Peer)
    → peer_by_key r.public_key d ≡ some p
    → enroll_body st r token now d ≡ re_enroll st r token now p d
unfolding enroll_body
known st r token now d p e = ground arith

-- What a repetition answers, and the tables behind it.
pub repeated :
    (st : Settings) (r : Request) (token : String) (now : ℕ) (d : Db) (p : Peer)
    → AllDiffer d.peers
    → p.public_key ≡ r.public_key
    → port_ok (port_of r.listen_port) ≡ true
    → IsSettled st r.setup_key d p
    → let q = again r token now p in
      let c = record d { peers = replace_peer q d.peers } in
      enroll st r token now d ≡ (c, ok (enrolled st q false c))
unfolding enroll transact
repeated st r token now d p w k po s =
    let f : peer_by_key r.public_key d ≡ some p =
      subst (λ (x : String). peer_by_key x d ≡ some p) k (find_present p d.peers s.present w) in
    ap (settle d) (
      known st r token now d p f
      ∙ re_enroll_ok st r token now p d none s.allowed (no_backfill st r.setup_key d p s)
      ∙ ap (finish st (again r token now p) false) (again_saved st r token now d p w po s))
