-- ===== src/Store/Enroll/Visible.antt =====
-- Whom `listVisible` shows to whom.
use go_wireguard_mesh.Common.{
  Bool, List, Option, [], any, arith, false, find, nat_eq, none, refl, some, ℕ, ◌∷◌, ◌≡◌,
}
use go_wireguard_mesh.Store.{AclRule, Db, Peer, peer_by_id}
use go_wireguard_mesh.Store.Enroll.{exits_through, is_id, is_visible, names, rule_connects}

names_comm : (o : Option ℕ) (a b : ℕ) → names o a b ≡ names o b a
names_comm none a b = refl
names_comm (some i) a b = ground arith

connects_comm :
    (a b : ℕ) (rs : List AclRule) → any (rule_connects a b) rs ≡ any (rule_connects b a) rs
connects_comm a b [] = refl
connects_comm a b (r ∷ rs) =
    ground (arith, names_comm r.src a b, names_comm r.dst a b, connects_comm a b rs)

find_id : (i : ℕ) (ps : List Peer) (p : Peer) → find (λ q. nat_eq q.id i) ps ≡ some p → p.id ≡ i
find_id i [] p e = cc
find_id i (q ∷ qs) p e = ground (arith, find_id i qs p)

exits_through_found :
    (self other : ℕ) (db : Db) (p : Peer)
    → peer_by_id self db ≡ some p
    → exits_through self other db ≡ is_id p.exit_node other
exits_through_found self other db p e = ground arith

-- Of two active peers, of which neither is the gateway of the other, each is visible to the other
-- or none is: rules and exit nodes connect a pair whichever side asks.
pub is_visible_comm :
    (default_allow : Bool) (db : Db) (p q : Peer)
    → peer_by_id p.id db ≡ some p
    → peer_by_id q.id db ≡ some q
    → p.revoked_at ≡ none
    → q.revoked_at ≡ none
    → is_id p.gateway q.id ≡ false
    → is_id q.gateway p.id ≡ false
    → is_visible default_allow p.id db q ≡ is_visible default_allow q.id db p
unfolding is_visible
is_visible_comm default_allow db p q hp hq rp rq gp gq = ground (
  arith,
  exits_through_found p.id q.id db p hp,
  exits_through_found q.id p.id db q hq,
  connects_comm p.id q.id db.acl_rules,
)
