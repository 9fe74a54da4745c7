-- ===== src/Store/Valid/Writes.antt =====
-- The writes to `peers` that keep the database well formed.
use mathlib.Core.Path.{subst}
use go_wireguard_mesh.Common.{
  All-imp, List, [], any, arith, false, inl, inr, refl, ◌++◌, ◌∙◌, ◌∷◌, ◌≡◌, sym,
}
use go_wireguard_mesh.Store.{
  Db, Peer, clash, insert_peer, key_ids, next_id, ok, replace_peer, save_peer,
}
use go_wireguard_mesh.Store.Rows.{AllDiffer, clash_comm, collide, other_clash, replace-AllDiffer}
use go_wireguard_mesh.Store.Uses.{In, let_in-replace, owned-In, replace-IsOwned}
use go_wireguard_mesh.Store.Valid.{IsValid, IsWithin}

pub insert_peer_inv :
    (p : Peer) (db d : Db)
    → insert_peer p db ≡ ok d
    → (any (clash p) db.peers ≡ false) × (record db { peers = db.peers ++ p ∷ [] } ≡ d)
unfolding insert_peer
insert_peer_inv p db d h = ground arith

pub save_peer_inv :
    (p : Peer) (db d : Db)
    → save_peer p db ≡ ok d
    → record db { peers = replace_peer p db.peers } ≡ d
unfolding save_peer
save_peer_inv p db d h = ground arith

-- A new version of the row of the table with the same id, under the same setup key, whose
-- columns clash with no other row.
pub replace-IsValid :
    (p q : Peer) (db : Db)
    → In p db.peers
    → q.id ≡ p.id
    → q.setup_key_id ≡ p.setup_key_id
    → any (other_clash q) db.peers ≡ false
    → IsValid db
    → IsValid (record db { peers = replace_peer q db.peers })
replace-IsValid p q db m i k c w = record {
  rows_differ = replace-AllDiffer q db.peers c w.rows_differ;
  keys_differ = w.keys_differ;
  owned =
      replace-IsOwned (next_id (key_ids db.setup_keys)) q db.peers
        (rw k (owned-In (next_id (key_ids db.setup_keys)) p db.peers m w.owned)) w.owned;
  within =
      All-imp (IsWithin db.peers) (IsWithin (replace_peer q db.peers)) db.setup_keys
        (λ x h. (rw (let_in-replace x.id p q db.peers m w.rows_differ i k) (h.0), h.1)) w.within;
}

pub save-IsValid :
    (p q : Peer) (db d : Db)
    → In p db.peers
    → q.id ≡ p.id
    → q.setup_key_id ≡ p.setup_key_id
    → save_peer q db ≡ ok d
    → IsValid db
    → IsValid d
unfolding save_peer
save-IsValid p q db d m i k h w =
    let c : any (other_clash q) db.peers ≡ false = ground arith in
    subst IsValid (save_peer_inv q db d h) (replace-IsValid p q db m i k c w)

-- Whether a new version of a row keeps the columns that a constraint names.
abbrev pub IsSameRow : Peer → Peer → Type 0
IsSameRow q p =
    (q.id ≡ p.id)
    × (q.public_key ≡ p.public_key)
    × (q.assigned_ip ≡ p.assigned_ip)
    × (q.assigned_ip6 ≡ p.assigned_ip6)
    × (q.setup_key_id ≡ p.setup_key_id)

same_clash : (q p r : Peer) → IsSameRow q p → other_clash q r ≡ other_clash p r
same_clash q p r s = ground (arith, s.0, s.1, s.2, s.3)

no_clash_differs :
    (p : Peer) (qs : List Peer) → any (collide p) qs ≡ false → any (other_clash p) qs ≡ false
no_clash_differs p [] h = refl
no_clash_differs p (q ∷ qs) h = ground (arith, no_clash_differs p qs)

In-no_clash :
    (p r : Peer) (qs : List Peer) → In p qs → any (collide r) qs ≡ false → other_clash p r ≡ false
In-no_clash p r [] m h = absurd m
In-no_clash p r (q ∷ qs) (inl e) h = rw e (ground (arith, clash_comm q r))
In-no_clash p r (q ∷ qs) (inr m) h = ground (arith, In-no_clash p r qs m)

pub own_no_clash :
    (p : Peer) (qs : List Peer) → In p qs → AllDiffer qs → any (other_clash p) qs ≡ false
own_no_clash p [] m w = absurd m
own_no_clash p (q ∷ qs) (inl e) w =
    subst (λ (x : Peer). any (other_clash x) (q ∷ qs) ≡ false) (sym e)
      (ground (arith, no_clash_differs q qs, w.0))
own_no_clash p (q ∷ qs) (inr m) w =
    ground (arith, In-no_clash p q qs m w.0, own_no_clash p qs m w.1)

pub same_no_clash :
    (q p : Peer) (rs : List Peer) → IsSameRow q p → any (other_clash q) rs ≡ any (other_clash p) rs
same_no_clash q p [] s = refl
same_no_clash q p (r ∷ rs) s = ground (arith, same_clash q p r s, same_no_clash q p rs s)

pub update-IsValid :
    (p q : Peer) (db : Db)
    → In p db.peers
    → IsSameRow q p
    → IsValid db
    → IsValid (record db { peers = replace_peer q db.peers })
update-IsValid p q db m s w =
    replace-IsValid p q db m s.0 s.4
      (same_no_clash q p db.peers s ∙ own_no_clash p db.peers m w.rows_differ) w
