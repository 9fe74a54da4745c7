-- ===== src/Store/Rows.antt =====
-- The UNIQUE constraints of `peers` over the writes that the engine admits.
use mathlib.Core.Path.{subst}
use go_wireguard_mesh.Common.{
  text_key, ==_comm, Bool, List, Option, [], any, arith, false, nat_eq, none, refl, some, ℕ, ◌++◌,
  ◌||◌, ◌∷◌, ◌≡◌, ◌≤◌, Bool-cases, inl, inr, not, ◌&&◌,
}
use go_wireguard_mesh.Store.{
  Db, Peer, clash, insert_peer, next_id, ok, peer_ids, same_address, replace_peer, save_peer,
}

-- Two rows that share an id, a key or an address.
abbrev pub collide : Peer → Peer → Bool
collide p q = nat_eq p.id q.id || clash p q

-- No two rows of the table share an id, a key or an address.
abbrev pub AllDiffer : List Peer → Type 0
AllDiffer [] = Unit
AllDiffer (p ∷ ps) = (any (collide p) ps ≡ false) × AllDiffer ps

same_address_comm : (a b : Option ℕ) → same_address a b ≡ same_address b a
same_address_comm none none = refl
same_address_comm none (some b) = refl
same_address_comm (some a) none = refl
same_address_comm (some a) (some b) = ground arith

pub clash_comm : (p q : Peer) → clash p q ≡ clash q p
clash_comm p q =
    ground
      (arith, ==_comm p.public_key q.public_key, same_address_comm p.assigned_ip6 q.assigned_ip6)

pub any_append :
    {A : Type 0} (f : A → Bool) (xs ys : List A) → any f (xs ++ ys) ≡ any f xs || any f ys
any_append f [] ys = refl
any_append f (x ∷ xs) ys = ground (arith, any_append f xs ys)

pub append-AllDiffer :
    (p : Peer) (ps : List Peer)
    → any (collide p) ps ≡ false
    → AllDiffer ps
    → AllDiffer (ps ++ p ∷ [])
append-AllDiffer p [] h w = (refl, tt)
append-AllDiffer p (q ∷ qs) h w =
    ground (arith, clash_comm p q, any_append (collide q) qs (p ∷ []), append-AllDiffer p qs)

below_next :
    (i : ℕ) (ps : List Peer) → next_id (peer_ids ps) ≤ i → any (λ q. nat_eq i q.id) ps ≡ false
below_next i [] h = refl
below_next i (q ∷ qs) h = ground (arith, below_next i qs)

pub new_row :
    (p : Peer) (ps : List Peer)
    → next_id (peer_ids ps) ≤ p.id
    → any (clash p) ps ≡ false
    → any (collide p) ps ≡ false
new_row p [] l h = refl
new_row p (q ∷ qs) l h = ground (arith, new_row p qs)

-- A row with a new id that the engine admits keeps the rows apart.
pub insert_peer-AllDiffer :
    (p : Peer) (db d : Db)
    → next_id (peer_ids db.peers) ≤ p.id
    → insert_peer p db ≡ ok d
    → AllDiffer db.peers
    → AllDiffer d.peers
unfolding insert_peer
insert_peer-AllDiffer p db d l h w =
    let f : any (clash p) db.peers ≡ false = ground arith in
    let e : db.peers ++ p ∷ [] ≡ d.peers = ground arith in
    subst AllDiffer e (append-AllDiffer p db.peers (new_row p db.peers l f) w)

-- The rows that `save_peer` checks the new row against.
abbrev pub other_clash : Peer → Peer → Bool
other_clash p q = not (nat_eq q.id p.id) && clash p q

replace_none :
    (p : Peer) (qs : List Peer) (f : Peer → Bool)
    → any (λ q. nat_eq p.id q.id) qs ≡ false
    → any f (replace_peer p qs) ≡ any f qs
replace_none p [] f h = refl
replace_none p (q ∷ qs) f h = ground (arith, replace_none p qs f)

any-collide_id :
    (p : Peer) (qs : List Peer)
    → any (collide p) qs ≡ false
    → any (λ q. nat_eq p.id q.id) qs ≡ false
any-collide_id p [] h = refl
any-collide_id p (q ∷ qs) h = ground (arith, any-collide_id p qs)

id_only :
    (p q : Peer) (qs : List Peer)
    → p.id ≡ q.id
    → any (λ r. nat_eq p.id r.id) qs ≡ any (λ r. nat_eq q.id r.id) qs
id_only p q [] e = refl
id_only p q (r ∷ rs) e = ground (arith, id_only p q rs)

no_other :
    (p : Peer) (qs : List Peer)
    → any (λ q. nat_eq p.id q.id) qs ≡ false
    → any (other_clash p) qs ≡ false
    → any (collide p) qs ≡ false
no_other p [] h k = refl
no_other p (q ∷ qs) h k = ground (arith, no_other p qs)

replace_other :
    (p q : Peer) (qs : List Peer)
    → collide q p ≡ false
    → any (collide q) qs ≡ false
    → any (collide q) (replace_peer p qs) ≡ false
replace_other p q [] h k = refl
replace_other p q (r ∷ rs) h k = ground (arith, replace_other p q rs)

pub replace-AllDiffer :
    (p : Peer) (qs : List Peer)
    → any (other_clash p) qs ≡ false
    → AllDiffer qs
    → AllDiffer (replace_peer p qs)
replace-AllDiffer p [] h w = tt
replace-AllDiffer p (q ∷ qs) h w = elim (Bool-cases (nat_eq q.id p.id)) [
  | inl e ↦
      let i : any (λ r. nat_eq p.id r.id) qs ≡ false =
        ground (arith, any-collide_id q qs w.0, id_only p q qs) in
      ground (arith, replace_none p qs (collide p) i, no_other p qs i, replace-AllDiffer p qs, w.1)
  | inr e ↦ ground (arith, clash_comm p q, replace_other p q qs, replace-AllDiffer p qs, w.0, w.1)
]

-- An update that the engine admits keeps the rows apart.
pub save_peer-AllDiffer :
    (p : Peer) (db d : Db) → save_peer p db ≡ ok d → AllDiffer db.peers → AllDiffer d.peers
unfolding save_peer
save_peer-AllDiffer p db d h w =
    let f : any (other_clash p) db.peers ≡ false = ground arith in
    let e : replace_peer p db.peers ≡ d.peers = ground arith in
    subst AllDiffer e (replace-AllDiffer p db.peers f w)
