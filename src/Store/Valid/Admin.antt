-- ===== src/Store/Valid/Admin.antt =====
-- The operations of the administrator keep the database well formed.
use mathlib.Core.Path.{subst}
use go_wireguard_mesh.Common.{
  All, All-append, All-imp, List, Option, String, [], any, arith, false, nat_key, or_else, refl,
  some, text_key, ℕ, ◌++◌, ◌+◌, ◌==◌, ◌∷◌, ◌≡◌, ◌≤◌, inl, inr,
}
use go_wireguard_mesh.Store.{AclRule, Db, Peer, SetupKey, key_ids, next_id, ok, Result-cases}
use go_wireguard_mesh.Store.SetupKeys.{create_named_setup_key, revoke_key, insert_key, new_key}
use go_wireguard_mesh.Store.Peers.{delete_peer, detached}
use go_wireguard_mesh.Store.Rows.{AllDiffer, any_append, collide}
use go_wireguard_mesh.Store.Uses.{IsOwned, delete-IsOwned, let_in, let_in-delete, let_in_fresh}
use go_wireguard_mesh.Store.Valid.{IsValid, IsWithin, KeysDiffer, key_clash}

-- A new key row.
key_new :
    (k : SetupKey) (ks : List SetupKey)
    → next_id (key_ids ks) ≤ k.id
    → any (λ j. j.key == k.key) ks ≡ false
    → KeysDiffer ks
    → KeysDiffer (ks ++ k ∷ [])
key_new k [] l h w = (refl, tt)
key_new k (j ∷ js) l h w = ground (arith, any_append (key_clash j) js (k ∷ []), key_new k js)

pub next_id-append :
    (k : SetupKey) (ks : List SetupKey)
    → next_id (key_ids ks) ≤ k.id
    → next_id (key_ids (ks ++ k ∷ [])) ≡ k.id + 1
next_id-append k [] l = ground arith
next_id-append k (j ∷ js) l = ground (arith, next_id-append k js)

IsOwned-more : (m n : ℕ) (ps : List Peer) → m ≤ n → All (IsOwned m) ps → All (IsOwned n) ps
IsOwned-more m n ps l h = All-imp (IsOwned m) (IsOwned n) ps (λ p b. omega arith) h

-- A key row with a new id and a new text, that no peer was let in under.
pub add_key-IsValid :
    (k : SetupKey) (db : Db)
    → k.id ≡ next_id (key_ids db.setup_keys)
    → any (λ j. j.key == k.key) db.setup_keys ≡ false
    → k.uses_consumed ≤ or_else k.max_uses k.uses_consumed
    → IsValid db
    → IsValid (record db { setup_keys = db.setup_keys ++ k ∷ [] })
add_key-IsValid k db i t u w =
    let n : next_id (key_ids (db.setup_keys ++ k ∷ [])) ≡ k.id + 1 =
      next_id-append k db.setup_keys (omega (arith, i)) in
    let z : let_in k.id db.peers ≡ 0 =
      rw i (let_in_fresh (next_id (key_ids db.setup_keys)) db.peers w.owned) in
    record {
      rows_differ = w.rows_differ;
      keys_differ = key_new k db.setup_keys (omega (arith, i)) t w.keys_differ;
      owned =
          IsOwned-more (next_id (key_ids db.setup_keys))
            (next_id (key_ids (db.setup_keys ++ k ∷ []))) db.peers (omega (arith, n, i)) w.owned;
      within =
          All-append (IsWithin db.peers) db.setup_keys (k ∷ []) w.within
            ((omega (arith, z), u), tt);
    }

pub insert_key-IsValid :
    (k : SetupKey) (db d : Db)
    → k.id ≡ next_id (key_ids db.setup_keys)
    → k.uses_consumed ≤ or_else k.max_uses k.uses_consumed
    → insert_key k db ≡ ok d
    → IsValid db
    → IsValid d
unfolding insert_key
insert_key-IsValid k db d i u h w =
    let e : record db { setup_keys = db.setup_keys ++ k ∷ [] } ≡ d = ground arith in
    let t : any (λ j. j.key == k.key) db.setup_keys ≡ false = ground arith in
    subst IsValid e (add_key-IsValid k db i t u w)

pub create_key-IsValid :
    (key name : String) (max_uses : ℕ) (expires : Option ℕ) (db d : Db) (s : String)
    → create_named_setup_key key name max_uses expires db ≡ ok (d, s)
    → IsValid db
    → IsValid d
unfolding create_named_setup_key
create_key-IsValid key name max_uses expires db d s h w =
    let k : SetupKey = new_key (next_id (key_ids db.setup_keys)) key name max_uses expires in
    elim (Result-cases (insert_key k db)) [
      | inr (x, e) ↦ absurd (ground arith)
      | inl (c, e) ↦
          let q : c ≡ d = ground arith in
          subst IsValid q (insert_key-IsValid k db c refl (omega arith) e w)
    ]

revoke-ids : (i now : ℕ) (ks : List SetupKey) → key_ids (revoke_key i now ks) ≡ key_ids ks
revoke-ids i now [] = refl
revoke-ids i now (k ∷ ks) = ground (arith, revoke-ids i now ks)

revoke-clash :
    (i now : ℕ) (j : SetupKey) (ks : List SetupKey)
    → any (key_clash j) (revoke_key i now ks) ≡ any (key_clash j) ks
revoke-clash i now j [] = refl
revoke-clash i now j (k ∷ ks) = ground (arith, revoke-clash i now j ks)

revoke-KeysDiffer :
    (i now : ℕ) (ks : List SetupKey) → KeysDiffer ks → KeysDiffer (revoke_key i now ks)
revoke-KeysDiffer i now [] w = tt
revoke-KeysDiffer i now (k ∷ ks) w = ground (
  arith,
  revoke-clash i now k ks,
  revoke-clash i now (record k { revoked_at = some now }) ks,
  revoke-KeysDiffer i now ks w.1,
  w.0,
)

revoke-within :
    (i now : ℕ) (ps : List Peer) (ks : List SetupKey)
    → All (IsWithin ps) ks
    → All (IsWithin ps) (revoke_key i now ks)
revoke-within i now ps [] w = tt
revoke-within i now ps (k ∷ ks) w = ground (arith, revoke-within i now ps ks w.1, w.0.0, w.0.1)

pub revoke_keys-IsValid :
    (i now : ℕ) (db : Db)
    → IsValid db
    → IsValid (record db { setup_keys = revoke_key i now db.setup_keys })
revoke_keys-IsValid i now db w = record {
  rows_differ = w.rows_differ;
  keys_differ = revoke-KeysDiffer i now db.setup_keys w.keys_differ;
  owned = rw (revoke-ids i now db.setup_keys) (w.owned);
  within = revoke-within i now db.peers db.setup_keys w.within;
}

detach-clash :
    (i : ℕ) (q : Peer) (ps : List Peer)
    → any (collide q) ps ≡ false
    → any (collide (detached i q)) (delete_peer i ps) ≡ false
detach-clash i q [] h = refl
detach-clash i q (p ∷ ps) h = ground (arith, detach-clash i q ps)

delete-AllDiffer : (i : ℕ) (ps : List Peer) → AllDiffer ps → AllDiffer (delete_peer i ps)
delete-AllDiffer i [] w = tt
delete-AllDiffer i (p ∷ ps) w = ground (arith, detach-clash i p ps, delete-AllDiffer i ps w.1, w.0)

pub delete-IsValid :
    (i : ℕ) (rules : List AclRule) (db : Db)
    → IsValid db
    → IsValid (record db { peers = delete_peer i db.peers; acl_rules = rules })
delete-IsValid i rules db w = record {
  rows_differ = delete-AllDiffer i db.peers w.rows_differ;
  keys_differ = w.keys_differ;
  owned = delete-IsOwned (next_id (key_ids db.setup_keys)) i db.peers w.owned;
  within =
      All-imp (IsWithin db.peers) (IsWithin (delete_peer i db.peers)) db.setup_keys
        (λ k h. (omega (arith, let_in-delete k.id i db.peers, h.0), h.1)) w.within;
}
