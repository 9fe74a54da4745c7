-- ===== src/Store/Valid.antt =====
-- The well-formedness of the database, and that setup keys let in no more peers than they may.
pub mod Writes
pub mod Consumption
pub mod Enrolling
pub mod Admin
pub mod PeerRows
pub mod Life
pub mod Chains
use go_wireguard_mesh.Common.{
  All, Bool, List, String, [], any, arith, false, find, nat_eq, nat_key, or_else, refl, some,
  text_key, ℕ, ◌<◌, ◌==◌, ◌||◌, ◌∷◌, ◌≡◌, ◌≤◌,
}
use go_wireguard_mesh.Store.{
  Db, Peer, SetupKey, exhausted_key, expired_key, key_ids, next_id, other_key, peer_by_key,
  revoked_key, unknown_key,
}
use go_wireguard_mesh.Store.SetupKeys.{
  consume, consume_key, consumed, create_named_setup_key, diagnose_key, revoke_key,
  revoke_setup_key, insert_key, new_key,
}
use go_wireguard_mesh.Store.Rows.{AllDiffer}
use go_wireguard_mesh.Store.Uses.{IsOwned, let_in}

abbrev pub key_clash : SetupKey → SetupKey → Bool
key_clash j k = nat_eq j.id k.id || (j.key == k.key)

abbrev pub KeysDiffer : List SetupKey → Type 0
KeysDiffer [] = Unit
KeysDiffer (k ∷ ks) = (any (key_clash k) ks ≡ false) × KeysDiffer ks

-- The key let in as many peers as it has uses consumed, or fewer, and consumed no more uses than
-- it has.
abbrev pub IsWithin : List Peer → SetupKey → Type 0
IsWithin ps k =
    (let_in k.id ps ≤ k.uses_consumed) × (k.uses_consumed ≤ or_else k.max_uses k.uses_consumed)

pub record IsValid (db : Db) : Type 0 where
  pub rows_differ : AllDiffer db.peers
  pub keys_differ : KeysDiffer db.setup_keys
  pub owned : All (IsOwned (next_id (key_ids db.setup_keys))) db.peers
  pub within : All (IsWithin db.peers) db.setup_keys

pub key_below :
    (f : SetupKey → Bool) (ks : List SetupKey) (k : SetupKey)
    → find f ks ≡ some k
    → k.id < next_id (key_ids ks)
key_below f [] k e = cc
key_below f (j ∷ js) k e = ground (arith, key_below f js k)

pub consume-ids :
    (key : String) (now : ℕ) (ks : List SetupKey) → key_ids (consume key now ks) ≡ key_ids ks
consume-ids key now [] = refl
consume-ids key now (k ∷ ks) = ground (arith, consume-ids key now ks)

consume-clash :
    (key : String) (now : ℕ) (j : SetupKey) (ks : List SetupKey)
    → any (key_clash j) (consume key now ks) ≡ any (key_clash j) ks
consume-clash key now j [] = refl
consume-clash key now j (k ∷ ks) = ground (arith, consume-clash key now j ks)

pub consume-KeysDiffer :
    (key : String) (now : ℕ) (ks : List SetupKey) → KeysDiffer ks → KeysDiffer (consume key now ks)
consume-KeysDiffer key now [] w = tt
consume-KeysDiffer key now (k ∷ ks) w = ground (
  arith,
  consume-clash key now k ks,
  consume-clash key now (consumed k) ks,
  consume-KeysDiffer key now ks w.1,
  w.0,
)
