-- ===== src/Agent/Sync/Changes.antt =====
-- The changes of `syncPeers`, key by key.
use go_wireguard_mesh.Common.{
  All, All-lookup, Bytes, Dict, IsUnique, List, Option, Option-cases, [], arith, bytes_key, false,
  if◌then◌else◌, inl, inr, insert, insert-All, insert-IsUnique, is_some, keep, lookup, nat_eq,
  nat_eq_iff, nat_key, none, refl, some, text_key, ℕ, ◌++◌, ◌∷◌, ◌≡◌,
}
use go_wireguard_mesh.Agent.Sync.{
  DevicePeer, PeerConfig, change_for, index_desired, index_device, removal, removals, sync_changes,
  updates,
}

module _ {N : Type 0} where
  abbrev pub changes_of : ℕ → List (PeerConfig N) → List (PeerConfig N)
  changes_of k = keep (λ c. nat_eq c.public_key k)

  abbrev pub one : Option (PeerConfig N) → List (PeerConfig N)
  one none = []
  one (some c) = c ∷ []

  changes_of-append :
      (k : ℕ) (cs ds : List (PeerConfig N))
      → changes_of k (cs ++ ds) ≡ changes_of k cs ++ changes_of k ds
  changes_of-append k [] ds = refl
  changes_of-append k (c ∷ cs) ds = ground (arith, changes_of-append k cs ds)

  pub no_changes : (cs : List (PeerConfig N)) → ((k : ℕ) → changes_of k cs ≡ []) → cs ≡ []
  no_changes [] h = refl
  no_changes (c ∷ cs) h = ground (arith, h c.public_key)

  -- A wanted peer as `toPeerConfig` makes it for a peer with a preshared key.
  abbrev pub IsWanted : PeerConfig N → Type 0
  IsWanted w =
      (w.remove ≡ false) × (w.update_only ≡ false) × ((psk : ℕ) × (w.preshared_key ≡ some psk))

  abbrev IsEntry : ℕ × PeerConfig N → Type 0
  IsEntry kv = (kv.1.public_key ≡ kv.0) × IsWanted kv.1

  index_device-IsUnique :
      (ps : List (DevicePeer N)) (m : Dict ℕ (DevicePeer N))
      → IsUnique m
      → IsUnique (index_device m ps)
  index_device-IsUnique [] m h = h
  index_device-IsUnique (p ∷ ps) m h =
      index_device-IsUnique ps (insert p.public_key p m) (insert-IsUnique p.public_key p m h)

  index_desired-IsUnique :
      (ps : List (PeerConfig N)) (m : Dict ℕ (PeerConfig N))
      → IsUnique m
      → IsUnique (index_desired m ps)
  index_desired-IsUnique [] m h = h
  index_desired-IsUnique (p ∷ ps) m h =
      index_desired-IsUnique ps (insert p.public_key p m) (insert-IsUnique p.public_key p m h)

  index_desired-All :
      (ps : List (PeerConfig N)) (m : Dict ℕ (PeerConfig N))
      → All IsWanted ps
      → All IsEntry m
      → All IsEntry (index_desired m ps)
  index_desired-All [] m w h = h
  index_desired-All (p ∷ ps) m w h =
      index_desired-All ps (insert p.public_key p m) w.1
        (insert-All IsEntry p.public_key p m (refl, w.0) h)

  pub lookup-IsWanted :
      (k : ℕ) (w : PeerConfig N) (ps : List (PeerConfig N))
      → All IsWanted ps
      → lookup k (index_desired [] ps) ≡ some w
      → IsEntry (k, w)
  lookup-IsWanted k w ps h e =
      All-lookup IsEntry k w (index_desired [] ps) (index_desired-All ps [] h tt) e

  abbrev removal_at : ℕ → Option (DevicePeer N) → List (PeerConfig N)
  removal_at k none = []
  removal_at k (some cur) = removal k ∷ []

  removals_at :
      (k : ℕ) (desired : Dict ℕ (PeerConfig N)) (current : Dict ℕ (DevicePeer N))
      → IsUnique current
      → changes_of k (removals desired current)
        ≡ (if is_some (lookup k desired) then [] else removal_at k (lookup k current))
  unfolding lookup
  removals_at k desired [] h = ground arith
  removals_at k desired ((j, cur) ∷ rest) h =
      ground (arith, nat_eq_iff j k, removals_at k desired rest h.1)

  module _ (text : N → Bytes) where
    abbrev update_at : Option (DevicePeer N) → Option (PeerConfig N) → List (PeerConfig N)
    update_at cur none = []
    update_at cur (some want) = one (change_for text cur want)

    change_for-key :
        (cur : Option (DevicePeer N)) (want c : PeerConfig N)
        → change_for text cur want ≡ some c
        → c.public_key ≡ want.public_key
    unfolding change_for
    change_for-key none want c e = ground arith
    change_for-key (some p) want c e = ground arith

    updates_at :
        (k : ℕ) (current : Dict ℕ (DevicePeer N)) (desired : Dict ℕ (PeerConfig N))
        → IsUnique desired
        → All IsEntry desired
        → changes_of k (updates text current desired)
          ≡ update_at (lookup k current) (lookup k desired)
    unfolding lookup
    updates_at k current [] h w = refl
    updates_at k current ((j, want) ∷ rest) h w =
        elim (Option-cases (change_for text (lookup j current) want)) [
          | inl e ↦ ground (arith, nat_eq_iff j k, updates_at k current rest h.1 w.1)
          | inr (c, e) ↦ ground (
            arith,
            nat_eq_iff j k,
            change_for-key (lookup j current) want c e,
            updates_at k current rest h.1 w.1,
          )
        ]

    -- The changes of the peer that the device shows as the first and that is wanted as the second.
    abbrev pub changes_at : ℕ → Option (DevicePeer N) → Option (PeerConfig N) → List (PeerConfig N)
    changes_at k none none = []
    changes_at k (some cur) none = removal k ∷ []
    changes_at k cur (some want) = one (change_for text cur want)

    changes_join :
        (k : ℕ) (cur : Option (DevicePeer N)) (want : Option (PeerConfig N))
        → (if is_some want then [] else removal_at k cur) ++ update_at cur want
          ≡ changes_at k cur want
    changes_join k none none = refl
    changes_join k (some cur) none = refl
    changes_join k none (some want) = refl
    changes_join k (some cur) (some want) = refl

    pub sync_changes_at :
        (k : ℕ) (ps : List (DevicePeer N)) (desired : List (PeerConfig N))
        → All IsWanted desired
        → changes_of k (sync_changes text ps desired)
          ≡ changes_at k (lookup k (index_device [] ps)) (lookup k (index_desired [] desired))
    unfolding sync_changes
    sync_changes_at k ps desired w = ground (
      arith,
      changes_of-append k (removals (index_desired [] desired) (index_device [] ps))
          (updates text (index_device [] ps) (index_desired [] desired)),
      removals_at k (index_desired [] desired) (index_device [] ps)
          (index_device-IsUnique ps [] tt),
      updates_at k (index_device [] ps) (index_desired [] desired)
          (index_desired-IsUnique desired [] tt) (index_desired-All desired [] w tt),
      changes_join k (lookup k (index_device [] ps)) (lookup k (index_desired [] desired)),
    )
