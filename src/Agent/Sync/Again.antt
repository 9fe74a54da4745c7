-- ===== src/Agent/Sync/Again.antt =====
-- A sync repeated: the second one finds nothing to change.
use mathlib.Core.Path.{subst}
use go_wireguard_mesh.Common.{
  All, Bool-cases, Bytes, Key, List, Option, [], arith, bytes_key, false, inl, inr, lookup, nat_key,
  none, refl, some, sym, text_key, true, ℕ, ◌||◌, ◌∙◌, ◌≡◌,
}
use go_wireguard_mesh.Agent.Sync.{
  Backend, DevicePeer, PeerConfig, change_for, endpoint_stale, index_desired, index_device,
  peer_needs_update, sync_changes, sync_peers, synced, update_of,
}
use go_wireguard_mesh.Agent.Sync.Networks.{IsPlain, same_allowed_ips_iff}
use go_wireguard_mesh.Agent.Sync.Changes.{
  IsWanted, changes_at, changes_of, lookup-IsWanted, no_changes, sync_changes_at,
}
use go_wireguard_mesh.Agent.Sync.Settled.{
  IsApplied, IsSettled, Matches, added, added-IsSettled, alike-Matches, all_configured, updated,
  updated-IsSettled,
}

module _ {N : Type 0} ⦃e : Key N⦄ where
  module _ (text : N → Bytes) (plain : (n : N) → IsPlain (text n))
      (text_injective : (m n : N) → text m ≡ text n → m ≡ n) where
    needs-IsSettled :
        (p : DevicePeer N) (c : PeerConfig N)
        → peer_needs_update text p c || endpoint_stale p c ≡ false
        → IsSettled p c
    unfolding peer_needs_update
    needs-IsSettled p c h = (
      (same_allowed_ips_iff text plain text_injective p.allowed_ips c.allowed_ips).0 (ground arith),
      ground arith,
      ground arith,
      ground arith,
    )

    settled_needs :
        (p : DevicePeer N) (c : PeerConfig N)
        → IsSettled p c
        → peer_needs_update text p c || endpoint_stale p c ≡ false
    unfolding peer_needs_update
    settled_needs p c h =
        ground (
          arith,
          (same_allowed_ips_iff text plain text_injective p.allowed_ips c.allowed_ips).1 h.0,
        )

    added_changes :
        (k : ℕ) (c : PeerConfig N)
        → IsWanted c
        → some (added c) ≡ all_configured (changes_at text k none (some c)) none
    unfolding change_for
    added_changes k c w = ground arith

    updated_changes :
        (k : ℕ) (p : DevicePeer N) (c : PeerConfig N)
        → IsWanted c
        → peer_needs_update text p c || endpoint_stale p c ≡ true
        → some (updated (update_of p c) p)
          ≡ all_configured (changes_at text k (some p) (some c)) (some p)
    unfolding change_for
    updated_changes k p c w h = ground arith

    kept_changes :
        (k : ℕ) (p : DevicePeer N) (c : PeerConfig N)
        → peer_needs_update text p c || endpoint_stale p c ≡ false
        → some p ≡ all_configured (changes_at text k (some p) (some c)) (some p)
    unfolding change_for
    kept_changes k p c h = ground arith

    -- The changes of a key make its peer match.
    changed-Matches :
        (k : ℕ) (p : Option (DevicePeer N)) (c : Option (PeerConfig N))
        → ((w : PeerConfig N) → c ≡ some w → IsWanted w)
        → Matches (all_configured (changes_at text k p c) p) c
    changed-Matches k none none w = tt
    changed-Matches k (some p) none w = tt
    changed-Matches k none (some c) w =
        subst (λ (o : Option (DevicePeer N)). Matches o (some c)) (added_changes k c (w c refl))
          (added-IsSettled c)
    changed-Matches k (some p) (some c) w =
        elim (Bool-cases (peer_needs_update text p c || endpoint_stale p c)) [
          | inl h ↦
              subst (λ (o : Option (DevicePeer N)). Matches o (some c))
                (updated_changes k p c (w c refl) h) (updated-IsSettled p c (w c refl))
          | inr h ↦
              subst (λ (o : Option (DevicePeer N)). Matches o (some c)) (kept_changes k p c h)
                (needs-IsSettled p c h)
        ]

    matched_changes :
        (k : ℕ) (p : Option (DevicePeer N)) (c : Option (PeerConfig N))
        → Matches p c
        → changes_at text k p c ≡ []
    unfolding change_for
    matched_changes k none none h = refl
    matched_changes k none (some c) h = elim h [ ]
    matched_changes k (some p) none h = elim h [ ]
    matched_changes k (some p) (some c) h = ground (arith, settled_needs p c h)

    -- After the changes of a sync are carried out, every peer matches what is wanted.
    synced-Matches :
        (desired : List (PeerConfig N)) (ps qs : List (DevicePeer N))
        → All IsWanted desired
        → IsApplied (sync_changes text ps desired) ps qs
        → (k : ℕ) → Matches (lookup k (index_device [] qs)) (lookup k (index_desired [] desired))
    synced-Matches desired ps qs w h k =
        alike-Matches
          (all_configured (changes_of k (sync_changes text ps desired))
            (lookup k (index_device [] ps)))
          (lookup k (index_device [] qs)) (lookup k (index_desired [] desired)) (h k)
          (subst
            (λ (cs : List (PeerConfig N)).
              Matches (all_configured cs (lookup k (index_device [] ps)))
                (lookup k (index_desired [] desired)))
            (sym (sync_changes_at text k ps desired w))
            (changed-Matches k (lookup k (index_device [] ps)) (lookup k (index_desired [] desired))
              (λ c f. (lookup-IsWanted k c desired w f).1)))

    unchanged :
        (desired : List (PeerConfig N)) (qs : List (DevicePeer N))
        → All IsWanted desired
        → ((k : ℕ) → Matches (lookup k (index_device [] qs)) (lookup k (index_desired [] desired)))
        → sync_changes text qs desired ≡ []
    unchanged desired qs w h =
        no_changes (sync_changes text qs desired)
          (λ k. sync_changes_at text k qs desired w ∙ matched_changes k _ _ (h k))

    -- Where every wanted peer has a preshared key, the texts of networks hold no comma and tell
    -- networks apart, and the device has carried out the changes of a sync as WireGuard documents
    -- it: the device then has exactly the wanted peers, each with the wanted networks in some
    -- order, the wanted preshared key and the wanted keepalive, and a further sync succeeds
    -- without a call that configures the device.
    pub sync_peers_again :
        {S : Type 0} (b : Backend N S) (desired : List (PeerConfig N)) (t : S)
        (ps qs : List (DevicePeer N))
        → All IsWanted desired
        → b.device t ≡ some qs
        → IsApplied (sync_changes text ps desired) ps qs
        → ((k : ℕ) → Matches (lookup k (index_device [] qs)) (lookup k (index_desired [] desired)))
          × (sync_peers text b desired t ≡ synced t)
    unfolding sync_peers
    sync_peers_again b desired t ps qs w d h = (
      synced-Matches desired ps qs w h,
      ground (arith, unchanged desired qs w (synced-Matches desired ps qs w h)),
    )
