-- ===== src/Tests/SyncRuns.antt =====
-- Runs of cmd/agent/sync.go: a device with one peer to keep, one to change and one to remove.
use mathlib.Core.Path.{subst}
use go_wireguard_mesh.Common.{
  All, Bool, Bytes, List, [], arith, bytes_key, false, inl, insert, lookup, nat_key, none, refl,
  some, suc, sym, text_key, true, zero, ℕ, ◌+◌, ◌↔◌, ◌∷◌, ◌≡◌, Option,
}
use go_wireguard_mesh.Agent.Sync.{
  Backend, DevicePeer, PeerConfig, change_for, index_desired, index_device, peer_needs_update,
  removal, same_allowed_ips, sync_changes, sync_peers, synced,
}
use go_wireguard_mesh.Agent.Sync.Networks.{IsPlain, SameItems, same_allowed_ips_iff}
use go_wireguard_mesh.Agent.Sync.Changes.{IsWanted, changes_of}
use go_wireguard_mesh.Agent.Sync.Settled.{IsApplied, Matches, Shows, all_configured}
use go_wireguard_mesh.Agent.Sync.Again.{sync_peers_again}

-- A network is a number here, and its text one byte behind the comma.
abbrev text : ℕ → Bytes
text n = (n + 45) ∷ []

plain : (n : ℕ) → IsPlain (text n)
plain n = (ground arith, tt)

text_injective : (m n : ℕ) → text m ≡ text n → m ≡ n
text_injective m n h = ground arith

abbrev shown : ℕ → List ℕ → Bool → DevicePeer ℕ
shown k ips handshaken = record {
  public_key = k;
  allowed_ips = ips;
  preshared_key = 7;
  keepalive = 25;
  endpoint = some "192.0.2.1:51820";
  handshaken = handshaken;
}

abbrev wanted : ℕ → List ℕ → PeerConfig ℕ
wanted k ips = record {
  public_key = k;
  remove = false;
  update_only = false;
  replace_allowed_ips = false;
  allowed_ips = ips;
  preshared_key = some 7;
  keepalive = some 25;
  endpoint = some "198.51.100.1:51820";
}

abbrev before : List (DevicePeer ℕ)
before = shown 1 (5 ∷ 6 ∷ []) true ∷ shown 2 (8 ∷ []) true ∷ shown 3 [] false ∷ []

abbrev desired : List (PeerConfig ℕ)
desired = wanted 1 (6 ∷ 5 ∷ []) ∷ wanted 2 (9 ∷ []) ∷ []

abbrev after : List (DevicePeer ℕ)
after = shown 1 (5 ∷ 6 ∷ []) true ∷ shown 2 (9 ∷ []) true ∷ []

all-IsWanted : All IsWanted desired
all-IsWanted = ((refl, refl, (7, refl)), ((refl, refl, (7, refl)), tt))

abbrev update_2 : PeerConfig ℕ
update_2 = record (wanted 2 (9 ∷ [])) {
  update_only = true;
  replace_allowed_ips = true;
  endpoint = none;
}

changes_run : sync_changes text before desired ≡ removal 3 ∷ update_2 ∷ []
unfolding sync_changes same_allowed_ips peer_needs_update change_for lookup insert
changes_run = refl

-- A device whose state is the list of its peers.
abbrev backend : Backend ℕ (List (DevicePeer ℕ))
backend = record { device = λ s. some s; configure = λ cs s. none }

nothing_shown :
    (cs : List (PeerConfig ℕ)) (p q : Option (DevicePeer ℕ))
    → cs ≡ []
    → p ≡ none
    → q ≡ none
    → Shows (all_configured cs p) q
nothing_shown [] none none h f g = tt
nothing_shown [] none (some q) h f g = cc
nothing_shown [] (some p) q h f g = cc
nothing_shown (c ∷ cs) p q h f g = cc

is_applied :
    (k : ℕ)
    → Shows
        (all_configured
          (changes_of k (removal 3 ∷ update_2 ∷ []))
          (lookup k (index_device [] before)))
        (lookup k (index_device [] after))
unfolding lookup insert
is_applied zero = tt
is_applied (suc zero) = (λ n. refl, refl, refl, inl refl)
is_applied (suc (suc zero)) = (λ n. refl, refl, refl, inl refl)
is_applied (suc (suc (suc zero))) = tt
is_applied (suc (suc (suc (suc k)))) =
    nothing_shown (changes_of (suc (suc (suc (suc k)))) (removal 3 ∷ update_2 ∷ []))
      (lookup (suc (suc (suc (suc k)))) (index_device [] before))
      (lookup (suc (suc (suc (suc k)))) (index_device [] after)) (ground arith) (ground arith)
      (ground arith)

applied : IsApplied (sync_changes text before desired) before after
applied =
    subst (λ (cs : List (PeerConfig ℕ)). IsApplied cs before after) (sym changes_run) is_applied

same_allowed_ips_iff_example :
    (same_allowed_ips text (5 ∷ 6 ∷ []) (6 ∷ 5 ∷ []) ≡ true)
    ↔ SameItems {N = ℕ} (5 ∷ 6 ∷ []) (6 ∷ 5 ∷ [])
same_allowed_ips_iff_example =
    same_allowed_ips_iff text plain text_injective (5 ∷ 6 ∷ []) (6 ∷ 5 ∷ [])

sync_peers_again_example :
    ((k : ℕ) → Matches (lookup k (index_device [] after)) (lookup k (index_desired [] desired)))
    × (sync_peers text backend desired after ≡ synced after)
sync_peers_again_example =
    sync_peers_again text plain text_injective backend desired after before after all-IsWanted refl
      applied
