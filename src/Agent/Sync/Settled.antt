-- ===== src/Agent/Sync/Settled.antt =====
-- What a sync leaves behind, on a device that carries changes out as WireGuard documents it.
use go_wireguard_mesh.Common.{
  Key, List, Option, [], arith, bytes_key, false, if◌then◌else◌, is_some, lookup, nat_key, none,
  or_else, refl, some, text_key, true, ℕ, ◌++◌, ◌||◌, ◌∙◌, ◌∷◌, ◌≡◌, ◌⊎◌, ==_refl, Option-cases,
  String, inl, inr,
}
use go_wireguard_mesh.Agent.Sync.{
  DevicePeer, PeerConfig, differs_from, endpoint_stale, index_device, other_endpoint, update_of,
}
use go_wireguard_mesh.Agent.Sync.Networks.{SameItems}
use go_wireguard_mesh.Agent.Sync.Changes.{IsWanted, changes_of}

endpoint_same : (o : Option String) (s : String) → o ≡ some s → other_endpoint o s ≡ false
endpoint_same none s h = cc
endpoint_same (some d) s h = ground (arith, ==_refl s)

module _ {N : Type 0} ⦃e : Key N⦄ where
  -- The device has what is wanted of a peer. The endpoint is left alone once there was a handshake.
  abbrev pub IsSettled : DevicePeer N → PeerConfig N → Type 0
  IsSettled cur want =
      SameItems cur.allowed_ips want.allowed_ips
      × (cur.preshared_key ≡ or_else want.preshared_key 0)
      × (differs_from want.keepalive cur.keepalive ≡ false)
      × (endpoint_stale cur want ≡ false)

  abbrev pub Matches : Option (DevicePeer N) → Option (PeerConfig N) → Type 0
  Matches none none = Unit
  Matches none (some want) = ⊥
  Matches (some cur) none = ⊥
  Matches (some cur) (some want) = IsSettled cur want

  -- A peer that a `PeerConfig` adds.
  abbrev pub added : PeerConfig N → DevicePeer N
  added c = record {
    public_key = c.public_key;
    allowed_ips = c.allowed_ips;
    preshared_key = or_else c.preshared_key 0;
    keepalive = or_else c.keepalive 0;
    endpoint = c.endpoint;
    handshaken = false;
  }

  -- A peer that a `PeerConfig` updates.
  abbrev pub updated : PeerConfig N → DevicePeer N → DevicePeer N
  updated c p = record p {
    allowed_ips = if c.replace_allowed_ips then c.allowed_ips else p.allowed_ips ++ c.allowed_ips;
    preshared_key = or_else c.preshared_key p.preshared_key;
    keepalive = or_else c.keepalive p.keepalive;
    endpoint = if is_some c.endpoint then c.endpoint else p.endpoint;
  }

  -- One `PeerConfig`, as WireGuard documents it.
  abbrev pub configured : PeerConfig N → Option (DevicePeer N) → Option (DevicePeer N)
  configured c none = if c.remove || c.update_only then none else some (added c)
  configured c (some p) = if c.remove then none else some (updated c p)

  abbrev pub all_configured : List (PeerConfig N) → Option (DevicePeer N) → Option (DevicePeer N)
  all_configured [] p = p
  all_configured (c ∷ cs) p = all_configured cs (configured c p)

  -- The peer `q` that is shown is `p`, but for the order of its networks and for what traffic
  -- changes: a first handshake, and after one the endpoint.
  abbrev pub IsAlike : DevicePeer N → DevicePeer N → Type 0
  IsAlike p q =
      SameItems q.allowed_ips p.allowed_ips
      × (q.preshared_key ≡ p.preshared_key)
      × (q.keepalive ≡ p.keepalive)
      × ((q.handshaken ≡ true) ⊎ ((q.handshaken ≡ p.handshaken) × (q.endpoint ≡ p.endpoint)))

  abbrev pub Shows : Option (DevicePeer N) → Option (DevicePeer N) → Type 0
  Shows none none = Unit
  Shows none (some q) = ⊥
  Shows (some p) none = ⊥
  Shows (some p) (some q) = IsAlike p q

  -- The device carried out the changes `cs`: of `ps` it has made `qs`.
  abbrev pub IsApplied : List (PeerConfig N) → List (DevicePeer N) → List (DevicePeer N) → Type 0
  IsApplied cs ps qs =
      (k : ℕ)
      → Shows (all_configured (changes_of k cs) (lookup k (index_device [] ps)))
          (lookup k (index_device [] qs))

  alike-IsSettled :
      (p q : DevicePeer N) (want : PeerConfig N) → IsAlike p q → IsSettled p want → IsSettled q want
  alike-IsSettled p q want h s = (λ n. h.0 n ∙ s.0 n, h.1 ∙ s.1, ground arith, ground arith)

  pub alike-Matches :
      (p q : Option (DevicePeer N)) (want : Option (PeerConfig N))
      → Shows p q
      → Matches p want
      → Matches q want
  alike-Matches none none want h s = s
  alike-Matches none (some q) want h s = elim h [ ]
  alike-Matches (some p) none want h s = elim h [ ]
  alike-Matches (some p) (some q) none h s = s
  alike-Matches (some p) (some q) (some want) h s = alike-IsSettled p q want h s

  pub added-IsSettled : (c : PeerConfig N) → IsSettled (added c) c
  added-IsSettled c = elim (Option-cases c.endpoint) [
    | inl h ↦ (
      λ n. refl,
      refl,
      elim (Option-cases c.keepalive) [ inl k ↦ ground arith | inr k ↦ ground arith ],
      ground arith,
    )
    | inr (s, h) ↦ (
      λ n. refl,
      refl,
      elim (Option-cases c.keepalive) [ inl k ↦ ground arith | inr k ↦ ground arith ],
      ground (arith, endpoint_same c.endpoint s h),
    )
  ]

  pub updated-IsSettled :
      (p : DevicePeer N) (c : PeerConfig N) → IsWanted c → IsSettled (updated (update_of p c) p) c
  updated-IsSettled p c w = (
    λ n. refl,
    ground arith,
    elim (Option-cases c.keepalive) [ inl k ↦ ground arith | inr k ↦ ground arith ],
    elim (Option-cases c.endpoint) [
      | inl h ↦ ground arith
      | inr (s, h) ↦ ground (arith, endpoint_same c.endpoint s h)
    ],
  )
