-- ===== src/Control/Entries/Exclusive.antt =====
-- Every address is allowed for one peer at most: its own or that of its gateway.
use go_wireguard_mesh.Common.{
  Bool, Bool-cases, List, Option-cases, [], any, arith, false, if◌then◌else◌, inl, inr, nat_eq, not,
  refl, true, ℕ, ◌&&◌, ◌+◌, ◌∷◌, ◌≡◌, ◌≤◌, Option, leb, leb→le, none, some,
}
use go_wireguard_mesh.Store.{Peer, same_address}
use go_wireguard_mesh.Store.Rows.{AllDiffer, collide}
use go_wireguard_mesh.Control.Entries.{
  Allowed, is_static, routed_away, routed_by, all4, all6, host4, host6, optional6,
}
use go_wireguard_mesh.Control.Entries.Sums.{away, direct, own, sum, via, times}

-- Whether the row is that of an agent that routes the peer `m`.
abbrev hits : Peer → Peer → Bool
hits m o = not (is_static o) && routed_by o.id m

hits_none :
    (m o : Peer) (n : ℕ) (os : List Peer)
    → hits m o ≡ true
    → any (collide o) os ≡ false
    → sum (λ q. if hits m q then n else 0) os ≡ 0
hits_none m o n [] h c = refl
hits_none m o n (q ∷ qs) h c = elim (Option-cases m.gateway) [
  | inl e ↦ ground arith
  | inr (g, e) ↦ ground (arith, hits_none m o n qs)
]

own6 :
    (o : Option ℕ) (x : ℕ)
    → times (host6 x) (optional6 o) ≡ (if same_address o (some x) then 1 else 0)
own6 none x = refl
own6 (some y) x = ground arith

own6_apart :
    (o q : Option ℕ) (x : ℕ)
    → same_address o q ≡ false
    → same_address o (some x) ≡ true
    → same_address q (some x) ≡ false
own6_apart none q x h k = cc
own6_apart (some y) none x h k = refl
own6_apart (some y) (some z) x h k = ground arith

own6_of : (a : ℕ) (o : Option ℕ) → times (host4 a) (optional6 o) ≡ 0
own6_of a none = refl
own6_of a (some y) = refl

pub own_all : (o : Option ℕ) → (times all4 (optional6 o) ≡ 0) × (times all6 (optional6 o) ≡ 0)
own_all none = (refl, refl)
own_all (some y) = (refl, refl)

own_le : (a : Allowed) (o : Peer) → own a o ≤ 1
own_le (host4 x) o = ground (arith, own6_of x o.assigned_ip6)
own_le (host6 x) o = ground (arith, own6 o.assigned_ip6 x)
own_le all4 o = ground (arith, own_all o.assigned_ip6)
own_le all6 o = ground (arith, own_all o.assigned_ip6)

-- Rows that do not collide hold different addresses.
own_apart : (a : Allowed) (o q : Peer) → collide o q ≡ false → 1 ≤ own a o → own a q ≡ 0
own_apart (host4 x) o q c h = ground (arith, own6_of x o.assigned_ip6, own6_of x q.assigned_ip6)
own_apart (host6 x) o q c h = ground (
  arith,
  own6 o.assigned_ip6 x,
  own6 q.assigned_ip6 x,
  own6_apart o.assigned_ip6 q.assigned_ip6 x,
)
own_apart all4 o q c h = ground (arith, own_all o.assigned_ip6)
own_apart all6 o q c h = ground (arith, own_all o.assigned_ip6)

own_none :
    (a : Allowed) (o : Peer) (os : List Peer)
    → any (collide o) os ≡ false
    → 1 ≤ own a o
    → sum (own a) os ≡ 0
own_none a o [] c h = refl
own_none a o (q ∷ qs) c h =
    omega (arith, own_apart a o q (ground arith) h, own_none a o qs (ground arith) h)

-- An address is held once.
pub own_once : (a : Allowed) (os : List Peer) → AllDiffer os → sum (own a) os ≤ 1
own_once a [] d = omega arith
own_once a (o ∷ os) d = elim (Bool-cases (leb 1 (own a o))) [
  | inl e ↦ omega (arith, own_le a o, own_none a o os d.0 (leb→le 1 (own a o) e))
  | inr e ↦ let z : own a o ≡ 0 = ground arith in omega (arith, z, own_once a os d.1)
]

module _ (self : Peer) (a : Allowed) where
  hit_away :
      (m o : Peer) → hits m o ≡ true → nat_eq o.id self.id ≡ false → routed_away self m ≡ true
  hit_away m o h n = elim (Option-cases m.gateway) [
    | inl e ↦ ground arith
    | inr (g, e) ↦ ground arith
  ]

  -- At most one agent routes a peer, and none that `self` routes.
  hits_once :
      (m : Peer) (n : ℕ) (os : List Peer)
      → AllDiffer os
      → any (λ o. nat_eq o.id self.id) os ≡ false
      → sum (λ q. if hits m q then n else 0) os ≤ (if routed_away self m then n else 0)
  hits_once m n [] d s = ground arith
  hits_once m n (o ∷ os) d s = elim (Bool-cases (hits m o)) [
    | inl h ↦ ground (arith, hits_none m o n os h d.0, hit_away m o h)
    | inr h ↦ ground (arith, hits_once m n os d.1)
  ]

  via_step :
      (m : Peer) (ms : List Peer) (o : Peer)
      → via self a (m ∷ ms) o ≡ (if hits m o then own a m else 0) + via self a ms o
  via_step m ms o = elim (Bool-cases (routed_by o.id m)) [
    | inl e ↦ ground arith
    | inr e ↦ ground arith
  ]

  via_steps :
      (m : Peer) (ms os : List Peer)
      → sum (via self a (m ∷ ms)) os
        ≡ sum (λ q. if hits m q then own a m else 0) os + sum (via self a ms) os
  via_steps m ms [] = refl
  via_steps m ms (o ∷ os) = ground (arith, via_step m ms o, via_steps m ms os)

  via_nil : (os : List Peer) → sum (via self a []) os ≡ 0
  via_nil [] = refl
  via_nil (o ∷ os) = ground (arith, via_nil os)

  pub via-away :
      (ms os : List Peer)
      → AllDiffer os
      → any (λ o. nat_eq o.id self.id) os ≡ false
      → sum (via self a ms) os ≤ sum (away self a) ms
  via-away [] os d s = ground (arith, via_nil os)
  via-away (m ∷ ms) os d s =
      ground (arith, via_steps m ms os, hits_once m (own a m) os d s, via-away ms os d s)

  pub direct_away :
      (os : List Peer) → sum (direct self a) os + sum (away self a) os ≡ sum (own a) os
  direct_away [] = refl
  direct_away (o ∷ os) = ground (arith, direct_away os)
