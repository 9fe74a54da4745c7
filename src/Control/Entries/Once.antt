-- ===== src/Control/Entries/Once.antt =====
-- No network is allowed for two peers: WireGuard would leave it with the last one only.
use go_wireguard_mesh.Common.{
  Bool-cases, List, Option, [], any, arith, false, inl, inr, nat_eq, none, refl, some, true, ℕ, ◌+◌,
  ◌∷◌, ◌≡◌, ◌≤◌, Bool, if_intro, keep,
}
use go_wireguard_mesh.Store.{Peer, Db}
use go_wireguard_mesh.Store.Enroll.{is_id, is_visible, list_visible}
use go_wireguard_mesh.Store.Rows.{AllDiffer, collide}
use go_wireguard_mesh.Control.Entries.{
  Allowed, Entry, EntrySource, all4, all6, build_peer_entries, host4, host6,
}
use go_wireguard_mesh.Control.Entries.Sums.{allowed_times, entries_times, leaving, own, sum, times}
use go_wireguard_mesh.Control.Entries.Exclusive.{direct_away, own_all, own_once, via-away}

exit_two : (a : Allowed) → times a (all4 ∷ all6 ∷ []) ≤ 1
exit_two (host4 x) = omega arith
exit_two (host6 x) = omega arith
exit_two all4 = omega arith
exit_two all6 = omega arith

module _ (self : Peer) where
  leaving_none : (a : Allowed) (o : Peer) → is_id self.exit_node o.id ≡ false → leaving self a o ≡ 0
  leaving_none a o e = ground arith

  leaving_le : (a : Allowed) (o : Peer) → leaving self a o ≤ 1
  leaving_le a o = elim (Bool-cases (is_id self.exit_node o.id)) [
    | inl e ↦ ground (arith, exit_two a)
    | inr e ↦ ground arith
  ]

  other_id : (e : Option ℕ) (i j : ℕ) → is_id e i ≡ true → nat_eq i j ≡ false → is_id e j ≡ false
  other_id none i j h n = cc
  other_id (some k) i j h n = ground arith

  leaving_gone :
      (a : Allowed) (o : Peer) (os : List Peer)
      → is_id self.exit_node o.id ≡ true
      → any (collide o) os ≡ false
      → sum (leaving self a) os ≡ 0
  leaving_gone a o [] e c = refl
  leaving_gone a o (q ∷ qs) e c = omega (
    arith,
    leaving_none a q (other_id self.exit_node o.id q.id e (ground arith)),
    leaving_gone a o qs e (ground arith),
  )

  -- The exit node is one peer.
  leaving_once : (a : Allowed) (os : List Peer) → AllDiffer os → sum (leaving self a) os ≤ 1
  leaving_once a [] d = omega arith
  leaving_once a (o ∷ os) d = elim (Bool-cases (is_id self.exit_node o.id)) [
    | inl e ↦ omega (arith, leaving_le a o, leaving_gone a o os e d.0)
    | inr e ↦ omega (arith, leaving_none a o e, leaving_once a os d.1)
  ]

  leaving_host4 : (x : ℕ) (os : List Peer) → sum (leaving self (host4 x)) os ≡ 0
  leaving_host4 x [] = refl
  leaving_host4 x (o ∷ os) = ground (arith, leaving_host4 x os)

  leaving_host6 : (x : ℕ) (os : List Peer) → sum (leaving self (host6 x)) os ≡ 0
  leaving_host6 x [] = refl
  leaving_host6 x (o ∷ os) = ground (arith, leaving_host6 x os)

  own_all_sum : (os : List Peer) → (sum (own all4) os ≡ 0) × (sum (own all6) os ≡ 0)
  own_all_sum [] = (refl, refl)
  own_all_sum (o ∷ os) = ground (arith, own_all o.assigned_ip6, own_all_sum os)

  total_once :
      (a : Allowed) (os : List Peer) → AllDiffer os → sum (own a) os + sum (leaving self a) os ≤ 1
  total_once (host4 x) os d = omega (arith, leaving_host4 x os, own_once (host4 x) os d)
  total_once (host6 x) os d = omega (arith, leaving_host6 x os, own_once (host6 x) os d)
  total_once all4 os d = omega (arith, own_all_sum os, leaving_once all4 os d)
  total_once all6 os d = omega (arith, own_all_sum os, leaving_once all6 os d)

  -- Where the visible rows share no id and no address, and none of them is the agent's own: every
  -- network, the two of an exit node included, stands at most once in the allowed networks of all
  -- the entries that the agent is configured with.
  pub build_peer_entries_once :
      (s : EntrySource) (others : List Peer) (es : List Entry) (a : Allowed)
      → AllDiffer others
      → any (λ o. nat_eq o.id self.id) others ≡ false
      → build_peer_entries s self others ≡ some es
      → allowed_times a es ≤ 1
  unfolding build_peer_entries
  build_peer_entries_once s others es a d n h = omega (
    arith,
    entries_times self a s others others es h,
    via-away self a others others d n,
    direct_away self a others,
    total_once a others d,
  )

keep-collide :
    (f : Peer → Bool) (p : Peer) (ps : List Peer)
    → any (collide p) ps ≡ false
    → any (collide p) (keep f ps) ≡ false
keep-collide f p [] h = refl
keep-collide f p (q ∷ qs) h = ground (arith, keep-collide f p qs)

keep-AllDiffer : (f : Peer → Bool) (ps : List Peer) → AllDiffer ps → AllDiffer (keep f ps)
keep-AllDiffer f [] d = tt
keep-AllDiffer f (p ∷ ps) d =
    if_intro AllDiffer (f p) (p ∷ keep f ps) (keep f ps)
      (λ e. (keep-collide f p ps d.0, keep-AllDiffer f ps d.1)) (λ e. keep-AllDiffer f ps d.1)

visible_other :
    (default_allow : Bool) (self : ℕ) (db : Db) (ps : List Peer)
    → any (λ o. nat_eq o.id self) (keep (is_visible default_allow self db) ps) ≡ false
unfolding is_visible
visible_other default_allow self db [] = refl
visible_other default_allow self db (p ∷ ps) =
    ground (arith, visible_other default_allow self db ps)

-- Where no two rows share an id or an address: of the peers that an agent is configured with, out
-- of those that are visible to it, no two are allowed the same network, the two networks of an
-- exit node included.
pub list_visible-entries_once :
    (s : EntrySource) (default_allow : Bool) (self : Peer) (db : Db) (es : List Entry) (a : Allowed)
    → AllDiffer db.peers
    → build_peer_entries s self (list_visible default_allow self.id db) ≡ some es
    → allowed_times a es ≤ 1
unfolding list_visible
list_visible-entries_once s default_allow self db es a d h =
    build_peer_entries_once self s (list_visible default_allow self.id db) es a
      (keep-AllDiffer (is_visible default_allow self.id db) db.peers d)
      (visible_other default_allow self.id db db.peers) h
