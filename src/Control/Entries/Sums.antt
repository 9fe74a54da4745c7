-- ===== src/Control/Entries/Sums.antt =====
-- How often a network is allowed in the entries, as a sum over the rows.
use go_wireguard_mesh.Common.{
  Bool, Bool-cases, List, Option-cases, String, [], arith, false, if◌then◌else◌, inl, inr, keep,
  nat_eq, refl, some, true, ℕ, ◌++◌, ◌+◌, ◌∷◌, ◌≡◌, ◌≤◌, if_intro,
}
use go_wireguard_mesh.Store.{Peer}
use go_wireguard_mesh.Control.Entries.{
  Allowed, Entry, EntrySource, all4, all6, all_allowed, allowed_ips_for_peer, entries_from,
  entry_for, exit_routes, host4, host6, is_static, routed_away, routed_by,
}

abbrev pub allowed_eq : Allowed → Allowed → Bool
allowed_eq (host4 a) (host4 b) = nat_eq a b
allowed_eq (host6 a) (host6 b) = nat_eq a b
allowed_eq all4 all4 = true
allowed_eq all6 all6 = true
allowed_eq _ _ = false

-- How often the network stands in the list.
abbrev pub times : Allowed → List Allowed → ℕ
times a [] = 0
times a (b ∷ bs) = (if allowed_eq b a then 1 else 0) + times a bs

-- How often it is allowed in the entries.
abbrev pub allowed_times : Allowed → List Entry → ℕ
allowed_times a [] = 0
allowed_times a (e ∷ es) = times a e.allowed_ips + allowed_times a es

pub times-append :
    (a : Allowed) (xs ys : List Allowed) → times a (xs ++ ys) ≡ times a xs + times a ys
times-append a [] ys = omega arith
times-append a (x ∷ xs) ys = omega (arith, times-append a xs ys)

abbrev pub own : Allowed → Peer → ℕ
own a p = times a (allowed_ips_for_peer p)

-- The sum of a number over the rows.
abbrev pub sum : (Peer → ℕ) → List Peer → ℕ
sum f [] = 0
sum f (p ∷ ps) = f p + sum f ps

pub sum_add : (f g : Peer → ℕ) (ps : List Peer) → sum (λ p. f p + g p) ps ≡ sum f ps + sum g ps
sum_add f g [] = refl
sum_add f g (p ∷ ps) = ground (arith, sum_add f g ps)

pub sum_le : (f g : Peer → ℕ) (ps : List Peer) → ((p : Peer) → f p ≤ g p) → sum f ps ≤ sum g ps
sum_le f g [] h = omega arith
sum_le f g (p ∷ ps) h = omega (arith, h p, sum_le f g ps h)

pub times-all_allowed : (a : Allowed) (ps : List Peer) → times a (all_allowed ps) ≡ sum (own a) ps
times-all_allowed a [] = refl
times-all_allowed a (p ∷ ps) =
    ground (arith, times-append a (allowed_ips_for_peer p) (all_allowed ps), times-all_allowed a ps)

module _ (self : Peer) (a : Allowed) where
  -- What the entry of a row allows beyond the row's own addresses: those of the peers that it routes.
  abbrev pub via : List Peer → Peer → ℕ
  via ms o = if is_static o then 0 else sum (own a) (keep (routed_by o.id) ms)

  abbrev pub leaving : Peer → ℕ
  leaving o = if is_static o then 0 else times a (exit_routes self o)

  abbrev pub direct : Peer → ℕ
  direct o = if routed_away self o then 0 else own a o

  abbrev pub away : Peer → ℕ
  away o = if routed_away self o then own a o else 0

  via_static : (ms : List Peer) (o : Peer) → is_static o ≡ true → via ms o ≡ 0
  via_static ms o e = ground arith

  via_agent :
      (ms : List Peer) (o : Peer)
      → is_static o ≡ false
      → via ms o ≡ sum (own a) (keep (routed_by o.id) ms)
  via_agent ms o e = ground arith

  leaving_static : (o : Peer) → is_static o ≡ true → leaving o ≡ 0
  leaving_static o e = ground arith

  leaving_agent : (o : Peer) → is_static o ≡ false → leaving o ≡ times a (exit_routes self o)
  leaving_agent o e = ground arith

  pub entry_times :
      (s : EntrySource) (others : List Peer) (o : Peer) (key : String)
      → times a (entry_for s self others o key).allowed_ips ≡ own a o + via others o + leaving o
  unfolding entry_for
  entry_times s others o key =
      let xs = allowed_ips_for_peer o in
      let ys = all_allowed (keep (routed_by o.id) others) ++ exit_routes self o in
      if_intro (λ (zs : List Allowed). times a zs ≡ own a o + via others o + leaving o)
        (is_static o) xs (xs ++ ys) (λ e. omega (arith, via_static others o e, leaving_static o e))
        (λ e. omega (
          arith,
          via_agent others o e,
          leaving_agent o e,
          times-append a xs ys,
          times-append a (all_allowed (keep (routed_by o.id) others)) (exit_routes self o),
          times-all_allowed a (keep (routed_by o.id) others),
        ))

  pub entries_times :
      (s : EntrySource) (others os : List Peer) (es : List Entry)
      → entries_from s self others os ≡ some es
      → allowed_times a es ≤ sum direct os + sum (via others) os + sum leaving os
  unfolding entries_from
  entries_times s others [] es h = ground arith
  entries_times s others (o ∷ os) es h = elim (Bool-cases (routed_away self o)) [
    | inl e ↦ ground (arith, entries_times s others os es)
    | inr e ↦ elim (Option-cases (s.pair_key self.public_key o.public_key)) [
      | inl k ↦ ground arith
      | inr (key, k) ↦ elim (Option-cases (entries_from s self others os)) [
        | inl r ↦ ground arith
        | inr (rs, r) ↦ ground (arith, entries_times s others os rs r, entry_times s others o key)
      ]
    ]
  ]
