-- ===== src/Store/Address/Lowest.antt =====
-- Which address `allocateAddr` returns.
use mathlib.Core.Path.{subst}
use go_wireguard_mesh.Common.{
  Bool-cases, List, arith, false, inr, nat_eq, nat_eq_iff, none, some, suc, true, zero, ℕ, ◌+◌, ◌<◌,
  ◌≡◌, ◌≤◌, inl, ◌↔◌, Option, Option-cases, ap, ◌-◌, ◌∙◌,
}
use go_wireguard_mesh.Store.Address.{Prefix, lowest_free, is_used, allocate_addr}
use go_wireguard_mesh.Store.{err, no_free_address, ok}

-- The addresses that may be handed out: those of the network but the first.
abbrev pub IsHost : Prefix → ℕ → Type 0
IsHost p ip = (p.addr < ip) × (ip < p.addr + p.size)

lowest_free-some :
    (used : List ℕ) (n ip a : ℕ)
    → lowest_free used n ip ≡ some a
    → (ip ≤ a) × (a < ip + n) × (is_used used a ≡ false)
unfolding lowest_free
lowest_free-some used zero ip a h = cc
lowest_free-some used (suc n) ip a h = ground (arith, lowest_free-some used n (ip + 1) a)

lowest_free-below :
    (used : List ℕ) (n ip a b : ℕ)
    → lowest_free used n ip ≡ some a
    → ip ≤ b
    → b < a
    → is_used used b ≡ true
unfolding lowest_free
lowest_free-below used zero ip a b h l u = cc
lowest_free-below used (suc n) ip a b h l u = elim (Bool-cases (nat_eq ip b)) [
  | inl e ↦ let q : ip ≡ b = (nat_eq_iff ip b).0 e in rw (← q) (ground (arith))
  | inr e ↦ ground (arith, lowest_free-below used n (ip + 1) a b)
]

lowest_free-none :
    (used : List ℕ) (n ip b : ℕ)
    → lowest_free used n ip ≡ none
    → ip ≤ b
    → b < ip + n
    → is_used used b ≡ true
unfolding lowest_free
lowest_free-none used zero ip b h l u = absurd (omega arith)
lowest_free-none used (suc n) ip b h l u = elim (Bool-cases (nat_eq ip b)) [
  | inl e ↦ let q : ip ≡ b = (nat_eq_iff ip b).0 e in rw (← q) (ground (arith))
  | inr e ↦ ground (arith, lowest_free-none used n (ip + 1) b)
]

abbrev pub IsFull : Prefix → List ℕ → Type 0
IsFull p used = (b : ℕ) → IsHost p b → is_used used b ≡ true

abbrev pub IsLowest : Prefix → List ℕ → ℕ → Type 0
IsLowest p used ip =
    IsHost p ip
    × (is_used used ip ≡ false)
    × ((b : ℕ) → IsHost p b → b < ip → is_used used b ≡ true)

module _ (p : Prefix) (used : List ℕ) where
  abbrev walk : Option ℕ
  walk = lowest_free used (p.size - 1) (p.addr + 1)

  walk-IsLowest : (ip : ℕ) → walk ≡ some ip → IsLowest p used ip
  walk-IsLowest ip e =
      let s : (p.addr + 1 ≤ ip) × (ip < p.addr + 1 + (p.size - 1)) × (is_used used ip ≡ false) =
        lowest_free-some used (p.size - 1) (p.addr + 1) ip e in
      (
        (omega arith, omega arith),
        s.2,
        λ b hb lt. lowest_free-below used (p.size - 1) (p.addr + 1) ip b e (omega (arith, hb.0)) lt,
      )

  walk-IsFull : walk ≡ none → IsFull p used
  walk-IsFull e b hb =
      lowest_free-none used (p.size - 1) (p.addr + 1) b e (omega (arith, hb.0))
        (omega (arith, hb.0, hb.1))

  walk_to : (ip : ℕ) → IsLowest p used ip → walk ≡ some ip
  walk_to ip l = elim (Option-cases walk) [
    | inl e ↦ absurd (ground (arith, walk-IsFull e ip l.0, l.1))
    | inr (a, e) ↦
        let w = walk-IsLowest a e in
        let q : a ≡ ip = ground (arith, w.2 ip l.0, l.2 a w.0, w.1, l.1) in e ∙ ap some q
  ]

  -- `allocateAddr` returns an address exactly when that is the lowest address of the network,
  -- behind the network address itself, that no row holds.
  pub allocate_addr_iff : (ip : ℕ) → (allocate_addr p used ≡ ok ip) ↔ IsLowest p used ip
  unfolding allocate_addr
  allocate_addr_iff ip = (
    λ h. elim (Option-cases walk) [
      | inl e ↦ absurd (ground arith)
      | inr (a, e) ↦ let q : a ≡ ip = ground arith in subst (IsLowest p used) q (walk-IsLowest a e)
    ],
    λ l. let e : walk ≡ some ip = walk_to ip l in ground arith,
  )

  -- `allocateAddr` fails exactly when every address of the network behind the network address is
  -- held by a row.
  pub allocate_addr-IsFull : (allocate_addr p used ≡ err no_free_address) ↔ IsFull p used
  unfolding allocate_addr
  allocate_addr-IsFull = (
    λ h. elim (Option-cases walk) [ inl e ↦ walk-IsFull e | inr (a, e) ↦ absurd (ground arith) ],
    λ f. elim (Option-cases walk) [
      | inl e ↦ ground arith
      | inr (a, e) ↦ let w = walk-IsLowest a e in absurd (ground (arith, f a w.0, w.1))
    ],
  )
