-- ===== src/Store/Address.antt =====
-- internal/store/store.go: `allocateAddr` and the networks that it walks.
pub mod Lowest
use go_wireguard_mesh.Common.{
  Bool, List, Option, any, false, leb, ltb, nat_eq, none, some, suc, true, zero, ℕ, ◌&&◌, ◌+◌, ◌-◌,
}
use go_wireguard_mesh.Store.{Result, err, no_free_address, ok}

-- A masked `netip.Prefix`: its first address, and how many addresses it has.
pub record Prefix : Type 0 where
  pub addr : ℕ
  pub size : ℕ

-- `prefix.Contains(ip)`.
abbrev pub contains : Prefix → ℕ → Bool
contains p ip = leb p.addr ip && ltb ip (p.addr + p.size)

abbrev pub is_used : List ℕ → ℕ → Bool
is_used used ip = any (λ a. nat_eq a ip) used

-- The loop `for ip := …; prefix.Contains(ip); ip = ip.Next()`, with the rounds that are left.
unfoldable pub lowest_free : List ℕ → ℕ → ℕ → Option ℕ
lowest_free used zero ip = none
lowest_free used (suc n) ip = elim (is_used used ip) [
  | true ↦ lowest_free used n (ip + 1)
  | false ↦ some ip
]

-- `allocateAddr`, given the addresses of the column. The walk starts behind the network address.
unfoldable pub allocate_addr : Prefix → List ℕ → Result ℕ
unfolding lowest_free
allocate_addr p used = elim (lowest_free used (p.size - 1) (p.addr + 1)) [
  | none ↦ err no_free_address
  | some ip ↦ ok ip
]
