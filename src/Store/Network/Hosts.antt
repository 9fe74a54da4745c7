-- ===== src/Store/Network/Hosts.antt =====
-- Which addresses `firstOverlayHosts` returns.
use go_wireguard_mesh.Common.{
  List, [], arith, if◌then◌else◌, leb, none, some, suc, zero, ℕ, ◌+◌, ◌-◌, ◌∷◌, ◌≡◌,
}
use go_wireguard_mesh.Store.{err, no_free_address, ok}
use go_wireguard_mesh.Store.Address.{Prefix}
use go_wireguard_mesh.Store.Network.{collect, first_overlay_hosts}

-- The n addresses from `ip` on.
abbrev pub upward : ℕ → ℕ → List ℕ
upward zero ip = []
upward (suc n) ip = ip ∷ upward n (ip + 1)

collect_lem : (k ip n : ℕ) → collect k ip n ≡ (if leb n k then some (upward n ip) else none)
unfolding collect
collect_lem k ip zero = ground arith
collect_lem zero ip (suc n) = ground arith
collect_lem (suc k) ip (suc n) = ground (arith, collect_lem k (ip + 1) n)

-- The first n hosts of a network are the n addresses behind its first one, as long as there are as
-- many; else there is no answer.
pub first_overlay_hosts_lem :
    (p : Prefix) (n : ℕ)
    → first_overlay_hosts p n
      ≡ (if leb n (p.size - 1) then ok (upward n (p.addr + 1)) else err no_free_address)
unfolding first_overlay_hosts
first_overlay_hosts_lem p n = ground (arith, collect_lem (p.size - 1) (p.addr + 1) n)
