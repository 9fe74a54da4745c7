-- ===== src/Store/Network.antt =====
-- internal/store/network.go: the move of all peers to new overlay networks. A slot holds the
-- columns of a row of `peers` that the move writes, in the order of the ids. While the move runs, a
-- column holds a placeholder text made of the row's id instead of an address; the texts of the
-- two columns differ, and the columns are never compared with each other. Hostnames and the texts
-- of the settings are left out.
pub mod Hosts
pub mod Passes
pub mod Migration
use go_wireguard_mesh.Common.{
  Bool, List, Option, [], any, false, if◌then◌else◌, length, nat_eq, none, not, some, suc, zero, ℕ,
  ◌&&◌, ◌+◌, ◌-◌, ◌||◌, ◌∷◌,
}
use go_wireguard_mesh.Store.{Result, constraint, err, no_free_address, ok}
use go_wireguard_mesh.Store.Address.{Prefix}

pub data Column : Type 0 where
  address : ℕ → Column
  migrating : ℕ → Column

abbrev pub same_column : Column → Column → Bool
same_column (address a) (address b) = nat_eq a b
same_column (migrating i) (migrating j) = nat_eq i j
same_column _ _ = false

-- `ip6` of `none` is NULL.
pub record Slot : Type 0 where
  pub id : ℕ
  pub ip : Column
  pub ip6 : Option Column

-- `NetworkPeerChange`.
pub record Change : Type 0 where
  pub id : ℕ
  pub new_ip : ℕ
  pub new_ip6 : ℕ

-- The loop of `firstOverlayHosts`: the rounds that are left, the next address, and how many hosts
-- are still wanted.
unfoldable pub collect : ℕ → ℕ → ℕ → Option (List ℕ)
collect rounds ip zero = some []
collect zero ip (suc n) = none
collect (suc k) ip (suc n) = elim (collect k (ip + 1) n) [ none ↦ none | some hs ↦ some (ip ∷ hs) ]

-- `firstOverlayHosts`.
unfoldable pub first_overlay_hosts : Prefix → ℕ → Result (List ℕ)
unfolding collect
first_overlay_hosts p n = elim (collect (p.size - 1) (p.addr + 1) n) [
  | none ↦ err no_free_address
  | some hs ↦ ok hs
]

-- The loop that gives the peers their new addresses.
abbrev pub changes : List Slot → List ℕ → List ℕ → List Change
changes [] v4 v6 = []
changes (s ∷ ss) [] v6 = []
changes (s ∷ ss) (a ∷ v4) [] = []
changes (s ∷ ss) (a ∷ v4) (b ∷ v6) =
    record { id = s.id; new_ip = a; new_ip6 = b } ∷ changes ss v4 v6

-- `buildNetworkMigrationPlan`.
unfoldable pub build_network_migration_plan : List Slot → Prefix → Prefix → Result (List Change)
unfolding first_overlay_hosts
build_network_migration_plan ss target4 target6 = elim (first_overlay_hosts target4 (length ss)) [
  | err e ↦ err e
  | ok v4 ↦ elim (first_overlay_hosts target6 (length ss)) [
    | err e ↦ err e
    | ok v6 ↦ ok (changes ss v4 v6)
  ]
]

abbrev pub same_column6 : Option Column → Column → Bool
same_column6 none b = false
same_column6 (some a) b = same_column a b

-- Whether another row holds one of the values.
abbrev pub held : ℕ → Column → Column → Slot → Bool
held i a b s = not (nat_eq s.id i) && (same_column s.ip a || same_column6 s.ip6 b)

abbrev pub write : ℕ → Column → Column → List Slot → List Slot
write i a b [] = []
write i a b (s ∷ ss) =
    (if nat_eq s.id i then record { id = s.id; ip = a; ip6 = some b } else s) ∷ write i a b ss

-- `UPDATE peers SET assigned_ip = ?, assigned_ip6 = ? WHERE id = ?`; both columns are UNIQUE.
unfoldable pub update : ℕ → Column → Column → List Slot → Result (List Slot)
update i a b ss = if any (held i a b) ss then err constraint else ok (write i a b ss)

-- The first loop of `ApplyNetworkMigration`.
unfoldable pub stage : List Change → List Slot → Result (List Slot)
unfolding update
stage [] ss = ok ss
stage (c ∷ cs) ss = elim (update c.id (migrating c.id) (migrating c.id) ss) [
  | err e ↦ err e
  | ok ts ↦ stage cs ts
]

-- Its second loop.
unfoldable pub apply : List Change → List Slot → Result (List Slot)
unfolding update
apply [] ss = ok ss
apply (c ∷ cs) ss = elim (update c.id (address c.new_ip) (address c.new_ip6) ss) [
  | err e ↦ err e
  | ok ts ↦ apply cs ts
]

-- `ApplyNetworkMigration` on the rows: the new rows and the plan. An error leaves the rows alone.
unfoldable pub apply_network_migration :
    Prefix → Prefix → List Slot → Result (List Slot × List Change)
unfolding build_network_migration_plan stage apply
apply_network_migration target4 target6 ss =
    elim (build_network_migration_plan ss target4 target6) [
      | err e ↦ err e
      | ok plan ↦ elim (stage plan ss) [
        | err e ↦ err e
        | ok ts ↦ elim (apply plan ts) [ err e ↦ err e | ok us ↦ ok (us, plan) ]
      ]
    ]
