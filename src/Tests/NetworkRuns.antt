-- ===== src/Tests/NetworkRuns.antt =====
-- Runs of internal/store/network.go.
use go_wireguard_mesh.Common.{List, [], if◌then◌else◌, none, refl, some, ◌&&◌, ◌∷◌, ◌≡◌}
use go_wireguard_mesh.Store.{constraint, err, no_free_address, ok}
use go_wireguard_mesh.Store.Address.{Prefix}
use go_wireguard_mesh.Store.Network.{Slot, address, apply, apply_network_migration}
use go_wireguard_mesh.Store.Network.Passes.{all_moved, planned}
use go_wireguard_mesh.Store.Network.Migration.{apply_network_migration_lem, has_room}

-- Two peers whose new addresses overlap with the old ones: the second is to move on from the
-- address that the first one gets.
abbrev peers : List Slot
peers =
    record { id = 1; ip = address 102; ip6 = none }
    ∷ record { id = 4; ip = address 101; ip6 = some (address 1_001) }
    ∷ []

abbrev target4 : Prefix
target4 = record { addr = 100; size = 4 }

abbrev target6 : Prefix
target6 = record { addr = 1_000; size = 4 }

apply_network_migration_lem_example : apply_network_migration target4 target6 peers ≡ (
    if has_room target4 2 && has_room target6 2
    then ok (all_moved 101 1_001 peers, planned 101 1_001 peers)
    else err no_free_address)
apply_network_migration_lem_example =
    apply_network_migration_lem target4 target6 peers (refl, (refl, tt))
      ((refl, refl), ((refl, refl), tt))

-- Without the first pass the same plan fails.
unstaged : apply (planned 101 1_001 peers) peers ≡ err constraint
unfolding apply
unstaged = refl
