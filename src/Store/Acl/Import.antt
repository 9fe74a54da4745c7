-- ===== src/Store/Acl/Import.antt =====
-- An import of rules is all or nothing.
use go_wireguard_mesh.Common.{List, Option, [], ℕ, ◌++◌, ◌∷◌, ◌≡◌}
use go_wireguard_mesh.Store.{AclRule, Db}
use go_wireguard_mesh.Store.Acl.{RuleRequest}

-- The peers of the rules, in order.
abbrev pub pairs : List AclRule → List (Option ℕ × Option ℕ)
pairs [] = []
pairs (r ∷ rs) = (r.src, r.dst) ∷ pairs rs

abbrev pub asked : List RuleRequest → List (Option ℕ × Option ℕ)
asked [] = []
asked (q ∷ qs) = (q.src, q.dst) ∷ asked qs

-- The tables `d` are `db` with the rules that were asked for behind those in place.
abbrev pub IsImported : Db → List RuleRequest → Db → Type 0
IsImported db qs d =
    (pairs d.acl_rules ≡ pairs db.acl_rules ++ asked qs)
    × (d.peers ≡ db.peers)
    × (d.setup_keys ≡ db.setup_keys)
