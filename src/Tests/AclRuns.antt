-- ===== src/Tests/AclRuns.antt =====
-- Runs of internal/store/acl.go.
use go_wireguard_mesh.Common.{
  String, [], arith, false, none, refl, some, true, ℕ, ◌++◌, ◌+◌, ◌↔◌, ◌∷◌, ◌≡◌, ◌⊎◌,
}
use go_wireguard_mesh.Store.{AclRule, Db, Peer, agent, ok, tcp}
use go_wireguard_mesh.Store.Enroll.{rule_connects}
use go_wireguard_mesh.Store.Acl.{
  RuleRequest, import_acl_rules, insert_acl_rule, normalize_acl_service, rule_row,
}
use go_wireguard_mesh.Store.Acl.Service.{
  IsNormal, insert_acl_rule_connects, normalize_acl_service_lem,
}

abbrev web : RuleRequest
web = record {
  src = some 1;
  dst = some 2;
  name = "web";
  protocol = "tcp";
  port_min = some 443;
  port_max = none;
}

-- One end of the range stands for both.
one_port : normalize_acl_service "tcp" (some 443) none ≡ ok (tcp, some 443, some 443)
unfolding normalize_acl_service
one_port = refl

normalize_acl_service_lem_run : IsNormal (tcp, some 443, some 443)
normalize_acl_service_lem_run =
    normalize_acl_service_lem "tcp" (some 443) none (tcp, some 443, some 443) one_port

abbrev row : ℕ → String → Peer
row i key = record {
  id = i;
  public_key = key;
  assigned_ip = 100 + i;
  assigned_ip6 = none;
  kind = agent;
  gateway = none;
  advertises = false;
  exit_node = none;
  hostname = none;
  listen_port = none;
  setup_key_id = 1;
  token_hash = key;
  issued_at = 0;
  observed_ip = none;
  public_endpoint = none;
  private_key_enc = none;
  gateway_endpoint = none;
  revoked_at = none;
}

abbrev three : Db
three = record { setup_keys = []; peers = row 1 "a" ∷ row 2 "b" ∷ row 3 "c" ∷ []; acl_rules = [] }

abbrev with_rule : Db
with_rule = record three { acl_rules = rule_row web 1 (tcp, some 443, some 443) ∷ [] }

web_inserted : insert_acl_rule web three ≡ ok (with_rule, 1)
unfolding insert_acl_rule
web_inserted = refl

insert_acl_rule_connects_run :
    (r : AclRule) × (with_rule.acl_rules ≡ three.acl_rules ++ r ∷ [])
    × ((rule_connects 2 1 r ≡ true)
        ↔ ((◌≡◌ {A = ℕ} 2 1 × ◌≡◌ {A = ℕ} 1 2) ⊎ (◌≡◌ {A = ℕ} 2 2 × ◌≡◌ {A = ℕ} 1 1)))
insert_acl_rule_connects_run =
    insert_acl_rule_connects web three with_rule 1 1 2 2 1 web_inserted refl refl (ground arith)

-- The second rule names a missing peer, so that nothing is imported and the old rule stays.
rolled_back :
    (import_acl_rules (web ∷ record web { dst = some 9 } ∷ []) true with_rule).0 ≡ with_rule
unfolding import_acl_rules insert_acl_rule
rolled_back = refl
