-- ===== src/Store/Acl.antt =====
-- internal/store/acl.go: the rules that connect peers. A protocol's text is trimmed and in lower
-- case already. A port of 0 stands for every port that is not positive. Rules that name a missing
-- peer are refused by the foreign keys.
pub mod Service
pub mod Import
use go_wireguard_mesh.Common.{
  Bool, List, Option, String, [], any, false, if◌then◌else◌, is_some, keep, leb, length, nat_eq,
  nat_key, none, not, or_else, some, text_key, true, ℕ, ◌&&◌, ◌++◌, ◌==◌, ◌||◌, ◌∷◌,
}
use go_wireguard_mesh.Store.{
  AclRule, Db, Protocol, Result, any_protocol, constraint, err, exhausted_key, expired_key, icmp,
  icmpv6, invalid, next_id, not_found, nullable, ok, other_key, peer_by_id, peer_by_key,
  revoked_key, tcp, udp, unknown_key,
}
use go_wireguard_mesh.Store.Enroll.{check_key, is_id}

abbrev pub parse_protocol : String → Option Protocol
parse_protocol s =
    if (s == "") || (s == "any")
    then some any_protocol
    else if s == "tcp"
    then some tcp
    else if s == "udp"
    then some udp
    else if s == "icmp"
    then some icmp
    else if s == "icmpv6"
    then some icmpv6
    else none

abbrev pub has_ports : Protocol → Bool
has_ports icmp = false
has_ports icmpv6 = false
has_ports _ = true

-- The two ends of the port range, with a missing end taken from the other.
abbrev pub low : Option ℕ → Option ℕ → ℕ
low (some a) port_max = a
low none port_max = or_else port_max 0

abbrev pub high : Option ℕ → Option ℕ → ℕ
high port_min (some b) = b
high port_min none = or_else port_min 0

abbrev pub port_range_ok : ℕ → ℕ → Bool
port_range_ok a b = leb 1 a && leb a 65_535 && leb 1 b && leb b 65_535 && leb a b

-- The part of `normalizeACLService` behind the protocol.
unfoldable pub normalize_ports :
    Protocol → Option ℕ → Option ℕ → Result (Protocol × Option ℕ × Option ℕ)
normalize_ports p port_min port_max =
    if not (is_some port_min) && not (is_some port_max)
    then ok (p, none, none)
    else if not (has_ports p)
    then err invalid
    else if port_range_ok (low port_min port_max) (high port_min port_max)
    then ok (p, some (low port_min port_max), some (high port_min port_max))
    else err invalid

-- `normalizeACLService`.
unfoldable pub normalize_acl_service :
    String → Option ℕ → Option ℕ → Result (Protocol × Option ℕ × Option ℕ)
unfolding normalize_ports
normalize_acl_service protocol port_min port_max = elim (parse_protocol protocol) [
  | none ↦ err invalid
  | some p ↦ normalize_ports p port_min port_max
]

-- A rule as it is asked for.
pub record RuleRequest : Type 0 where
  pub src : Option ℕ
  pub dst : Option ℕ
  pub name : String
  pub protocol : String
  pub port_min : Option ℕ
  pub port_max : Option ℕ

abbrev pub same_peer : Option ℕ → Option ℕ → Bool
same_peer none b = false
same_peer (some a) b = is_id b a

abbrev pub rule_ids : List AclRule → List ℕ
rule_ids [] = []
rule_ids (r ∷ rs) = r.id ∷ rule_ids rs

-- The foreign key on a column: NULL, or the id of a row of `peers`.
abbrev pub exists_peer : Option ℕ → Db → Bool
exists_peer none db = true
exists_peer (some i) db = is_some (peer_by_id i db)

abbrev pub rule_row : RuleRequest → ℕ → Protocol × Option ℕ × Option ℕ → AclRule
rule_row r id service = record {
  id = id;
  src = r.src;
  dst = r.dst;
  name = nullable r.name;
  protocol = service.0;
  port_min = service.1;
  port_max = service.2;
}

-- `insertACLRule`: the new tables and the id of the rule.
unfoldable pub insert_acl_rule : RuleRequest → Db → Result (Db × ℕ)
unfolding normalize_acl_service
insert_acl_rule r db =
    if same_peer r.src r.dst
    then err invalid
    else elim (normalize_acl_service r.protocol r.port_min r.port_max) [
      | err e ↦ err e
      | ok service ↦
          let id = next_id (rule_ids db.acl_rules) in
          if exists_peer r.src db && exists_peer r.dst db
          then ok (record db { acl_rules = db.acl_rules ++ rule_row r id service ∷ [] }, id)
          else err constraint
    ]

-- The loop of `ImportACLRules`.
unfoldable pub insert_rules : List RuleRequest → Db → Result (Db × Unit)
insert_rules [] db = ok (db, tt)
insert_rules (r ∷ rs) db = elim (insert_acl_rule r db) [
  | err e ↦ err e
  | ok d ↦ insert_rules rs d.0
]

abbrev pub cleared : Bool → Db → Db
cleared replace db = if replace then record db { acl_rules = [] } else db

-- `ImportACLRules`; the number that it returns is that of the given rules.
unfoldable pub import_acl_rules : List RuleRequest → Bool → Db → Db × Result ℕ
unfolding insert_rules
import_acl_rules rs replace db = elim (insert_rules rs (cleared replace db)) [
  | err e ↦ (db, err e)
  | ok d ↦ (d.0, ok (length rs))
]

-- `DeleteACLRule`.
unfoldable pub delete_acl_rule : ℕ → Db → Result (Db × Unit)
delete_acl_rule i db =
    if any (λ r. nat_eq r.id i) db.acl_rules
    then ok (record db { acl_rules = keep (λ r. not (nat_eq r.id i)) db.acl_rules }, tt)
    else err not_found
