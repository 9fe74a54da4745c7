-- ===== src/Store/Acl/Service.antt =====
-- What a rule says about ports, and whom it connects.
use mathlib.Core.Path.{subst}
use go_wireguard_mesh.Common.{
  Option, String, arith, none, some, true, ℕ, ◌↔◌, ◌≡◌, ◌≢◌, ◌≤◌, ◌⊎◌, Option-cases, [], inl, inr,
  refl, ◌++◌, ◌∷◌,
}
use go_wireguard_mesh.Store.{AclRule, Protocol, ok, Db, Result-cases, next_id, ok-injective}
use go_wireguard_mesh.Store.Enroll.{rule_connects}
use go_wireguard_mesh.Store.Acl.{
  has_ports, normalize_acl_service, normalize_ports, RuleRequest, insert_acl_rule, parse_protocol,
  port_range_ok, rule_ids, rule_row,
}

-- The service of a stored rule: no ports, or a range of real ports for a protocol that has any.
abbrev pub IsService : Protocol × Option ℕ × Option ℕ → Type 0
IsService s =
    ((s.1 ≡ none) × (s.2 ≡ none))
    ⊎ ((a b : ℕ) × (has_ports s.0 ≡ true)
        × (s.1 ≡ some a)
        × (s.2 ≡ some b)
        × (1 ≤ a)
        × (a ≤ b)
        × (b ≤ 65_535))

abbrev pub IsNormal : Protocol × Option ℕ × Option ℕ → Type 0
IsNormal s = IsService s × (normalize_ports s.0 s.1 s.2 ≡ ok s)

without : (p : Protocol) → IsNormal (p, none, none)
unfolding normalize_ports
without p = (inl (refl, refl), refl)

ranged :
    (p : Protocol) (a b : ℕ)
    → has_ports p ≡ true
    → port_range_ok a b ≡ true
    → IsNormal (p, some a, some b)
unfolding normalize_ports
ranged p a b h k =
    (inr (a, b, h, refl, refl, ground arith, ground arith, ground arith), ground arith)

normalize_ports_lem :
    (p : Protocol) (port_min port_max : Option ℕ) (s : Protocol × Option ℕ × Option ℕ)
    → normalize_ports p port_min port_max ≡ ok s
    → IsNormal s
unfolding normalize_ports
normalize_ports_lem p none none s h = subst IsNormal (ok-injective (p, none, none) s h) (without p)
normalize_ports_lem p none (some b) s h =
    subst IsNormal (ok-injective (p, some b, some b) s (ground arith))
      (ranged p b b (ground arith) (ground arith))
normalize_ports_lem p (some a) none s h =
    subst IsNormal (ok-injective (p, some a, some a) s (ground arith))
      (ranged p a a (ground arith) (ground arith))
normalize_ports_lem p (some a) (some b) s h =
    subst IsNormal (ok-injective (p, some a, some b) s (ground arith))
      (ranged p a b (ground arith) (ground arith))

-- The service that `normalizeACLService` returns has no ports, or a range of ports from 1 to 65535
-- in order and a protocol that is not ICMP; and to normalize its ports again changes nothing.
pub normalize_acl_service_lem :
    (protocol : String) (port_min port_max : Option ℕ) (s : Protocol × Option ℕ × Option ℕ)
    → normalize_acl_service protocol port_min port_max ≡ ok s
    → IsNormal s
unfolding normalize_acl_service
normalize_acl_service_lem protocol port_min port_max s h =
    elim (Option-cases (parse_protocol protocol)) [
      | inl e ↦ absurd (ground arith)
      | inr (p, e) ↦ normalize_ports_lem p port_min port_max s (ground arith)
    ]

-- A rule that is stored for two peers connects exactly these two, whichever of them asks; above all
-- it connects no peer with itself, which would make it a rule for everyone.
pub insert_acl_rule_connects :
    (q : RuleRequest) (db d : Db) (i a b self other : ℕ)
    → insert_acl_rule q db ≡ ok (d, i)
    → q.src ≡ some a
    → q.dst ≡ some b
    → self ≢ other
    → (r : AclRule) × (d.acl_rules ≡ db.acl_rules ++ r ∷ [])
      × ((rule_connects self other r ≡ true)
          ↔ (((self ≡ a) × (other ≡ b)) ⊎ ((self ≡ b) × (other ≡ a))))
unfolding insert_acl_rule
insert_acl_rule_connects q db d i a b self other h es ed ne =
    elim (Result-cases (normalize_acl_service q.protocol q.port_min q.port_max)) [
      | inr (x, e) ↦ absurd (ground arith)
      | inl (service, e) ↦
          let r : AclRule = rule_row q (next_id (rule_ids db.acl_rules)) service in
          (r, ground arith, ground arith)
    ]
