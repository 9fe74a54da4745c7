-- ===== src/Control/Entries/Policy.antt =====
-- cmd/server/main.go: `buildACLPolicy`. In the policy, an address of `none` stands for any, and a
-- port of 0 for none.
use mathlib.Core.Path.{subst}
use go_wireguard_mesh.Common.{
  Bool, List, Option, [], any, arith, false, find, if◌then◌else◌, inl, inr, nat_eq, none, or_else,
  some, true, ℕ, ◌&&◌, ◌∷◌, ◌≡◌, Bool-cases, Option-cases, ap, refl, sym,
}
use go_wireguard_mesh.Store.{AclRule, Db, Peer, Protocol}
use go_wireguard_mesh.Store.Peers.{is_active}
use go_wireguard_mesh.Store.Rows.{AllDiffer, collide}
use go_wireguard_mesh.Store.Uses.{In, find-In, find_test}
use go_wireguard_mesh.Store.Enroll.{is_visible, names, rule_connects}

-- `proto.ACLRule`.
pub record PolicyRule : Type 0 where
  pub protocol : Protocol
  pub port_min : ℕ
  pub port_max : ℕ
  pub src_ip : Option ℕ
  pub src_ip6 : Option ℕ
  pub dst_ip : Option ℕ
  pub dst_ip6 : Option ℕ

-- `proto.ACLPolicy`.
pub record Policy : Type 0 where
  pub default_allow : Bool
  pub rules : List PolicyRule

-- `byID[id]`.
abbrev pub active_by_id : ℕ → List Peer → Option Peer
active_by_id i ps = find (λ p. is_active p && nat_eq p.id i) ps

abbrev pub with_peers : AclRule → Option Peer → Option Peer → PolicyRule
with_peers r src dst = record {
  protocol = r.protocol;
  port_min = or_else r.port_min 0;
  port_max = or_else r.port_max 0;
  src_ip = elim src [ none ↦ none | some p ↦ some p.assigned_ip ];
  src_ip6 = elim src [ none ↦ none | some p ↦ p.assigned_ip6 ];
  dst_ip = elim dst [ none ↦ none | some p ↦ some p.assigned_ip ];
  dst_ip6 = elim dst [ none ↦ none | some p ↦ p.assigned_ip6 ];
}

-- The end of a rule: no peer, or an active one; `none` when it is neither.
abbrev pub end_of : Option ℕ → List Peer → Option (Option Peer)
end_of none ps = some none
end_of (some i) ps = elim (active_by_id i ps) [ none ↦ none | some p ↦ some (some p) ]

-- The body of the loop over the rules; `none` is `continue`.
abbrev pub policy_rule : List Peer → AclRule → Option PolicyRule
policy_rule ps r = elim (end_of r.src ps) [
  | none ↦ none
  | some src ↦ elim (end_of r.dst ps) [ none ↦ none | some dst ↦ some (with_peers r src dst) ]
]

abbrev pub policy_rules : List Peer → List AclRule → List PolicyRule
policy_rules ps [] = []
policy_rules ps (r ∷ rs) = elim (policy_rule ps r) [
  | none ↦ policy_rules ps rs
  | some p ↦ p ∷ policy_rules ps rs
]

-- `buildACLPolicy`.
unfoldable pub build_acl_policy : Bool → Db → Policy
build_acl_policy default_allow db =
    if default_allow
    then record { default_allow = true; rules = [] }
    else record { default_allow = false; rules = policy_rules db.peers db.acl_rules }

abbrev pub matches : Option ℕ → ℕ → Bool
matches none a = true
matches (some b) a = nat_eq b a

-- A rule of the policy is about traffic from the first peer to the second.
abbrev pub admits : Peer → Peer → PolicyRule → Bool
admits p q r = matches r.src_ip p.assigned_ip && matches r.dst_ip q.assigned_ip

ip_apart :
    (p q : Peer) (qs : List Peer)
    → In p qs
    → any (collide q) qs ≡ false
    → nat_eq q.assigned_ip p.assigned_ip ≡ false
ip_apart p q [] m h = absurd m
ip_apart p q (x ∷ xs) (inl e) h = rw e (ground arith)
ip_apart p q (x ∷ xs) (inr m) h = ground (arith, ip_apart p q xs m)

same_row :
    (p x : Peer) (ps : List Peer)
    → AllDiffer ps
    → In p ps
    → In x ps
    → nat_eq x.assigned_ip p.assigned_ip ≡ true
    → nat_eq x.id p.id ≡ true
same_row p x [] d m n e = absurd m
same_row p x (q ∷ qs) d (inl f) (inl g) e =
    ground (arith, ap (λ (y : Peer). y.id) f, ap (λ (y : Peer). y.id) g)
same_row p x (q ∷ qs) d (inl f) (inr n) e =
    ground (arith, ip_apart x q qs n d.0, ap (λ (y : Peer). y.assigned_ip) f)
same_row p x (q ∷ qs) d (inr m) (inl g) e =
    ground (arith, ip_apart p q qs m d.0, ap (λ (y : Peer). y.assigned_ip) g)
same_row p x (q ∷ qs) d (inr m) (inr n) e = same_row p x qs d.1 m n e

-- The end of a rule that an address matches is the peer of the address, or any peer.
end_names :
    (o : Option ℕ) (e : Option Peer) (p q : Peer) (ps : List Peer)
    → AllDiffer ps
    → In p ps
    → end_of o ps ≡ some e
    → matches (elim e [ none ↦ none | some x ↦ some x.assigned_ip ]) p.assigned_ip ≡ true
    → names o p.id q.id ≡ true
end_names none e p q ps d m f h = refl
end_names (some i) e p q ps d m f h = elim (Option-cases (active_by_id i ps)) [
  | inl g ↦ absurd (ground arith)
  | inr (x, g) ↦
      let t = find_test (λ y. is_active y && nat_eq y.id i) x ps g in
      let b : nat_eq x.assigned_ip p.assigned_ip ≡ true = ground arith in
      ground (arith, same_row p x ps d m (find-In (λ y. is_active y && nat_eq y.id i) x ps g) b, t)
]

names_swap : (o : Option ℕ) (i j : ℕ) → names o i j ≡ names o j i
names_swap none i j = refl
names_swap (some k) i j = ground arith

both_true : (a b : Bool) → a && b ≡ true → (a ≡ true) × (b ≡ true)
both_true a b h = ground arith

rule_names :
    (ps : List Peer) (r : AclRule) (pr : PolicyRule) (p q : Peer)
    → AllDiffer ps
    → In p ps
    → In q ps
    → policy_rule ps r ≡ some pr
    → admits p q pr ≡ true
    → rule_connects p.id q.id r ≡ true
rule_names ps r pr p q d m n h a = elim (Option-cases (end_of r.src ps)) [
  | inl e ↦ absurd (ground arith)
  | inr (src, e) ↦ elim (Option-cases (end_of r.dst ps)) [
    | inl f ↦ absurd (ground arith)
    | inr (dst, f) ↦
        let g : with_peers r src dst ≡ pr = ground arith in
        let w : admits p q (with_peers r src dst) ≡ true =
          subst (λ (x : PolicyRule). admits p q x ≡ true) (sym g) a in
        let b = both_true _ _ w in
        ground (
          arith,
          end_names r.src src p q ps d m e b.0,
          end_names r.dst dst q p ps d n f b.1,
          names_swap r.dst q.id p.id,
        )
  ]
]

rules_connect :
    (ps : List Peer) (rs : List AclRule) (p q : Peer)
    → AllDiffer ps
    → In p ps
    → In q ps
    → any (admits p q) (policy_rules ps rs) ≡ true
    → any (rule_connects p.id q.id) rs ≡ true
rules_connect ps [] p q d m n h = h
rules_connect ps (r ∷ rs) p q d m n h = elim (Option-cases (policy_rule ps r)) [
  | inl e ↦ ground (arith, rules_connect ps rs p q d m n)
  | inr (pr, e) ↦ elim (Bool-cases (admits p q pr)) [
    | inl a ↦ ground (arith, rule_names ps r pr p q d m n e a)
    | inr a ↦ ground (arith, rules_connect ps rs p q d m n)
  ]
]

-- Where no two rows share an id or an address, and traffic is denied by default: of two active
-- peers of the table, a rule of the policy that agents are given admits traffic from the first to
-- the second only where `listVisible` shows the second to the first.
pub build_acl_policy-is_visible :
    (db : Db) (p q : Peer)
    → AllDiffer db.peers
    → In p db.peers
    → In q db.peers
    → q.revoked_at ≡ none
    → nat_eq q.id p.id ≡ false
    → any (admits p q) (build_acl_policy false db).rules ≡ true
    → is_visible false p.id db q ≡ true
unfolding build_acl_policy is_visible
build_acl_policy-is_visible db p q d m n v ne h =
    ground (arith, rules_connect db.peers db.acl_rules p q d m n h)
