-- ===== src/Store/Dns/Normal.antt =====
-- Normalizing a configuration again changes nothing.
use mathlib.Core.Path.{subst}
use go_wireguard_mesh.Common.{
  Bool, Bool-cases, Bytes, List, Option-cases, [], any, ap, arith, bytes_eq, bytes_eq_refl, false,
  if_intro, inl, inr, not, refl, some, sym, true, ◌&&◌, ◌∙◌, ◌∷◌, ◌≡◌,
}
use go_wireguard_mesh.Store.{Result-cases, ok}
use go_wireguard_mesh.Store.Dns.{
  Characters, DnsConfig, collect, domain_or_vpn, is_nil, nameserver, normalize_dns_config,
  normalize_domain, search_domain, trim_space, validate_domain, with_search,
}
use go_wireguard_mesh.Store.Dns.Domain.{KnowsNames, normalize_valid}
use go_wireguard_mesh.Store.Dns.Collect.{AllFixed, AllOnce, collect_fixed, collected}

-- What `netip` knows: the text of an address is no space on its ends, is not empty, and is read as
-- the same address.
abbrev pub KnowsAddrs : Characters → Type 0
KnowsAddrs ch =
    (a b : Bytes)
    → ch.parse_addr a ≡ some b
    → (ch.parse_addr b ≡ some b) × (trim_space ch b ≡ b) × (is_nil b ≡ false)

module _ (ch : Characters) where
  pub valid_not_nil : (d : Bytes) → validate_domain d ≡ true → is_nil d ≡ false
  unfolding validate_domain
  valid_not_nil [] h = absurd (ground arith)
  valid_not_nil (c ∷ cs) h = refl

  -- The parts of a normalized configuration.
  pub record IsNormalized (cfg c : DnsConfig) : Type 0 where
    pub search : List Bytes
    pub valid : validate_domain c.domain ≡ true
    pub collected_ns : collect (nameserver ch) [] cfg.nameservers ≡ ok c.nameservers
    pub collected_search : collect (search_domain ch) [] cfg.search_domains ≡ ok search
    pub search_eq : c.search_domains ≡ with_search (c.enabled && c.magic_dns) c.domain search
    pub served : c.enabled && is_nil c.nameservers ≡ false

  pub normalize-IsNormalized :
      (cfg c : DnsConfig) → normalize_dns_config ch cfg ≡ ok c → IsNormalized cfg c
  unfolding normalize_dns_config
  normalize-IsNormalized cfg c h =
      elim (Bool-cases (validate_domain (domain_or_vpn ch cfg.domain))) [
        | inr v ↦ absurd (ground arith)
        | inl v ↦ elim (Result-cases (collect (nameserver ch) [] cfg.nameservers)) [
          | inr (e, k) ↦ absurd (ground arith)
          | inl (ns, k) ↦ elim (Result-cases (collect (search_domain ch) [] cfg.search_domains)) [
            | inr (e, l) ↦ absurd (ground arith)
            | inl (xs, l) ↦ elim (Bool-cases (cfg.enabled && is_nil ns)) [
              | inl b ↦ absurd (ground arith)
              | inr b ↦ record {
                search = xs;
                valid = ground arith;
                collected_ns = ground arith;
                collected_search = l;
                search_eq = ground arith;
                served = ground arith;
              }
            ]
          ]
        ]
      ]

module _ (ch : Characters) (knows : KnowsNames ch) (addrs : KnowsAddrs ch) where
  nameserver_stable : (x y : Bytes) → nameserver ch x ≡ ok (some y) → nameserver ch y ≡ ok (some y)
  nameserver_stable x y h = elim (Bool-cases (is_nil (trim_space ch x))) [
    | inl e ↦ absurd (ground arith)
    | inr e ↦ elim (Option-cases (ch.parse_addr (trim_space ch x))) [
      | inl k ↦ absurd (ground arith)
      | inr (a, k) ↦
          let b : ch.parse_addr (trim_space ch x) ≡ some y = ground arith in
          nameserver_fixed y (addrs (trim_space ch x) y b)
    ]
  ]
    where
      nameserver_fixed :
          (y : Bytes)
          → (ch.parse_addr y ≡ some y) × (trim_space ch y ≡ y) × (is_nil y ≡ false)
          → nameserver ch y ≡ ok (some y)
      nameserver_fixed y h = rw h.1 (ground arith)

  domain_fixed : (d : Bytes) → validate_domain d ≡ true → search_domain ch d ≡ ok (some d)
  unfolding search_domain
  domain_fixed d h = ground (arith, normalize_valid ch knows d h, valid_not_nil ch d h)

  search_stable :
      (x y : Bytes) → search_domain ch x ≡ ok (some y) → search_domain ch y ≡ ok (some y)
  unfolding search_domain
  search_stable x y h = elim (Bool-cases (is_nil (normalize_domain ch x))) [
    | inl e ↦ absurd (ground arith)
    | inr e ↦ elim (Bool-cases (validate_domain (normalize_domain ch x))) [
      | inr k ↦ absurd (ground arith)
      | inl k ↦
          let b : normalize_domain ch x ≡ y = ground arith in
          domain_fixed y (subst (λ (d : Bytes). validate_domain d ≡ true) b k)
    ]
  ]

  domain_again : (d : Bytes) → validate_domain d ≡ true → domain_or_vpn ch d ≡ d
  unfolding domain_or_vpn
  domain_again d h = ground (arith, normalize_valid ch knows d h, valid_not_nil ch d h)

  search_fixed :
      (m : Bool) (d : Bytes) (xs : List Bytes)
      → validate_domain d ≡ true
      → AllFixed (search_domain ch) xs
      → AllOnce xs
      → AllFixed (search_domain ch) (with_search m d xs) × AllOnce (with_search m d xs)
  search_fixed m d xs v h o =
      if_intro (λ (ys : List Bytes). AllFixed (search_domain ch) ys × AllOnce ys)
        (m && not (any (λ y. bytes_eq y d) xs)) (d ∷ xs) xs
        (λ e. ((domain_fixed d v, h), (ground arith, o))) (λ e. (h, o))

  search_again :
      (m : Bool) (d : Bytes) (xs : List Bytes)
      → with_search m d (with_search m d xs) ≡ with_search m d xs
  search_again false d xs = refl
  search_again true d xs = elim (Bool-cases (any (λ y. bytes_eq y d) xs)) [
    | inl e ↦ ground arith
    | inr e ↦ ground (arith, bytes_eq_refl d)
  ]

  normalized_again :
      (c : DnsConfig)
      → validate_domain c.domain ≡ true
      → collect (nameserver ch) [] c.nameservers ≡ ok c.nameservers
      → collect (search_domain ch) [] c.search_domains ≡ ok c.search_domains
      → with_search (c.enabled && c.magic_dns) c.domain c.search_domains ≡ c.search_domains
      → c.enabled && is_nil c.nameservers ≡ false
      → normalize_dns_config ch c ≡ ok c
  unfolding normalize_dns_config
  normalized_again c v ns xs w b = ground (arith, domain_again c.domain v)

  -- A configuration that `NormalizeDNSConfig` returns is returned unchanged when it is normalized
  -- again.
  pub normalize_dns_config_again :
      (cfg c : DnsConfig) → normalize_dns_config ch cfg ≡ ok c → normalize_dns_config ch c ≡ ok c
  normalize_dns_config_again cfg c h =
      let i = normalize-IsNormalized ch cfg c h in
      let n =
        collected (nameserver ch) nameserver_stable cfg.nameservers [] c.nameservers tt tt
          i.collected_ns in
      let s =
        collected (search_domain ch) search_stable cfg.search_domains [] i.search tt tt
          i.collected_search in
      let m = c.enabled && c.magic_dns in
      let f = search_fixed m c.domain i.search i.valid s.0 s.1 in
      let g =
        subst (λ (xs : List Bytes). AllFixed (search_domain ch) xs × AllOnce xs) (sym i.search_eq)
          f in
      normalized_again c i.valid (collect_fixed (nameserver ch) c.nameservers n.0 n.1)
        (collect_fixed (search_domain ch) c.search_domains g.0 g.1)
        (ap (with_search m c.domain) i.search_eq
          ∙ search_again m c.domain i.search
          ∙ sym i.search_eq)
        i.served
