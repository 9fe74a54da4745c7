-- ===== src/Store/Dns/Stored.antt =====
-- What is stored is what is loaded.
use go_wireguard_mesh.Common.{
  Bool, Bytes, Dict, List, String, arith, bytes_key, false, lookup, nat_key, some, text_key, ◌==◌,
  ◌||◌, ◌≡◌, Option-cases, ap, inl, inr,
}
use go_wireguard_mesh.Store.{ok, Result-cases}
use go_wireguard_mesh.Store.Dns.{Characters, DnsConfig, is_nil}
use go_wireguard_mesh.Store.Dns.Settings.{
  load_dns_config, list_setting, load_or_init_dns_config, stored_config, update_dns_config,
  with_defaults,
}
use go_wireguard_mesh.Store.Dns.Normal.{normalize-IsNormalized, valid_not_nil}

-- A list is read from its JSON text.
abbrev pub KnowsJson : Characters → Type 0
KnowsJson ch = (xs : List Bytes) → ch.decode (ch.encode xs) ≡ some xs

abbrev is_dns_key : String → Bool
is_dns_key k =
    (k == "dns_enabled")
    || (k == "dns_magic")
    || (k == "dns_domain")
    || (k == "dns_nameservers")
    || (k == "dns_search_domains")

module _ (ch : Characters) where
  loaded_domain :
      (s : Dict String Bytes) (c : DnsConfig)
      → load_dns_config ch s ≡ ok c
      → is_nil c.domain ≡ false
  unfolding load_dns_config
  loaded_domain s c h = elim (Option-cases (list_setting ch (lookup "dns_nameservers" s))) [
    | inl e ↦ absurd (ground arith)
    | inr (ns, e) ↦ elim (Option-cases (list_setting ch (lookup "dns_search_domains" s))) [
      | inl f ↦ absurd (ground arith)
      | inr (xs, f) ↦
          valid_not_nil ch c.domain
            (normalize-IsNormalized ch (stored_config ch s ns xs) c (ground arith)).valid
    ]
  ]

  -- `LoadOrInitDNSConfig` never looks at the default domain: whatever the table holds, an empty
  -- table included, the result is the same for any other one.
  pub load_or_init_dns_config_domain :
      (defaults : DnsConfig) (x : Bytes) (s : Dict String Bytes)
      → load_or_init_dns_config ch (record defaults { domain = x }) s
        ≡ load_or_init_dns_config ch defaults s
  unfolding load_or_init_dns_config
  load_or_init_dns_config_domain defaults x s = elim (Result-cases (load_dns_config ch s)) [
    | inr (e, k) ↦ ground arith
    | inl (c, k) ↦
        let f : with_defaults ch (record defaults { domain = x }) s c
            ≡ with_defaults ch defaults s c =
          ground (arith, loaded_domain s c k) in
        ground (arith, ap (λ (d : DnsConfig). update_dns_config ch d s) f)
  ]
