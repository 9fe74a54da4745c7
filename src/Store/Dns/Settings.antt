-- ===== src/Store/Dns/Settings.antt =====
-- internal/store/dns.go: the rows of the settings table that hold the DNS configuration. The order
-- in which the five rows are written is left open by Go.
use go_wireguard_mesh.Common.{
  Bool, Bytes, Dict, List, Option, String, [], bytes_eq, bytes_key, false, if◌then◌else◌, insert,
  is_some, lookup, nat_key, none, not, or_else, some, text_key, true, ◌∷◌,
}
use go_wireguard_mesh.Store.{Result, err, invalid, ok}
use go_wireguard_mesh.Store.Dns.{Characters, DnsConfig, is_nil, normalize_dns_config, vpn}

abbrev pub true_text : Bytes
true_text = 116 ∷ 114 ∷ 117 ∷ 101 ∷ []

abbrev pub false_text : Bytes
false_text = 102 ∷ 97 ∷ 108 ∷ 115 ∷ 101 ∷ []

-- `%t`.
abbrev pub bool_text : Bool → Bytes
bool_text true = true_text
bool_text false = false_text

-- `settingExists`.
abbrev pub setting_exists : String → Dict String Bytes → Bool
setting_exists key s = is_some (lookup key s)

module _ (ch : Characters) where
  abbrev pub list_setting : Option Bytes → Option (List Bytes)
  list_setting none = some []
  list_setting (some v) = ch.decode v

  abbrev pub stored_config : Dict String Bytes → List Bytes → List Bytes → DnsConfig
  stored_config s ns search = record {
    enabled = bytes_eq (or_else (lookup "dns_enabled" s) false_text) true_text;
    magic_dns = not (bytes_eq (or_else (lookup "dns_magic" s) true_text) false_text);
    domain = or_else (lookup "dns_domain" s) vpn;
    nameservers = ns;
    search_domains = search;
  }

  -- `loadDNSConfig`.
  unfoldable pub load_dns_config : Dict String Bytes → Result DnsConfig
  unfolding normalize_dns_config
  load_dns_config s = elim (list_setting (lookup "dns_nameservers" s)) [
    | none ↦ err invalid
    | some ns ↦ elim (list_setting (lookup "dns_search_domains" s)) [
      | none ↦ err invalid
      | some search ↦ normalize_dns_config ch (stored_config s ns search)
    ]
  ]

  -- `saveDNSConfig`.
  unfoldable pub save_dns_config : DnsConfig → Dict String Bytes → Dict String Bytes
  save_dns_config cfg s = insert "dns_search_domains" (ch.encode cfg.search_domains) (
      insert "dns_nameservers" (ch.encode cfg.nameservers) (
        insert "dns_domain" cfg.domain (
          insert "dns_magic" (bool_text cfg.magic_dns)
            (insert "dns_enabled" (bool_text cfg.enabled) s))))

  -- `UpdateDNSConfig`: the table and the configuration that is returned.
  unfoldable pub update_dns_config :
      DnsConfig → Dict String Bytes → Result (Dict String Bytes × DnsConfig)
  unfolding normalize_dns_config save_dns_config
  update_dns_config cfg s = elim (normalize_dns_config ch cfg) [
    | err e ↦ err e
    | ok c ↦ ok (save_dns_config c s, c)
  ]

  -- What `LoadOrInitDNSConfig` takes from the defaults.
  abbrev pub with_defaults : DnsConfig → Dict String Bytes → DnsConfig → DnsConfig
  with_defaults defaults s cfg = record {
    enabled = if setting_exists "dns_enabled" s then cfg.enabled else defaults.enabled;
    magic_dns = if setting_exists "dns_magic" s then cfg.magic_dns else defaults.magic_dns;
    domain = if is_nil cfg.domain then defaults.domain else cfg.domain;
    nameservers = if is_nil cfg.nameservers then defaults.nameservers else cfg.nameservers;
    search_domains =
        if is_nil cfg.search_domains then defaults.search_domains else cfg.search_domains;
  }

  -- `LoadOrInitDNSConfig`.
  unfoldable pub load_or_init_dns_config :
      DnsConfig → Dict String Bytes → Result (Dict String Bytes × DnsConfig)
  unfolding load_dns_config update_dns_config
  load_or_init_dns_config defaults s = elim (load_dns_config s) [
    | err e ↦ err e
    | ok cfg ↦ update_dns_config (with_defaults defaults s cfg) s
  ]
