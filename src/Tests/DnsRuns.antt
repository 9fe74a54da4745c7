-- ===== src/Tests/DnsRuns.antt =====
-- Runs of internal/store/dns.go. A list is coded as its texts, each behind a zero.
use go_wireguard_mesh.Common.{
  Bytes, List, [], arith, bytes_eq, false, if◌then◌else◌, leb, nat_eq, none, refl, some, suc, true,
  zero, ◌&&◌, ◌++◌, ◌+◌, ◌∷◌, ◌≡◌,
}
use go_wireguard_mesh.Store.{ok}
use go_wireguard_mesh.Store.Dns.{Characters, DnsConfig, is_nil, normalize_dns_config, trim_space}
use go_wireguard_mesh.Store.Dns.Settings.{load_or_init_dns_config}
use go_wireguard_mesh.Store.Dns.Domain.{KnowsNames}
use go_wireguard_mesh.Store.Dns.Normal.{KnowsAddrs, normalize_dns_config_again}
use go_wireguard_mesh.Store.Dns.Stored.{load_or_init_dns_config_domain}
use mathlib.Core.Path.{subst}

abbrev put : Bytes → Bytes → Bytes
put [] r = 0 ∷ r
put (c ∷ cs) r = suc c ∷ put cs r

abbrev encode : List Bytes → Bytes
encode [] = []
encode (x ∷ xs) = put x (encode xs)

abbrev decode_from : Bytes → Bytes → List Bytes
decode_from acc [] = []
decode_from acc (zero ∷ r) = acc ∷ decode_from [] r
decode_from acc (suc c ∷ r) = decode_from (acc ++ c ∷ []) r

-- Upper-case letters are 65 to 90; the only address is the text `1`.
abbrev characters : Characters
characters = record {
  lower = λ c. if leb 65 c && leb c 90 then c + 32 else c;
  is_space = λ c. nat_eq c 32;
  parse_addr = λ a. if bytes_eq a (49 ∷ []) then some (49 ∷ []) else none;
  encode = encode;
  decode = λ v. some (decode_from [] v);
}

knows : KnowsNames characters
knows c h = (ground arith, ground arith)

addrs : KnowsAddrs characters
addrs a b h =
    let e : 49 ∷ [] ≡ b = ground arith in
    subst
      (λ (x : Bytes).
        (characters.parse_addr x ≡ some x) × (trim_space characters x ≡ x) × (is_nil x ≡ false))
      e (refl, refl, refl)

-- "Lab." with the nameserver " 1", given twice.
abbrev wanted : DnsConfig
wanted = record {
  enabled = true;
  magic_dns = true;
  domain = 76 ∷ 97 ∷ 98 ∷ 46 ∷ [];
  nameservers = (32 ∷ 49 ∷ []) ∷ (49 ∷ []) ∷ [];
  search_domains = [];
}

abbrev lab : DnsConfig
lab = record {
  enabled = true;
  magic_dns = true;
  domain = 108 ∷ 97 ∷ 98 ∷ [];
  nameservers = (49 ∷ []) ∷ [];
  search_domains = (108 ∷ 97 ∷ 98 ∷ []) ∷ [];
}

load_or_init_dns_config_domain_example :
    load_or_init_dns_config characters (record wanted { domain = 120 ∷ [] }) []
    ≡ load_or_init_dns_config characters wanted []
load_or_init_dns_config_domain_example =
    load_or_init_dns_config_domain characters wanted (120 ∷ []) []

normalized : normalize_dns_config characters wanted ≡ ok lab
unfolding normalize_dns_config
normalized = refl

normalize_dns_config_again_run : normalize_dns_config characters lab ≡ ok lab
normalize_dns_config_again_run =
    normalize_dns_config_again characters knows addrs wanted lab normalized
