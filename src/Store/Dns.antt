-- ===== src/Store/Dns.antt =====
-- internal/store/dns.go: the DNS settings of the overlay. A text is the list of its characters, as
-- what `range` over a string gives; a name with a character that takes more than one byte is
-- refused, so that its length is that of the list. What Go knows of characters (`unicode.ToLower`,
-- `unicode.IsSpace`), of addresses (`netip.ParseAddr` with `Addr.String`) and of the JSON text of a
-- list is a parameter.
pub mod Domain
pub mod Collect
pub mod Settings
pub mod Normal
pub mod Stored
use go_wireguard_mesh.Common.{
  Bool, Bytes, List, Option, [], any, bytes_eq, false, if◌then◌else◌, leb, length, map, nat_eq,
  none, not, some, true, ℕ, ◌&&◌, ◌++◌, ◌||◌, ◌∷◌,
}
use go_wireguard_mesh.Store.{Result, err, invalid, ok}

-- `DNSConfig`.
pub record DnsConfig : Type 0 where
  pub enabled : Bool
  pub magic_dns : Bool
  pub domain : Bytes
  pub nameservers : List Bytes
  pub search_domains : List Bytes

pub record Characters : Type 0 where
  pub lower : ℕ → ℕ
  pub is_space : ℕ → Bool
  pub parse_addr : Bytes → Option Bytes
  pub encode : List Bytes → Bytes
  pub decode : Bytes → Option (List Bytes)

abbrev pub dot : ℕ
dot = 46

abbrev pub hyphen : ℕ
hyphen = 45

-- "vpn".
abbrev pub vpn : Bytes
vpn = 118 ∷ 112 ∷ 110 ∷ []

abbrev pub is_nil {ℓ} : {A : Type ℓ} → List A → Bool
is_nil [] = true
is_nil (x ∷ xs) = false

-- `strings.TrimSuffix(s, ".")`.
abbrev pub trim_dot : Bytes → Bytes
trim_dot [] = []
trim_dot (c ∷ cs) = if nat_eq c dot && is_nil cs then [] else c ∷ trim_dot cs

-- `(r >= 'a' && r <= 'z') || (r >= '0' && r <= '9') || r == '-'`.
abbrev pub is_label_char : ℕ → Bool
is_label_char c = (leb 97 c && leb c 122) || (leb 48 c && leb c 57) || nat_eq c hyphen

abbrev pub first_is : ℕ → Bytes → Bool
first_is a [] = false
first_is a (c ∷ cs) = nat_eq c a

abbrev pub last_is : ℕ → Bytes → Bool
last_is a [] = false
last_is a (c ∷ cs) = if is_nil cs then nat_eq c a else last_is a cs

-- The body of the loop over the labels.
abbrev pub label_ok : Bytes → Bool
label_ok l =
    not (is_nil l)
    && leb (length l) 63
    && not (first_is hyphen l)
    && not (last_is hyphen l)
    && not (any (λ c. not (is_label_char c)) l)

-- `strings.Split(s, ".")`, behind the first label that begins with `l`.
abbrev pub labels_from : Bytes → Bytes → List Bytes
labels_from l [] = l ∷ []
labels_from l (c ∷ cs) =
    if nat_eq c dot then l ∷ labels_from [] cs else labels_from (l ++ c ∷ []) cs

-- `validateDomain`.
unfoldable pub validate_domain : Bytes → Bool
validate_domain d = leb (length d) 253 && not (any (λ l. not (label_ok l)) (labels_from [] d))

-- `if !seen[x] { seen[x] = true; out = append(out, x) }`.
abbrev pub once : Bytes → List Bytes → List Bytes
once x out = if any (λ y. bytes_eq y x) out then out else out ++ x ∷ []

-- A loop over the given texts: `f` refuses, skips or gives what is collected.
abbrev pub collect : (Bytes → Result (Option Bytes)) → List Bytes → List Bytes → Result (List Bytes)
collect f out [] = ok out
collect f out (x ∷ xs) = elim (f x) [
  | err e ↦ err e
  | ok o ↦ elim o [ none ↦ collect f out xs | some y ↦ collect f (once y out) xs ]
]

abbrev pub with_search : Bool → Bytes → List Bytes → List Bytes
with_search magic d search =
    if magic && not (any (λ y. bytes_eq y d) search) then d ∷ search else search

module _ (ch : Characters) where
  -- `strings.TrimLeft` of spaces.
  abbrev pub trim_left : Bytes → Bytes
  trim_left [] = []
  trim_left (c ∷ cs) = if ch.is_space c then trim_left cs else c ∷ cs

  abbrev pub trim_right : Bytes → Bytes
  trim_right [] = []
  trim_right (c ∷ cs) =
      let rest = trim_right cs in if ch.is_space c && is_nil rest then [] else c ∷ rest

  -- `strings.TrimSpace`.
  abbrev pub trim_space : Bytes → Bytes
  trim_space s = trim_right (trim_left s)

  -- `normalizeDomain`.
  unfoldable pub normalize_domain : Bytes → Bytes
  normalize_domain s = trim_dot (trim_space (map ch.lower s))

  -- The body of the loop over the nameservers.
  abbrev pub nameserver : Bytes → Result (Option Bytes)
  nameserver raw =
      let ns = trim_space raw in
      if is_nil ns
      then ok none
      else elim (ch.parse_addr ns) [ none ↦ err invalid | some a ↦ ok (some a) ]

  -- The body of the loop over the search domains.
  abbrev pub search_domain : Bytes → Result (Option Bytes)
  unfolding normalize_domain validate_domain
  search_domain raw =
      let d = normalize_domain raw in
      if is_nil d then ok none else if validate_domain d then ok (some d) else err invalid

  abbrev pub domain_or_vpn : Bytes → Bytes
  unfolding normalize_domain
  domain_or_vpn s = let d = normalize_domain s in if is_nil d then vpn else d

  -- `NormalizeDNSConfig`.
  unfoldable pub normalize_dns_config : DnsConfig → Result DnsConfig
  unfolding domain_or_vpn search_domain validate_domain
  normalize_dns_config cfg =
      let d = domain_or_vpn cfg.domain in
      if validate_domain d
      then elim (collect nameserver [] cfg.nameservers) [
        | err e ↦ err e
        | ok ns ↦ elim (collect search_domain [] cfg.search_domains) [
          | err e ↦ err e
          | ok search ↦
              if cfg.enabled && is_nil ns
              then err invalid
              else ok record {
                enabled = cfg.enabled;
                magic_dns = cfg.magic_dns;
                domain = d;
                nameservers = ns;
                search_domains = with_search (cfg.enabled && cfg.magic_dns) d search;
              }
        ]
      ]
      else err invalid
