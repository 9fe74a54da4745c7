-- ===== src/Control/ClientIp.antt =====
-- cmd/server/main.go: the address that the server takes for that of a client (`clientIP` and
-- `trustsXFFFrom`). Texts are the lists of their bytes. What `net` and `netip` make of them is a
-- parameter.
use go_wireguard_mesh.Common.{
  Bool, Bool-cases, Bytes, List, Option, [], any, append_assoc, arith, bytes_eq, false,
  if◌then◌else◌, inl, inr, nat_eq, none, not, refl, some, sym, true, ℕ, ◌&&◌, ◌++◌, ◌||◌, ◌∷◌, ◌≡◌,
  append_nil,
}

pub record Trust (P : Type 0) : Type 0 where
  pub trust_proxy : Bool
  pub trusted_proxies : List P
  pub split_host : Bytes → Option Bytes
  pub contains : P → Bytes → Bool
  pub is_address : Bytes → Bool
  pub trim_space : Bytes → Bytes

abbrev pub comma : ℕ
comma = 44

-- The last part of `strings.Split(xff, ",")`, behind the part that begins with `part`.
abbrev pub last_part : Bytes → Bytes → Bytes
last_part part [] = part
last_part part (c ∷ cs) = if nat_eq c comma then last_part [] cs else last_part (part ++ c ∷ []) cs

module _ {P : Type 0} (s : Trust P) where
  -- `trustsXFFFrom`; `contains` unmaps the address that it is given.
  unfoldable pub trusts_xff_from : Bytes → Bool
  trusts_xff_from host =
      s.trust_proxy || (s.is_address host && any (λ p. s.contains p host) s.trusted_proxies)

  -- `clientIP`: the remote address of the request and its `X-Forwarded-For` header.
  unfoldable pub client_ip : Bytes → Bytes → Bytes
  unfolding trusts_xff_from
  client_ip remote xff = elim (s.split_host remote) [
    | none ↦ []
    | some host ↦
        if trusts_xff_from host && not (bytes_eq xff [])
        then s.trim_space (last_part [] xff)
        else host
  ]

-- The text holds no comma.
abbrev pub is_single : Bytes → Bool
is_single cs = not (any (λ c. nat_eq c comma) cs)

last_single : (part cs : Bytes) → is_single cs ≡ true → last_part part cs ≡ part ++ cs
last_single part [] h = sym (append_nil part)
last_single part (c ∷ cs) h =
    ground (arith, last_single (part ++ c ∷ []) cs, append_assoc part (c ∷ []) cs)

last_appended :
    (part forged cs : Bytes) → is_single cs ≡ true → last_part part (forged ++ comma ∷ cs) ≡ cs
last_appended part [] cs h = last_single [] cs h
last_appended part (c ∷ forged) cs h = elim (Bool-cases (nat_eq c comma)) [
  | inl e ↦ ground (arith, last_appended [] forged cs h)
  | inr e ↦ ground (arith, last_appended (part ++ c ∷ []) forged cs h)
]

header_given : (forged cs : Bytes) → bytes_eq (forged ++ comma ∷ cs) [] ≡ false
header_given [] cs = refl
header_given (c ∷ forged) cs = refl

-- Of a request from a host, with a header to which the last proxy appended an address without a
-- comma: the client is that address where the host is trusted, and the host itself where it is
-- not, whatever the client wrote into the header.
pub client_ip_forged :
    {P : Type 0} (s : Trust P) (remote host forged address : Bytes)
    → s.split_host remote ≡ some host
    → is_single address ≡ true
    → client_ip s remote (forged ++ comma ∷ address) ≡ (
        if s.trust_proxy || (s.is_address host && any (λ p. s.contains p host) s.trusted_proxies)
        then s.trim_space address
        else host)
unfolding client_ip trusts_xff_from
client_ip_forged s remote host forged address e h =
    ground (arith, last_appended [] forged address h, header_given forged address)
