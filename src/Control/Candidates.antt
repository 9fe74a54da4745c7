-- ===== src/Control/Candidates.antt =====
-- cmd/server/main.go: which endpoints a peer is given to reach another one, and in which order
-- (`endpointCandidates` and what it calls). An endpoint is its text; what `net` makes of it is a
-- parameter: its host, the IPv4 address of the host as a number, and whether it resolves.
pub mod Ranking
pub mod Live
pub mod Offers
pub mod Hosts
pub mod Pinned
use go_wireguard_mesh.Common.{
  Bool, List, Option, String, [], any, bytes_key, false, if◌then◌else◌, leb, length, ltb, nat_eq,
  nat_key, none, not, some, suc, text_key, zero, ℕ, ◌&&◌, ◌++◌, ◌/◌, ◌==◌, ◌||◌, ◌∷◌,
}

-- `AgentCandidate`.
pub record AgentCandidate : Type 0 where
  pub endpoint : String
  pub type : String

-- `EndpointCandidate`.
pub record Candidate : Type 0 where
  pub endpoint : String
  pub type : String
  pub priority : ℕ

-- The columns of a `PeerRow` that the candidates come from.
pub record PeerRow : Type 0 where
  pub public_key : String
  pub observed_ip : String
  pub listen_port : ℕ
  pub public_endpoint : String
  pub candidates : List AgentCandidate

-- What the package `net` makes of texts: `SplitHostPort`, `ParseIP` with `To4`, `JoinHostPort`,
-- and whether `ResolveUDPAddr` succeeds.
pub record Net : Type 0 where
  pub split_host : String → Option String
  pub to4 : String → Option ℕ
  pub join_host_port : String → ℕ → String
  pub resolves_udp : String → Bool

-- What the relay observed as the source of a leg.
pub record Source : Type 0 where
  pub text : String
  pub loopback : Bool

abbrev pub max_endpoint_candidates : ℕ
max_endpoint_candidates = 6

abbrev pub max_agent_candidates : ℕ
max_agent_candidates = 8

abbrev pub take {ℓ} : {A : Type ℓ} → ℕ → List A → List A
take zero xs = []
take (suc n) [] = []
take (suc n) (x ∷ xs) = x ∷ take n xs

abbrev pub known_type : String → Bool
known_type t = (t == "host") || (t == "host6") || (t == "stun6") || (t == "upnp") || (t == "pinned")

-- The `add` of `endpointCandidates`: `seen` holds the endpoints of `out`.
abbrev pub add : Candidate → List Candidate → List Candidate
add c out =
    if (c.endpoint == "") || any (λ d. d.endpoint == c.endpoint) out then out else out ++ c ∷ []

-- Calls of `add` in a row.
abbrev pub add_all : List Candidate → List Candidate → List Candidate
add_all [] out = out
add_all (c ∷ cs) out = add_all cs (add c out)

abbrev pub cand : String → String → ℕ → Candidate
cand endpoint type priority = record { endpoint = endpoint; type = type; priority = priority }

-- One step of a stable sort by descending priority.
abbrev pub rank : Candidate → List Candidate → List Candidate
rank c [] = c ∷ []
rank c (d ∷ ds) = if leb d.priority c.priority then c ∷ d ∷ ds else d ∷ rank c ds

abbrev pub ranked : List Candidate → List Candidate
ranked [] = []
ranked (c ∷ cs) = rank c (ranked cs)

-- `sortCandidates`.
unfoldable pub sort_candidates : List Candidate → List Candidate
sort_candidates out = take max_endpoint_candidates (ranked out)

-- The reported candidates of a type, with a priority.
abbrev pub of_type : String → ℕ → List AgentCandidate → List Candidate
of_type type priority [] = []
of_type type priority (c ∷ cs) =
    if c.type == type
    then cand c.endpoint type priority ∷ of_type type priority cs
    else of_type type priority cs

abbrev pub when_some : Option String → String → ℕ → List Candidate
when_some none type priority = []
when_some (some e) type priority = cand e type priority ∷ []

module _ (net : Net) where
  -- The loop of `validAgentCandidates`, with what was kept so far.
  abbrev pub valid_from : List AgentCandidate → List AgentCandidate → List AgentCandidate
  valid_from kept [] = kept
  valid_from kept (c ∷ cs) =
      let more =
        if known_type c.type && net.resolves_udp c.endpoint then kept ++ c ∷ [] else kept in
      let rest = valid_from more cs in
      if nat_eq (length kept) max_agent_candidates then kept else rest

  -- `validAgentCandidates`.
  unfoldable pub valid_agent_candidates : List AgentCandidate → List AgentCandidate
  valid_agent_candidates cs = valid_from [] cs

  -- `agentCandidates`, of a list that is decoded already.
  abbrev pub agent_candidates : PeerRow → List AgentCandidate
  agent_candidates p = take max_agent_candidates p.candidates

  -- `lanEndpoint`.
  abbrev pub lan_endpoint : PeerRow → Option String
  lan_endpoint p =
      if not (p.observed_ip == "") && ltb 0 p.listen_port
      then some (net.join_host_port p.observed_ip p.listen_port)
      else none

  abbrev pub both_same : Option String → Option String → Bool
  both_same none b = false
  both_same (some a) none = false
  both_same (some a) (some b) = a == b

  -- `sameHost`.
  abbrev pub same_host : String → String → Bool
  same_host a b = both_same (net.split_host a) (net.split_host b)

  -- The IPv4 address in an endpoint.
  abbrev pub v4_of : String → Option ℕ
  v4_of e = elim (net.split_host e) [ none ↦ none | some h ↦ net.to4 h ]

  -- `ip[0] == selfIP[0] && ip[1] == selfIP[1] && ip[2] == selfIP[2]`.
  abbrev pub shares_24 : Option ℕ → Option ℕ → Bool
  shares_24 none b = false
  shares_24 (some a) none = false
  shares_24 (some a) (some b) = nat_eq (a / 256) (b / 256)

  -- `sameV4Subnet`.
  unfoldable pub same_v4_subnet : List AgentCandidate → String → Bool
  same_v4_subnet cands e =
      any (λ c. (c.type == "host") && shares_24 (v4_of e) (v4_of c.endpoint)) cands

  -- `sameNAT`.
  abbrev pub same_nat : PeerRow → PeerRow → Bool
  same_nat self p =
      not (p.public_endpoint == "")
      && not (self.public_endpoint == "")
      && same_host self.public_endpoint p.public_endpoint

  -- The first loop behind the same NAT.
  abbrev pub shared_offers : List AgentCandidate → List AgentCandidate → List Candidate
  shared_offers self [] = []
  shared_offers self (c ∷ cs) =
      (if c.type == "pinned"
        then cand c.endpoint "pinned" 95 ∷ []
        else if c.type == "host"
        then if same_v4_subnet self c.endpoint then cand c.endpoint "host" 110 ∷ [] else []
        else if c.type == "host6"
        then cand c.endpoint "host6" 100 ∷ []
        else if c.type == "stun6"
        then cand c.endpoint "stun6" 130 ∷ []
        else [])
      ++ shared_offers self cs

  -- The last loop behind different NATs.
  abbrev pub local_offers : List AgentCandidate → List AgentCandidate → List Candidate
  local_offers self [] = []
  local_offers self (c ∷ cs) =
      (if c.type == "host6"
        then cand c.endpoint "host6" 85 ∷ []
        else if c.type == "host"
        then if same_v4_subnet self c.endpoint then cand c.endpoint "host" 110 ∷ [] else []
        else [])
      ++ local_offers self cs

  -- The arguments of the calls of `add` behind the same NAT, in their order.
  abbrev pub offers_shared : PeerRow → PeerRow → List Candidate
  offers_shared self p =
      shared_offers (agent_candidates self) (agent_candidates p)
      ++ (when_some (lan_endpoint p) "lan" 105
          ++ (cand p.public_endpoint "stun" 85 ∷ of_type "upnp" 84 (agent_candidates p)))

  -- Those behind different NATs.
  abbrev pub offers_apart : PeerRow → PeerRow → List Candidate
  offers_apart self p =
      of_type "pinned" 140 (agent_candidates p)
      ++ (of_type "stun6" 130 (agent_candidates p)
          ++ (of_type "upnp" 120 (agent_candidates p)
              ++ (cand p.public_endpoint "stun" 90
                  ∷ (local_offers (agent_candidates self) (agent_candidates p)
                      ++ when_some (lan_endpoint p) "lan" 80))))

  abbrev pub offers : PeerRow → PeerRow → List Candidate
  offers self p = if same_nat self p then offers_shared self p else offers_apart self p

  -- `endpointCandidates`.
  unfoldable pub endpoint_candidates : PeerRow → PeerRow → List Candidate
  unfolding same_v4_subnet sort_candidates
  endpoint_candidates self p = sort_candidates (add_all (offers self p) [])
