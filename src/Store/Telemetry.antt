-- ===== src/Store/Telemetry.antt =====
-- internal/store/telemetry.go: the tokens of peers and the reports of agents. The columns of
-- `peers` that only reports write stand in a table of their own. Byte and packet counts are natural
-- numbers. The texts of the path states are those of the agent. A list that is empty needs no
-- statement and no snapshot: the loops over it do nothing.
pub mod Apply
pub mod Tokens
pub mod Totals
pub mod Reports
pub mod Known
pub mod Ledger
pub mod Events
pub mod Prune
pub mod Repeat
use go_wireguard_mesh.Common.{
  Bool, Bytes, Dict, Key, List, Option, String, [], any, arith, bytes_key, if◌then◌else◌, insert,
  leb, length, lookup, ltb, nat_eq, nat_key, none, or_else, some, text_key, true, ℕ, ◌&&◌, ◌++◌,
  ◌+◌, ◌==◌, ◌||◌, ◌↔◌, ◌∷◌, ◌≡◌,
}
use go_wireguard_mesh.Store.{
  Db, Peer, Result, coalesce, constraint, err, exhausted_key, expired_key, nullable, ok, other_key,
  peer_by_key, revoked_key, static, unknown_key,
}

-- The columns last_seen_at, candidates, nat_type and agent_version.
pub record Seen : Type 0 where
  pub last_seen_at : Option ℕ
  pub candidates : Option (List (String × String))
  pub nat_type : Option String
  pub agent_version : Option Bytes

pub record Link : Type 0 where
  pub rx_bytes : ℕ
  pub tx_bytes : ℕ
  pub last_handshake_at : Option String
  pub updated_at : ℕ

pub record PathRow : Type 0 where
  pub state : String
  pub endpoint : Option String
  pub updated_at : ℕ

pub record Event : Type 0 where
  pub reporter : ℕ
  pub remote : ℕ
  pub kind : String
  pub from_state : Option String
  pub to_state : String
  pub at : ℕ

pub record Flow : Type 0 where
  pub protocol : ℕ
  pub src : String × ℕ
  pub dst : String × ℕ
  pub tx_bytes : ℕ
  pub rx_bytes : ℕ
  pub tx_packets : ℕ
  pub rx_packets : ℕ

pub record FlowRow : Type 0 where
  pub peer : ℕ
  pub flow : Flow
  pub reported_at : ℕ

-- `ProxyEvent`.
pub record Access : Type 0 where
  pub at : String
  pub method : String
  pub host : String
  pub url : String
  pub status : ℕ
  pub duration_ms : ℕ
  pub req_bytes : ℕ
  pub resp_bytes : ℕ
  pub client_ip : String
  pub service : String

pub record AccessRow : Type 0 where
  pub peer : ℕ
  pub at : String
  pub method : Option String
  pub host : Option String
  pub url : Option String
  pub status : ℕ
  pub duration_ms : ℕ
  pub req_bytes : ℕ
  pub resp_bytes : ℕ
  pub client_ip : Option String
  pub service : Option String

pub record Counter : Type 0 where
  pub key : String
  pub rx_bytes : ℕ
  pub tx_bytes : ℕ
  pub last_handshake_at : String

pub record PathState : Type 0 where
  pub key : String
  pub state : String
  pub endpoint : String

-- `ReportRequest`.
pub record Report : Type 0 where
  pub public_endpoint : String
  pub candidates : List (String × String)
  pub nat_type : String
  pub counters : List Counter
  pub flows : List Flow
  pub path_states : List PathState
  pub proxy_events : List Access
  pub advertise_exit_node : Bool
  pub version : Bytes

-- The tables that a report writes. A primary key of two columns is the key of a map.
pub record Tables : Type 0 where
  pub db : Db
  pub seen : Dict ℕ Seen
  pub links : Dict (ℕ × ℕ) Link
  pub paths : Dict (ℕ × ℕ) PathRow
  pub events : List Event
  pub flows : List FlowRow
  pub accesses : List AccessRow

abbrev pub pair_eq : ℕ × ℕ → ℕ × ℕ → Bool
pair_eq a b = nat_eq a.0 b.0 && nat_eq a.1 b.1

pub pair_eq_iff : (a b : ℕ × ℕ) → (pair_eq a b ≡ true) ↔ (a ≡ b)
pair_eq_iff a b = ground arith

instance abbrev pub pair_key : Key (ℕ × ℕ)
pair_key = record { same = pair_eq; same_iff = pair_eq_iff }

-- `natType`.
unfoldable pub nat_type : String → String
nat_type v = if (v == "easy") || (v == "hard") || (v == "static") then v else ""

-- `v[i] <= ' ' || v[i] > '~'` for some byte.
abbrev pub unprintable : Bytes → Bool
unprintable v = any (λ b. leb b 32 || ltb 126 b) v

-- `agentVersion`.
unfoldable pub agent_version : Bytes → Bytes
agent_version v = if ltb 64 (length v) || unprintable v then [] else v

abbrev pub filled {ℓ} : {A : Type ℓ} → List A → Option (List A)
filled [] = none
filled (x ∷ xs) = some (x ∷ xs)

abbrev pub and_then : {A B : Type 0} → Result A → (A → Result B) → Result B
and_then (err e) f = err e
and_then (ok a) f = f a

abbrev pub has_peer : ℕ → List Peer → Bool
has_peer i ps = any (λ p. nat_eq p.id i) ps
