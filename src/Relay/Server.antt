-- ===== src/Relay/Server.antt =====
-- internal/relay/relay.go, `Server`: which forwarding pairs exist and which ports they hold. The
-- sockets that the server has open are those of its pairs, so the ports in use are read off the
-- pairs. Of the operating system the model takes two parameters: `refused p`, that a bind to port
-- p fails for a reason outside the server, and `ephemeral`, the port that a bind to port 0 is given
-- (`none` when the bind fails), which depends on the ports that the server already holds.
pub mod Ports
pub mod Sessions
pub mod Alloc
pub mod Life
use go_wireguard_mesh.Common.{
  Bool, Dict, List, Option, String, [], any, if◌then◌else◌, insert, keep, lookup, ltb, nat_eq, none,
  not, or_else, some, suc, zero, ℕ, ◌&&◌, ◌+◌, ◌-◌, ◌==◌, ◌∷◌, differ, nat_key, text_key,
}
use go_wireguard_mesh.Relay.Pair.{AddrPort, Packet, Pair, Send, forward, touch, addr_key}

-- `Config`. `data_ip` of `none` is the nil address.
pub record Config : Type 0 where
  pub data_ip : Option ℕ
  pub port_min : ℕ
  pub port_max : ℕ

pub record Server : Type 0 where
  pub cfg : Config
  pub pairs : Dict String Pair

pub data Error : Type 0 where
  half_a_range : Error
  inverted_range : Error
  ports_exhausted : Error
  bind_failed : Error

pub data Result (A : Type 0) : Type 0 where
  ok : A → Result A
  err : Error → Result A

abbrev pub ipv4_zero : ℕ
ipv4_zero = 0

-- `New`. The cleanup loop that it starts is the operation `cleanup`, at any time.
unfoldable pub new : Config → Result Server
new c =
    if differ (nat_eq c.port_min 0) (nat_eq c.port_max 0)
    then err half_a_range
    else if ltb c.port_max c.port_min
    then err inverted_range
    else ok (record { cfg = record c { data_ip = some (or_else c.data_ip ipv4_zero) }; pairs = [] })

-- The ports of the open sockets.
unfoldable pub bound : Dict String Pair → List ℕ
bound [] = []
bound ((id, p) ∷ m) = p.port_a ∷ p.port_b ∷ bound m

abbrev pub mem : ℕ → List ℕ → Bool
mem n xs = any (λ x. nat_eq x n) xs

-- `idleTimeout`, in nanoseconds: ten minutes.
abbrev pub idle_timeout : ℕ
idle_timeout = 600_000_000_000

module _ (refused : ℕ → Bool) where
  -- Whether a bind to the port succeeds while the ports of `held` are in use.
  abbrev pub can_bind : List ℕ → ℕ → Bool
  can_bind held p = not (refused p) && not (mem p held)

  -- The loop `for p := PortMin; p <= PortMax; p++`, with the rounds that are left.
  unfoldable pub first_free : List ℕ → ℕ → ℕ → Result ℕ
  first_free held zero p = err ports_exhausted
  first_free held (suc n) p =
      let rest = first_free held n (p + 1) in if can_bind held p then ok p else rest

-- The pair with those two sockets, before a datagram.
abbrev pub fresh_pair : ℕ → ℕ → ℕ → Pair
fresh_pair a b now = record {
  port_a = a;
  port_b = b;
  src_a = none;
  src_b = none;
  last_active = now;
}

module _ (refused : ℕ → Bool) (ephemeral : List ℕ → Option ℕ) where
  unfoldable pub listen_udp : Config → List ℕ → Result ℕ
  unfolding first_free
  listen_udp c held =
      if nat_eq c.port_min 0
      then elim (ephemeral held) [ none ↦ err bind_failed | some p ↦ ok p ]
      else first_free refused held (c.port_max + 1 - c.port_min) c.port_min

  -- Binds both sockets of a new pair; when the second bind fails the first socket is closed, so
  -- that nothing is left of it.
  unfoldable pub bind_pair : Server → ℕ → Result Pair
  unfolding listen_udp bound
  bind_pair s now = elim (listen_udp s.cfg (bound s.pairs)) [
    | err e ↦ err e
    | ok a ↦ elim (listen_udp s.cfg (a ∷ bound s.pairs)) [
      | err e ↦ err e
      | ok b ↦ ok (fresh_pair a b now)
    ]
  ]

  -- `Allocate`: the new state, and the two ports or the error.
  unfoldable pub allocate : String → ℕ → Server → Server × Result (ℕ × ℕ)
  unfolding bind_pair
  allocate id now s = elim (lookup id s.pairs) [
    | some p ↦ (record s { pairs = insert id (touch now p) s.pairs }, ok (p.port_a, p.port_b))
    | none ↦ elim (bind_pair s now) [
      | err e ↦ (s, err e)
      | ok p ↦ (record s { pairs = insert id p s.pairs }, ok (p.port_a, p.port_b))
    ]
  ]

-- `Observed`: the sources of the pair's two legs; `none` when there is no such pair.
unfoldable pub observed : String → Server → Option (Option AddrPort × Option AddrPort)
observed id s = elim (lookup id s.pairs) [ none ↦ none | some p ↦ some (p.src_a, p.src_b) ]

abbrev pub is_idle : ℕ → Pair → Bool
is_idle now p = ltb idle_timeout (now - p.last_active)

-- One tick of `cleanupLoop`: idle pairs are closed and removed.
unfoldable pub cleanup : ℕ → Server → Server
cleanup now s = record s { pairs = keep (λ e. not (is_idle now e.1)) s.pairs }

-- `Close`.
unfoldable pub close : Server → Server
close s = record s { pairs = [] }

-- A datagram that arrives at one of a pair's sockets. Without the pair there is no socket.
unfoldable pub receive : String → Packet → Server → Server × List Send
receive id k s = elim (lookup id s.pairs) [
  | none ↦ (s, [])
  | some p ↦ (record s { pairs = insert id (forward k p).0 s.pairs }, (forward k p).1)
]
