-- ===== src/Relay/Pair.antt =====
-- internal/relay/relay.go, `pair` and its two `forward` goroutines. A leg's socket is named by its
-- port. One round of the loop in `forward` is one step: the source of a leg is written by that
-- leg's goroutine alone, so rounds of the two legs interleave as wholes but for the moment at which
-- the other leg's source is read.
pub mod Latch
pub mod Sends
use go_wireguard_mesh.Common.{
  Bool, Key, List, Option, [], arith, false, if◌then◌else◌, nat_eq, none, not, some, true, ℕ, ◌&&◌,
  ◌++◌, ◌==◌, ◌↔◌, ◌∷◌, ◌≡◌, nat_key, text_key,
}
use go_wireguard_mesh.Relay.Wire.{byte_at, msg_transport, wg_shaped}

-- netip.AddrPort, which the relay only compares.
pub record AddrPort : Type 0 where
  pub ip : ℕ
  pub port : ℕ

abbrev pub addr_eq : AddrPort → AddrPort → Bool
addr_eq a b = nat_eq a.ip b.ip && nat_eq a.port b.port

pub addr_eq_iff : (a b : AddrPort) → (addr_eq a b ≡ true) ↔ (a ≡ b)
addr_eq_iff a b = ground arith

instance abbrev pub addr_key : Key AddrPort
addr_key = record { same = addr_eq; same_iff = addr_eq_iff }

-- `last_active` is in nanoseconds.
pub record Pair : Type 0 where
  pub port_a : ℕ
  pub port_b : ℕ
  pub src_a : Option AddrPort
  pub src_b : Option AddrPort
  pub last_active : ℕ

-- A datagram that arrived on leg A (`from_a`) or leg B, and the time at which it is handled.
pub record Packet : Type 0 where
  pub from_a : Bool
  pub now : ℕ
  pub src : AddrPort
  pub payload : List ℕ

-- A datagram that the relay writes: from which port, to whom, and what.
pub record Send : Type 0 where
  pub out_port : ℕ
  pub dst : AddrPort
  pub payload : List ℕ

unfoldable pub touch : ℕ → Pair → Pair
touch now p = record p { last_active = now }

-- `self.Load()` and `other.Load()` of the goroutine that serves the leg.
abbrev pub source : Bool → Pair → Option AddrPort
source true p = p.src_a
source false p = p.src_b

abbrev pub set_source : Bool → AddrPort → Pair → Pair
set_source true a p = record p { src_a = some a }
set_source false a p = record p { src_b = some a }

abbrev pub out_port : Bool → Pair → ℕ
out_port true p = p.port_b
out_port false p = p.port_a

-- What the leg does about its own source: `none` drops the datagram.
unfoldable pub learn : Packet → Pair → Option Pair
learn k p = elim (source k.from_a p) [
  | none ↦ some (set_source k.from_a k.src p)
  | some cur ↦
      if cur == k.src
      then some p
      else if nat_eq (byte_at k.payload 0) msg_transport
      then none
      else some (set_source k.from_a k.src p)
]

-- The write to the other leg's source, if that has checked in.
abbrev pub deliver : Packet → Pair → List Send
deliver k p = elim (source (not k.from_a) p) [
  | none ↦ []
  | some dst ↦ record { out_port = out_port k.from_a p; dst = dst; payload = k.payload } ∷ []
]

-- One round of `forward`.
unfoldable pub forward : Packet → Pair → Pair × List Send
unfolding learn touch
forward k p =
    if wg_shaped k.payload
    then elim (learn k p) [ none ↦ (p, []) | some q ↦ (touch k.now q, deliver k (touch k.now q)) ]
    else (p, [])

-- Rounds of both goroutines, in the order in which they happen.
unfoldable pub run : List Packet → Pair → Pair × List Send
run [] p = (p, [])
run (k ∷ ks) p = let (q, sent) = forward k p in let (r, more) = run ks q in (r, sent ++ more)
