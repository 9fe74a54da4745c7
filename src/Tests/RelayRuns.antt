-- ===== src/Tests/RelayRuns.antt =====
-- Runs of internal/relay/relay.go.
use go_wireguard_mesh.Common.{
  ==_iff, All, Bool, List, Option, String, [], ap, arith, false, if◌then◌else◌, inr, is_some,
  lookup, ltb, nat_eq, nat_key, none, not, refl, replicate, some, text_key, true, ℕ, ◌&&◌, ◌-◌,
  ◌||◌, ◌↔◌, ◌∷◌, ◌≡◌, ◌≢◌, ◌⊎◌, insert,
}
use go_wireguard_mesh.Relay.Wire.{wg_shaped}
use go_wireguard_mesh.Relay.Wire.Shape.{IsDatagram, wg_shaped_iff}
use go_wireguard_mesh.Relay.Pair.{AddrPort, Packet, Pair, addr_key, forward, run, source}
use go_wireguard_mesh.Relay.Pair.Latch.{forward_refused, is_handshake, run_latched, source-forward}
use go_wireguard_mesh.Relay.Pair.Sends.{IsRelayed, run_relays}
use go_wireguard_mesh.Relay.Server.{
  Config, Server, allocate, cleanup, err, idle_timeout, listen_udp, new, ok, ports_exhausted,
}
use go_wireguard_mesh.Relay.Server.Ports.{Finds, listen_udp_range}
use go_wireguard_mesh.Relay.Server.Sessions.{IsWellFormed}
use go_wireguard_mesh.Relay.Server.Alloc.{GivesUnused}
use go_wireguard_mesh.Relay.Server.Life.{
  IsApart, Reach, Reach-IsWellFormed, allocate_again, allocate_error, allocate_ok, allocate_others,
  allocates, here, lookup-cleanup, next, sessions-IsApart,
}

abbrev initiation : List ℕ
initiation = 1 ∷ 0 ∷ 0 ∷ 0 ∷ replicate 144 7

abbrev transport : List ℕ
transport = 4 ∷ 0 ∷ 0 ∷ 0 ∷ replicate 28 9

initiation_shaped : wg_shaped initiation ≡ true
unfolding wg_shaped
initiation_shaped = refl

short_refused : wg_shaped (4 ∷ 0 ∷ 0 ∷ 0 ∷ replicate 27 9) ≡ false
unfolding wg_shaped
short_refused = refl

wg_shaped_iff_run : (wg_shaped transport ≡ true) ↔ IsDatagram transport
wg_shaped_iff_run = wg_shaped_iff transport

abbrev alice : AddrPort
alice = record { ip = 11; port = 4000 }

abbrev bob : AddrPort
bob = record { ip = 22; port = 5000 }

abbrev mallory : AddrPort
mallory = record { ip = 66; port = 6666 }

abbrev fresh_pair : Pair
fresh_pair = record { port_a = 101; port_b = 102; src_a = none; src_b = none; last_active = 0 }

abbrev latched_pair : Pair
latched_pair = record fresh_pair { src_a = some alice }

abbrev from_alice : Packet
from_alice = record { from_a = true; now = 1; src = alice; payload = initiation }

abbrev from_bob : Packet
from_bob = record { from_a = false; now = 2; src = bob; payload = initiation }

-- A spoofed data packet on leg A.
abbrev spoofed : Packet
spoofed = record { from_a = true; now = 3; src = mallory; payload = transport }

-- Alice's first datagram finds nobody at the other end; Bob's is forwarded to her; Mallory's is
-- dropped.
run_three :
    (run (from_alice ∷ from_bob ∷ spoofed ∷ []) fresh_pair).1
    ≡ record { out_port = 101; dst = alice; payload = initiation } ∷ []
unfolding run forward wg_shaped
run_three = refl

run_latched_example : source true (run (from_bob ∷ spoofed ∷ []) latched_pair).0 ≡ some alice
unfolding wg_shaped
run_latched_example =
    run_latched true alice (from_bob ∷ spoofed ∷ []) latched_pair
      ((λ e. absurd (cc e)), ((λ e h. absurd (cc h)), tt)) refl

source-forward_example :
    (source true (forward from_alice fresh_pair).0 ≡ (
      if wg_shaped initiation && (not (is_some (source true fresh_pair)) || is_handshake initiation)
      then some alice
      else source true fresh_pair))
    × (source false (forward from_alice fresh_pair).0 ≡ source false fresh_pair)
source-forward_example = source-forward from_alice fresh_pair

forward_refused_run : forward spoofed latched_pair ≡ (latched_pair, [])
unfolding wg_shaped
forward_refused_run =
    forward_refused spoofed latched_pair
      (inr (alice, refl, (λ e. omega (arith, ap (λ (a : AddrPort). a.ip) e)), refl))

abbrev exchange : List Packet
exchange = from_alice ∷ from_bob ∷ spoofed ∷ []

run_relays_example :
    All
      (λ s. IsRelayed true fresh_pair exchange s ⊎ IsRelayed false fresh_pair exchange s)
      (run exchange fresh_pair).1
run_relays_example = run_relays exchange fresh_pair refl refl

abbrev no_port : List ℕ → Option ℕ
no_port held = none

no_port_unused : GivesUnused no_port
no_port_unused held p e = absurd (cc e)

-- The system refuses port 101.
abbrev refuses : ℕ → Bool
refuses p = nat_eq p 101

abbrev ranged : Config
ranged = record { data_ip = some 0; port_min = 100; port_max = 104 }

abbrev started : Server
started = record { cfg = ranged; pairs = [] }

new_started : new ranged ≡ ok started
unfolding new
new_started = refl

listen_udp_range_run :
    Finds refuses (100 ∷ []) 100 105 (listen_udp refuses no_port ranged (100 ∷ []))
listen_udp_range_run =
    listen_udp_range refuses no_port ranged (100 ∷ []) (omega arith) (omega arith)

abbrev one_pair : Server
one_pair = (allocate refuses no_port "ab" 5 started).0

one_allocated : (allocate refuses no_port "ab" 5 started).1 ≡ ok (100, 102)
unfolding allocate lookup insert
one_allocated = refl

abbrev two_pairs : Server
two_pairs = (allocate refuses no_port "cd" 6 one_pair).0

exhausted : (allocate refuses no_port "ef" 7 two_pairs).1 ≡ err ports_exhausted
unfolding allocate lookup insert
exhausted = refl

two_reached : Reach refuses no_port started two_pairs
two_reached = next (next here (allocates "ab" 5 started)) (allocates "cd" 6 one_pair)

Reach-IsWellFormed_example : IsWellFormed two_pairs
Reach-IsWellFormed_example =
    Reach-IsWellFormed refuses no_port no_port_unused ranged new_started two_reached

two_pairs-IsWellFormed : IsWellFormed two_pairs
two_pairs-IsWellFormed =
    Reach-IsWellFormed refuses no_port no_port_unused ranged new_started two_reached

abbrev first_session : Pair
first_session = record { port_a = 100; port_b = 102; src_a = none; src_b = none; last_active = 5 }

abbrev second_session : Pair
second_session = record { port_a = 103; port_b = 104; src_a = none; src_b = none; last_active = 6 }

ab_not_cd : ◌≢◌ {A = String} "ab" "cd"
ab_not_cd = ground (arith, ==_iff {A = String} "ab" "cd")

sessions-IsApart_example : IsApart first_session second_session
unfolding allocate lookup insert
sessions-IsApart_example =
    sessions-IsApart two_pairs "ab" "cd" first_session second_session two_pairs-IsWellFormed
      ab_not_cd refl refl

allocate_error_run : (allocate refuses no_port "ef" 7 two_pairs).0 ≡ two_pairs
allocate_error_run = allocate_error refuses no_port "ef" 7 two_pairs exhausted

allocate_others_example : lookup "ab" two_pairs.pairs ≡ lookup "ab" one_pair.pairs
allocate_others_example = allocate_others refuses no_port "cd" "ab" 6 one_pair ab_not_cd

allocate_ok_example :
    (p : Pair) × (lookup "ab" one_pair.pairs ≡ some p)
    × (p.port_a ≡ 100)
    × (p.port_b ≡ 102)
    × (p.last_active ≡ 5)
allocate_ok_example = allocate_ok refuses no_port "ab" 5 100 102 started one_allocated

-- The second call comes when the system refuses every port.
allocate_again_run : (allocate (λ p. true) no_port "ab" 9 one_pair).1 ≡ ok (100, 102)
allocate_again_run =
    allocate_again refuses (λ p. true) no_port "ab" 5 9 100 102 started one_allocated

lookup-cleanup_run :
    lookup "ab" (cleanup 600_000_000_006 two_pairs).pairs ≡ elim (lookup "ab" two_pairs.pairs) [
      | none ↦ none
      | some p ↦ if ltb idle_timeout (600_000_000_006 - p.last_active) then none else some p
    ]
lookup-cleanup_run = lookup-cleanup 600_000_000_006 "ab" two_pairs two_pairs-IsWellFormed
