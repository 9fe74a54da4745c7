-- ===== src/Relay/Pair/Sends.antt =====
-- Where the relay sends datagrams, over any interleaving of the two legs.
use go_wireguard_mesh.Common.{
  Bool, List, any, arith, false, inl, inr, not, some, true, ◌&&◌, ◌∷◌, ◌≡◌, ◌⊎◌, All, [], ℕ,
  All-append, All-imp, Bool-cases, Option-cases, none, ◌∙◌,
}
use go_wireguard_mesh.Relay.Wire.{wg_shaped}
use go_wireguard_mesh.Relay.Pair.{
  AddrPort, Packet, Pair, addr_eq, addr_eq_iff, forward, source, Send, out_port, run,
}

-- The packet is one that checks `a` in on the leg.
abbrev pub checks_in : Bool → AddrPort → Packet → Bool
checks_in true a k = k.from_a && wg_shaped k.payload && addr_eq k.src a
checks_in false a k = not k.from_a && wg_shaped k.payload && addr_eq k.src a

abbrev pub checked_in : Bool → AddrPort → List Packet → Bool
checked_in leg a ks = any (checks_in leg a) ks

-- `a` is the leg's source, or sends it a well-shaped datagram later.
abbrev Known : Bool → AddrPort → Pair → List Packet → Type 0
Known leg a p ks = (source leg p ≡ some a) ⊎ (checked_in leg a ks ≡ true)

Known-before :
    (leg : Bool) (a : AddrPort) (k : Packet) (ks : List Packet) (p : Pair)
    → Known leg a (forward k p).0 ks
    → Known leg a p (k ∷ ks)
unfolding forward
Known-before true a k ks p (inl h) = ground (arith, addr_eq_iff k.src a)
Known-before false a k ks p (inl h) = ground (arith, addr_eq_iff k.src a)
Known-before true a k ks p (inr h) = ground arith
Known-before false a k ks p (inr h) = ground arith

-- The datagram arrives on the leg and has the shape that the relay forwards.
abbrev pub Arrived : Bool → List ℕ → List Packet → Type 0
Arrived leg b [] = ⊥
Arrived leg b (k ∷ ks) =
    ((k.from_a ≡ leg) × (k.payload ≡ b) × (wg_shaped b ≡ true)) ⊎ Arrived leg b ks

-- The write is from the leg's port to an address that the leg knows, and what it carries has come
-- in on the opposite leg.
abbrev IsCross : Bool → Pair → List Packet → Send → Type 0
IsCross leg p ks s =
    (s.out_port ≡ out_port (not leg) p) × Known leg s.dst p ks × Arrived (not leg) s.payload ks

abbrev IsLawful : Pair → List Packet → Send → Type 0
IsLawful p ks s = IsCross true p ks s ⊎ IsCross false p ks s

port-forward : (leg : Bool) (k : Packet) (p : Pair) → out_port leg (forward k p).0 ≡ out_port leg p
unfolding forward
port-forward true k p = ground arith
port-forward false k p = ground arith

later :
    (k : Packet) (ks : List Packet) (p : Pair) (s : Send)
    → IsLawful (forward k p).0 ks s
    → IsLawful p (k ∷ ks) s
later k ks p s (inl (o, kn, ar)) =
    inl (o ∙ port-forward false k p, Known-before true s.dst k ks p kn, inr ar)
later k ks p s (inr (o, kn, ar)) =
    inr (o ∙ port-forward true k p, Known-before false s.dst k ks p kn, inr ar)

first : (k : Packet) (ks : List Packet) (p : Pair) → All (IsLawful p (k ∷ ks)) (forward k p).1
unfolding forward
first k ks p = elim (Bool-cases k.from_a) [
  | inl e ↦ rw e (elim (Option-cases p.src_b) [ inl n ↦ ground arith | inr (c, s) ↦ ground arith ])
  | inr e ↦ rw e (elim (Option-cases p.src_a) [ inl n ↦ ground arith | inr (c, s) ↦ ground arith ])
]

run_lawful : (ks : List Packet) (p : Pair) → All (IsLawful p ks) (run ks p).1
unfolding run
run_lawful [] p = tt
run_lawful (k ∷ ks) p =
    All-append (IsLawful p (k ∷ ks)) (forward k p).1 (run ks (forward k p).0).1 (first k ks p) (
      All-imp (IsLawful (forward k p).0 ks) (IsLawful p (k ∷ ks)) (run ks (forward k p).0).1
        (later k ks p) (run_lawful ks (forward k p).0))

-- A write of a pair that began with no learned address: its target has itself sent a datagram of
-- the right shape to the port that the write leaves from, and the bytes arrived on the other port.
abbrev pub IsRelayed : Bool → Pair → List Packet → Send → Type 0
IsRelayed leg p ks s =
    (s.out_port ≡ out_port (not leg) p)
    × (checked_in leg s.dst ks ≡ true)
    × Arrived (not leg) s.payload ks

-- Whatever datagrams arrive, in whatever order, each datagram that a fresh pair writes leaves from
-- one of its two ports to an address that checked in on that very port, and carries unchanged the
-- bytes of a WireGuard-shaped datagram that arrived on the opposite port.
pub run_relays :
    (ks : List Packet) (p : Pair)
    → p.src_a ≡ none
    → p.src_b ≡ none
    → All (λ s. IsRelayed true p ks s ⊎ IsRelayed false p ks s) (run ks p).1
run_relays ks p a b =
    All-imp (IsLawful p ks) (λ s. IsRelayed true p ks s ⊎ IsRelayed false p ks s) (run ks p).1
      (λ s h. ground arith) (run_lawful ks p)
