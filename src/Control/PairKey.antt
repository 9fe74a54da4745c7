-- ===== src/Control/PairKey.antt =====
-- cmd/server/relayws.go (`relayPairID`), internal/psk/psk.go (`DerivePairKey`) and the choice of a
-- port in cmd/server/relay.go (`handleRelayPair`): what two peers derive from their public keys.
-- A public key is the sequence of its bytes, which Go's `>` on strings compares in order. The
-- hashes are parameters.
use go_wireguard_mesh.Common.{
  Bool, List, Option, String, [], ap, arith, false, if◌then◌else◌, ltb, nat_eq, refl, true, ℕ, ◌++◌,
  ◌∷◌, ◌≡◌, ◌≢◌, ◌⊎◌,
}

-- `a > b` on Go strings.
unfoldable pub gtb : List ℕ → List ℕ → Bool
gtb [] b = false
gtb (x ∷ xs) [] = true
gtb (x ∷ xs) (y ∷ ys) =
    let rest = gtb xs ys in if ltb y x then true else if nat_eq x y then rest else false

-- `lo, hi := a, b; if lo > hi { lo, hi = hi, lo }`.
abbrev pub ordered : List ℕ → List ℕ → List ℕ × List ℕ
ordered a b = if gtb a b then (b, a) else (a, b)

-- The byte of `|`.
abbrev pub bar : ℕ
bar = 124

-- `lo + "|" + hi`.
abbrev pub joined : List ℕ × List ℕ → List ℕ
joined k = k.0 ++ bar ∷ k.1

-- `relayPairID`, with the digest of the joined keys as a parameter.
unfoldable pub relay_pair_id : (List ℕ → String) → List ℕ → List ℕ → String
relay_pair_id digest a b = digest (joined (ordered a b))

-- `DerivePairKey`; `derive master info` is HKDF, which may fail.
unfoldable pub derive_pair_key :
    (List ℕ → List ℕ → Option (List ℕ)) → List ℕ → List ℕ → List ℕ → List ℕ → Option (List ℕ)
derive_pair_key derive label master a b = derive master (label ++ joined (ordered a b))

-- The port that `handleRelayPair` answers a peer with, out of the two of the pair.
unfoldable pub own_port : List ℕ → List ℕ → ℕ × ℕ → ℕ
own_port self target ports = if gtb self target then ports.1 else ports.0

gtb_irrefl : (a : List ℕ) → gtb a a ≡ false
unfolding gtb
gtb_irrefl [] = refl
gtb_irrefl (x ∷ xs) = ground (arith, gtb_irrefl xs)

gtb_asym : (a b : List ℕ) → gtb a b ≡ true → gtb b a ≡ false
unfolding gtb
gtb_asym [] b h = cc
gtb_asym (x ∷ xs) [] h = refl
gtb_asym (x ∷ xs) (y ∷ ys) h = ground (arith, gtb_asym xs ys)

-- Neither key is larger only when they are the same.
gtb_total : (a b : List ℕ) → gtb a b ≡ false → gtb b a ≡ false → a ≡ b
unfolding gtb
gtb_total [] [] h k = refl
gtb_total [] (y ∷ ys) h k = cc
gtb_total (x ∷ xs) [] h k = cc
gtb_total (x ∷ xs) (y ∷ ys) h k = ground (arith, gtb_total xs ys)

pub ordered_comm : (a b : List ℕ) → ordered a b ≡ ordered b a
ordered_comm a b = ground (arith, gtb_asym a b, gtb_asym b a, gtb_total a b)

-- The two peers of a pair derive the same pair identifier and the same preshared key, whichever of
-- them is named first, and for two different keys they are answered with the two different ports
-- of the session, whatever the ports are.
pub both_sides_agree :
    (digest : List ℕ → String) (derive : List ℕ → List ℕ → Option (List ℕ))
    (label master a b : List ℕ) (ports : ℕ × ℕ)
    → a ≢ b
    → (relay_pair_id digest a b ≡ relay_pair_id digest b a)
      × (derive_pair_key derive label master a b ≡ derive_pair_key derive label master b a)
      × ((own_port a b ports ≡ ports.0) × (own_port b a ports ≡ ports.1)
          ⊎ (own_port a b ports ≡ ports.1) × (own_port b a ports ≡ ports.0))
unfolding relay_pair_id derive_pair_key own_port
both_sides_agree digest derive label master a b ports ne = (
  ap (λ k. digest (joined k)) (ordered_comm a b),
  ap (λ k. derive master (label ++ joined k)) (ordered_comm a b),
  ground (arith, gtb_asym a b, gtb_asym b a, gtb_total a b),
)
