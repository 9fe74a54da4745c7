-- ===== src/Store/Telemetry/Totals.antt =====
-- What a report adds to the byte counts of the links.
use go_wireguard_mesh.Common.{
  Bool, Bool-cases, Dict, List, Option, Option-cases, String, [], arith, bytes_key, false,
  if◌then◌else◌, inl, inr, lookup, lookup-insert, nat_eq, nat_key, none, some, text_key, ℕ, ◌+◌,
  ◌==◌, ◌∷◌, ◌≡◌,
}
use go_wireguard_mesh.Store.{ok}
use go_wireguard_mesh.Store.Telemetry.{Counter, Link, Tables, has_peer, pair_eq_iff, pair_key}
use go_wireguard_mesh.Store.Telemetry.Apply.{accumulated, apply_counters, upsert_link}

abbrev pub rx_at : ℕ × ℕ → Dict (ℕ × ℕ) Link → ℕ
rx_at k m = elim (lookup k m) [ none ↦ 0 | some l ↦ l.rx_bytes ]

abbrev pub tx_at : ℕ × ℕ → Dict (ℕ × ℕ) Link → ℕ
tx_at k m = elim (lookup k m) [ none ↦ 0 | some l ↦ l.tx_bytes ]

abbrev pub resolves : Option ℕ → ℕ → Bool
resolves none j = false
resolves (some k) j = nat_eq k j

-- The bytes that the counters give for the peer `j`, whose key stands in `ids`.
abbrev pub rx_for : Dict String ℕ → ℕ → List Counter → ℕ
rx_for ids j [] = 0
rx_for ids j (c ∷ cs) = (if resolves (lookup c.key ids) j then c.rx_bytes else 0) + rx_for ids j cs

abbrev pub tx_for : Dict String ℕ → ℕ → List Counter → ℕ
tx_for ids j [] = 0
tx_for ids j (c ∷ cs) = (if resolves (lookup c.key ids) j then c.tx_bytes else 0) + tx_for ids j cs

rx_at-upsert_link :
    (now : ℕ) (k l : ℕ × ℕ) (c : Counter) (m : Dict (ℕ × ℕ) Link)
    → rx_at l (upsert_link now k c m) ≡ rx_at l m + (if k == l then c.rx_bytes else 0)
rx_at-upsert_link now k l c m = elim (Option-cases (lookup k m)) [
  | inl e ↦ ground (arith, pair_eq_iff k l, lookup-insert k l (accumulated now c (lookup k m)) m)
  | inr (a, e) ↦
      ground (arith, pair_eq_iff k l, lookup-insert k l (accumulated now c (lookup k m)) m)
]

tx_at-upsert_link :
    (now : ℕ) (k l : ℕ × ℕ) (c : Counter) (m : Dict (ℕ × ℕ) Link)
    → tx_at l (upsert_link now k c m) ≡ tx_at l m + (if k == l then c.tx_bytes else 0)
tx_at-upsert_link now k l c m = elim (Option-cases (lookup k m)) [
  | inl e ↦ ground (arith, pair_eq_iff k l, lookup-insert k l (accumulated now c (lookup k m)) m)
  | inr (a, e) ↦
      ground (arith, pair_eq_iff k l, lookup-insert k l (accumulated now c (lookup k m)) m)
]

abbrev counted : ℕ → ℕ → Counter → Tables → Tables
counted now i c t = t

pub apply_counters_totals :
    (now i : ℕ) (ids : Dict String ℕ) (cs : List Counter) (t u : Tables) (a b : ℕ)
    → apply_counters now i ids cs t ≡ ok u
    → (rx_at (a, b) u.links ≡ rx_at (a, b) t.links + (if nat_eq i a then rx_for ids b cs else 0))
      × (tx_at (a, b) u.links ≡ tx_at (a, b) t.links + (if nat_eq i a then tx_for ids b cs else 0))
unfolding apply_counters
apply_counters_totals now i ids [] t u a b h = ground arith
apply_counters_totals now i ids (c ∷ cs) t u a b h = elim (Option-cases (lookup c.key ids)) [
  | inl e ↦ ground (arith, apply_counters_totals now i ids cs t u a b)
  | inr (j, e) ↦ elim (Bool-cases (has_peer i t.db.peers)) [
    | inl p ↦ ground (
      arith,
      rx_at-upsert_link now (i, j) (a, b) c t.links,
      tx_at-upsert_link now (i, j) (a, b) c t.links,
      apply_counters_totals now i ids cs (record t { links = upsert_link now (i, j) c t.links }) u a
          b,
    )
    | inr p ↦ ground arith
  ]
]
