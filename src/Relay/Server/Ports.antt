-- ===== src/Relay/Server/Ports.antt =====
-- The port that `listenUDP` finds, and what it means that it finds none.
use mathlib.Core.Path.{subst}
use go_wireguard_mesh.Common.{
  Bool, Bool-cases, List, Option, arith, false, inl, inr, nat_eq, nat_eq_iff, refl, suc, true, zero,
  ℕ, ◌+◌, ◌<◌, ◌≡◌, ◌≢◌, ◌≤◌, ◌-◌,
}
use go_wireguard_mesh.Relay.Server.{
  Config, Result, can_bind, err, first_free, listen_udp, ok, ports_exhausted,
}

module _ (refused : ℕ → Bool) where
  -- The port is the lowest of the range that can be bound.
  abbrev pub IsLowest : List ℕ → ℕ → ℕ → ℕ → Type 0
  IsLowest held lo top p =
      (lo ≤ p)
      × (p < top)
      × (can_bind refused held p ≡ true)
      × ((q : ℕ) → lo ≤ q → q < p → can_bind refused held q ≡ false)

  abbrev pub IsFull : List ℕ → ℕ → ℕ → Type 0
  IsFull held lo top = (q : ℕ) → lo ≤ q → q < top → can_bind refused held q ≡ false

  -- What the loop over a range says of it.
  abbrev pub Finds : List ℕ → ℕ → ℕ → Result ℕ → Type 0
  Finds held lo top (ok p) = IsLowest held lo top p
  Finds held lo top (err e) = (e ≡ ports_exhausted) × IsFull held lo top

  Finds-skip :
      (held : List ℕ) (lo n : ℕ) (r : Result ℕ)
      → can_bind refused held lo ≡ false
      → Finds held (lo + 1) (lo + 1 + n) r
      → Finds held lo (lo + suc n) r
  Finds-skip held lo n (ok p) no_bind (a, b, c, d) = (
    omega arith,
    omega arith,
    c,
    λ q l u. elim (Bool-cases (nat_eq lo q)) [
      | inl e ↦ subst (λ x. can_bind refused held x ≡ false) ((nat_eq_iff lo q).0 e) no_bind
      | inr e ↦ d q (ground arith) u
    ],
  )
  Finds-skip held lo n (err e) no_bind (x, f) = (
    x,
    λ q l u. elim (Bool-cases (nat_eq lo q)) [
      | inl e ↦ subst (λ x. can_bind refused held x ≡ false) ((nat_eq_iff lo q).0 e) no_bind
      | inr e ↦ f q (ground arith) (omega arith)
    ],
  )

  pub first_free-Finds :
      (held : List ℕ) (n lo : ℕ) → Finds held lo (lo + n) (first_free refused held n lo)
  unfolding first_free
  first_free-Finds held zero lo = (refl, λ q l u. absurd (omega arith))
  first_free-Finds held (suc n) lo = elim (Bool-cases (can_bind refused held lo)) [
    | inl e ↦ rw e (omega arith, omega arith, e, λ q l u. absurd (omega arith))
    | inr e ↦ rw e (
        Finds-skip held lo n (first_free refused held n (lo + 1)) e
          (first_free-Finds held n (lo + 1)))
  ]

no_zero : (c : Config) → c.port_min ≢ 0 → nat_eq c.port_min 0 ≡ false
no_zero c h = ground arith

module _ (refused : ℕ → Bool) (ephemeral : List ℕ → Option ℕ) where
  -- With a port range configured, the relay binds the lowest port of the range, both ends
  -- included, that is neither refused nor held, and reports exhaustion exactly when no port of the
  -- range can be bound.
  pub listen_udp_range :
      (c : Config) (held : List ℕ)
      → c.port_min ≢ 0
      → c.port_min ≤ c.port_max
      → Finds refused held c.port_min (c.port_max + 1) (listen_udp refused ephemeral c held)
  unfolding listen_udp
  listen_udp_range c held h le = rw (no_zero c h) (
      subst
        (λ top.
          Finds refused held c.port_min top
            (first_free refused held (c.port_max + 1 - c.port_min) c.port_min))
        (omega arith) (first_free-Finds refused held (c.port_max + 1 - c.port_min) c.port_min))
