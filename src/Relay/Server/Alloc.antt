-- ===== src/Relay/Server/Alloc.antt =====
-- What `Allocate` does to the sessions.
use mathlib.Core.Path.{subst}
use go_wireguard_mesh.Common.{
  Bool, Bool-cases, List, Option, Option-cases, String, arith, false, inl, inr, nat_eq, nat_eq_iff,
  refl, some, ℕ, ◌+◌, ◌-◌, ◌∷◌, ◌≡◌, ◌≢◌, All-append, [], insert, insert-IsUnique, lookup, nat_key,
  none, text_key, ◌++◌, ◌⊎◌,
}
use go_wireguard_mesh.Relay.Pair.{Pair, addr_key, touch}
use go_wireguard_mesh.Relay.Server.{
  Config, Result, Server, allocate, bind_pair, bound, err, first_free, listen_udp, mem, ok, Error,
  fresh_pair,
}
use go_wireguard_mesh.Relay.Server.Ports.{Finds, first_free-Finds}
use go_wireguard_mesh.Relay.Server.Sessions.{
  InRange, IsWellFormed, append-IsDistinct, bound-insert_new, insert_same-IsWellFormed,
}

-- The operating system never hands out, for a bind to port 0, a port that is in use.
abbrev pub GivesUnused : (List ℕ → Option ℕ) → Type 0
GivesUnused ephemeral = (held : List ℕ) (p : ℕ) → ephemeral held ≡ some p → mem p held ≡ false

pub Result-cases :
    {A : Type 0} (r : Result A) → ((a : A) × (r ≡ ok a)) ⊎ ((e : Error) × (r ≡ err e))
Result-cases (ok a) = inl (a, refl)
Result-cases (err e) = inr (e, refl)

first_free_new :
    (refused : ℕ → Bool) (c : Config) (held : List ℕ) (p : ℕ)
    → first_free refused held (c.port_max + 1 - c.port_min) c.port_min ≡ ok p
    → (mem p held ≡ false) × InRange c p
first_free_new refused c held p h =
    let f : Finds refused held c.port_min (c.port_min + (c.port_max + 1 - c.port_min)) (ok p) =
      rw h at (first_free-Finds refused held (c.port_max + 1 - c.port_min) c.port_min) in
    (ground (arith, f.2), (f.0, omega (arith, f.0, f.1)))

module _ (refused : ℕ → Bool) (ephemeral : List ℕ → Option ℕ) where
  pub allocate_known :
      (id : String) (now : ℕ) (s : Server) {p : Pair}
      → lookup id s.pairs ≡ some p
      → allocate refused ephemeral id now s
        ≡ (record s { pairs = insert id (touch now p) s.pairs }, ok (p.port_a, p.port_b))
  unfolding allocate
  allocate_known id now s e = ground arith

  pub allocate_new :
      (id : String) (now : ℕ) (s : Server) {p : Pair}
      → lookup id s.pairs ≡ none
      → bind_pair refused ephemeral s now ≡ ok p
      → allocate refused ephemeral id now s
        ≡ (record s { pairs = insert id p s.pairs }, ok (p.port_a, p.port_b))
  unfolding allocate
  allocate_new id now s e b = ground arith

  pub allocate_failed :
      (id : String) (now : ℕ) (s : Server) {x : Error}
      → lookup id s.pairs ≡ none
      → bind_pair refused ephemeral s now ≡ err x
      → allocate refused ephemeral id now s ≡ (s, err x)
  unfolding allocate
  allocate_failed id now s e b = ground arith

module _ (refused : ℕ → Bool) (ephemeral : List ℕ → Option ℕ) (unused : GivesUnused ephemeral) where
  listen_udp_new :
      (c : Config) (held : List ℕ) (p : ℕ)
      → listen_udp refused ephemeral c held ≡ ok p
      → (mem p held ≡ false) × (c.port_min ≢ 0 → InRange c p)
  unfolding listen_udp
  listen_udp_new c held p h = elim (Bool-cases (nat_eq c.port_min 0)) [
    | inl z ↦ elim (Option-cases (ephemeral held)) [
      | inl e ↦ ground arith
      | inr (q, e) ↦
          (unused held p (ground arith), λ ne. absurd (ne ((nat_eq_iff c.port_min 0).0 z)))
    ]
    | inr z ↦
        let f : (mem p held ≡ false) × InRange c p = first_free_new refused c held p (rw z at h) in
        (f.0, λ ne. f.1)
  ]

  -- A freshly bound pair holds two different ports that were free.
  abbrev pub IsFreshPair : Server → Pair → Type 0
  IsFreshPair s p =
      (mem p.port_a (bound s.pairs) ≡ false)
      × (mem p.port_b (p.port_a ∷ bound s.pairs) ≡ false)
      × (s.cfg.port_min ≢ 0 → InRange s.cfg p.port_a × InRange s.cfg p.port_b)

  bind_pair_fresh :
      (s : Server) (now : ℕ) (p : Pair) → bind_pair refused ephemeral s now ≡ ok p → IsFreshPair s p
  unfolding bind_pair
  bind_pair_fresh s now p h =
      elim (Result-cases (listen_udp refused ephemeral s.cfg (bound s.pairs))) [
        | inr (x, ea) ↦ absurd (ground arith)
        | inl (a, ea) ↦
            elim (Result-cases (listen_udp refused ephemeral s.cfg (a ∷ bound s.pairs))) [
              | inr (x, eb) ↦ absurd (ground arith)
              | inl (b, eb) ↦
                  let la : (mem a (bound s.pairs) ≡ false)
                      × (s.cfg.port_min ≢ 0 → InRange s.cfg a) =
                    listen_udp_new s.cfg (bound s.pairs) a ea in
                  let lb : (mem b (a ∷ bound s.pairs) ≡ false)
                      × (s.cfg.port_min ≢ 0 → InRange s.cfg b) =
                    listen_udp_new s.cfg (a ∷ bound s.pairs) b eb in
                  let e : fresh_pair a b now ≡ p = ground arith in
                  subst (IsFreshPair s) e (la.0, lb.0, λ ne. (la.1 ne, lb.1 ne))
            ]
      ]

  insert_new-IsWellFormed :
      (id : String) (p : Pair) (s : Server)
      → lookup id s.pairs ≡ none
      → IsFreshPair s p
      → IsWellFormed s
      → IsWellFormed (record s { pairs = insert id p s.pairs })
  insert_new-IsWellFormed id p s e f w =
      let new_ports : bound (insert id p s.pairs) ≡ bound s.pairs ++ p.port_a ∷ p.port_b ∷ [] =
        bound-insert_new id p s.pairs e in
      record {
        unique = insert-IsUnique id p s.pairs w.unique;
        distinct =
            rw new_ports (append-IsDistinct (bound s.pairs) p.port_a p.port_b w.distinct f.0 f.1);
        ranged = λ ne. rw new_ports (
            All-append (InRange s.cfg) (bound s.pairs) (p.port_a ∷ p.port_b ∷ []) (w.ranged ne)
              ((f.2 ne).0, ((f.2 ne).1, tt)));
      }

  pub allocate-IsWellFormed :
      (id : String) (now : ℕ) (s : Server)
      → IsWellFormed s
      → IsWellFormed (allocate refused ephemeral id now s).0
  allocate-IsWellFormed id now s w = elim (Option-cases (lookup id s.pairs)) [
    | inr (p, e) ↦ rw (allocate_known refused ephemeral id now s e) (
        insert_same-IsWellFormed id (touch now p) p s e (unfold touch in refl)
          (unfold touch in refl) w)
    | inl e ↦ elim (Result-cases (bind_pair refused ephemeral s now)) [
      | inl (p, b) ↦
          rw (allocate_new refused ephemeral id now s e b)
            (insert_new-IsWellFormed id p s e (bind_pair_fresh s now p b) w)
      | inr (x, b) ↦ rw (allocate_failed refused ephemeral id now s e b) w
    ]
  ]
