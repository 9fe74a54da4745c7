-- ===== src/Relay/Server/Life.antt =====
-- The relay over any sequence of its operations.
use go_wireguard_mesh.Common.{
  ==_false, ==_iff, Bool, Dict, List, Option, String, [], arith, false, if◌then◌else◌, lookup, ltb,
  nat_key, none, some, text_key, true, ℕ, ◌-◌, ◌==◌, ◌∷◌, ◌≡◌, ◌≢◌, ==_refl, Option-cases, inl, inr,
  lookup-insert, lookup-keep, not, refl,
}
use go_wireguard_mesh.Relay.Pair.{Packet, Pair, addr_key, touch}
use go_wireguard_mesh.Relay.Server.{
  Config, Error, Server, allocate, bound, cleanup, close, err, idle_timeout, mem, new, ok, receive,
  bind_pair, is_idle,
}
use go_wireguard_mesh.Relay.Server.Sessions.{
  IsDistinct, IsWellFormed, cleanup-IsWellFormed, close-IsWellFormed, new-IsWellFormed,
  receive-IsWellFormed,
}
use go_wireguard_mesh.Relay.Server.Alloc.{
  GivesUnused, allocate-IsWellFormed, Result-cases, allocate_failed, allocate_known, allocate_new,
}

mem_of_lookup :
    (j : String) (q : Pair) (m : Dict String Pair)
    → lookup j m ≡ some q
    → (mem q.port_a (bound m) ≡ true) × (mem q.port_b (bound m) ≡ true)
unfolding lookup bound
mem_of_lookup j q [] h = cc
mem_of_lookup j q ((i, p) ∷ m) h = ground (arith, mem_of_lookup j q m)

-- No port of the one pair is a port of the other.
abbrev pub IsApart : Pair → Pair → Type 0
IsApart p q =
    (p.port_a ≢ q.port_a) × (p.port_a ≢ q.port_b) × (p.port_b ≢ q.port_a) × (p.port_b ≢ q.port_b)

IsApart-in :
    (i j : String) (p q : Pair) (m : Dict String Pair)
    → IsDistinct (bound m)
    → lookup i m ≡ some p
    → lookup j m ≡ some q
    → (i == j) ≡ false
    → IsApart p q
unfolding lookup bound
IsApart-in i j p q [] d hp hq ne = cc
IsApart-in i j p q ((k, r) ∷ m) d hp hq ne = ground (
  arith,
  ==_iff k i,
  ==_iff k j,
  ==_iff i j,
  mem_of_lookup i p m,
  mem_of_lookup j q m,
  IsApart-in i j p q m d.1.1,
)

-- In a well-formed server the sessions of two different pairs share no port, and the two ports of
-- one session differ.
pub sessions-IsApart :
    (s : Server) (i j : String) (p q : Pair)
    → IsWellFormed s
    → i ≢ j
    → lookup i s.pairs ≡ some p
    → lookup j s.pairs ≡ some q
    → IsApart p q
sessions-IsApart s i j p q w ne hp hq =
    IsApart-in i j p q s.pairs w.distinct hp hq (==_false i j ne)

module _ (refused : ℕ → Bool) (ephemeral : List ℕ → Option ℕ) where
  -- What may happen to a running relay.
  pub data Step : Server → Server → Type 0 where
    allocates :
        (id : String) (now : ℕ) (s : Server) → Step s (allocate refused ephemeral id now s).0
    receives : (id : String) (k : Packet) (s : Server) → Step s (receive id k s).0
    cleans : (now : ℕ) (s : Server) → Step s (cleanup now s)
    closes : (s : Server) → Step s (close s)

  pub data Reach (s : Server) : Server → Type 0 where
    here : Reach s s
    next : {t u : Server} → Reach s t → Step t u → Reach s u

module _ (refused : ℕ → Bool) (ephemeral : List ℕ → Option ℕ) (unused : GivesUnused ephemeral) where
  Step-IsWellFormed : {s t : Server} → Step refused ephemeral s t → IsWellFormed s → IsWellFormed t
  Step-IsWellFormed (allocates id now s) w =
      allocate-IsWellFormed refused ephemeral unused id now s w
  Step-IsWellFormed (receives id k s) w = receive-IsWellFormed id k s w
  Step-IsWellFormed (cleans now s) w = cleanup-IsWellFormed now s w
  Step-IsWellFormed (closes s) w = close-IsWellFormed s

  Reach-from : {s t : Server} → Reach refused ephemeral s t → IsWellFormed s → IsWellFormed t
  Reach-from here w = w
  Reach-from (next r st) w = Step-IsWellFormed st (Reach-from r w)

  -- Every state that a server made by `New` reaches by allocations, datagrams, cleanups and a
  -- close is well formed: its sessions are listed once, all its sockets have different ports, and
  -- with a port range configured they are all in the range. The operating system is assumed to
  -- give a bind to port 0 no port that is in use.
  pub Reach-IsWellFormed :
      (c : Config) {s t : Server} → new c ≡ ok s → Reach refused ephemeral s t → IsWellFormed t
  Reach-IsWellFormed c h r = Reach-from r (new-IsWellFormed c h)

module _ (refused : ℕ → Bool) (ephemeral : List ℕ → Option ℕ) where
  -- An allocation that fails, for want of one port or of two, leaves the server as it was: no
  -- socket stays open.
  pub allocate_error :
      (id : String) (now : ℕ) (s : Server) {e : Error}
      → (allocate refused ephemeral id now s).1 ≡ err e
      → (allocate refused ephemeral id now s).0 ≡ s
  unfolding allocate
  allocate_error id now s h = ground arith

  -- An allocation, failed or not, leaves the session of every other pair as it was.
  pub allocate_others :
      (id j : String) (now : ℕ) (s : Server)
      → j ≢ id
      → lookup j (allocate refused ephemeral id now s).0.pairs ≡ lookup j s.pairs
  allocate_others id j now s ne = elim (Option-cases (lookup id s.pairs)) [
    | inr (p, e) ↦
        rw (allocate_known refused ephemeral id now s e)
          (ground (arith, ==_iff id j, lookup-insert id j (touch now p) s.pairs))
    | inl e ↦ elim (Result-cases (bind_pair refused ephemeral s now)) [
      | inl (p, b) ↦
          rw (allocate_new refused ephemeral id now s e b)
            (ground (arith, ==_iff id j, lookup-insert id j p s.pairs))
      | inr (x, b) ↦ rw (allocate_failed refused ephemeral id now s e b)
    ]
  ]

  bind_pair_time :
      (s : Server) (now : ℕ) (p : Pair)
      → bind_pair refused ephemeral s now ≡ ok p
      → p.last_active ≡ now
  unfolding bind_pair
  bind_pair_time s now p h = ground arith

  -- After an allocation that returns the ports a and b the pair has a session with those ports,
  -- which counts as active from that moment.
  pub allocate_ok :
      (id : String) (now a b : ℕ) (s : Server)
      → (allocate refused ephemeral id now s).1 ≡ ok (a, b)
      → (p : Pair) × (lookup id (allocate refused ephemeral id now s).0.pairs ≡ some p)
        × (p.port_a ≡ a)
        × (p.port_b ≡ b)
        × (p.last_active ≡ now)
  allocate_ok id now a b s h = elim (Option-cases (lookup id s.pairs)) [
    | inr (p, e) ↦ (
      touch now p,
      rw (allocate_known refused ephemeral id now s e)
          (ground (arith, ==_refl id, lookup-insert id id (touch now p) s.pairs)),
      unfold touch in ground (arith, allocate_known refused ephemeral id now s e),
      unfold touch in ground (arith, allocate_known refused ephemeral id now s e),
      unfold touch in refl,
    )
    | inl e ↦ elim (Result-cases (bind_pair refused ephemeral s now)) [
      | inl (p, b') ↦ (
        p,
        rw (allocate_new refused ephemeral id now s e b')
            (ground (arith, ==_refl id, lookup-insert id id p s.pairs)),
        ground (arith, allocate_new refused ephemeral id now s e b'),
        ground (arith, allocate_new refused ephemeral id now s e b'),
        bind_pair_time s now p b',
      )
      | inr (x, b') ↦ absurd (ground (arith, allocate_failed refused ephemeral id now s e b'))
    ]
  ]

-- Allocation is idempotent: however the first call came by its ports, a later call for the same
-- pair returns the same ports, whatever ports the system then refuses.
pub allocate_again :
    (refused refused' : ℕ → Bool) (ephemeral : List ℕ → Option ℕ) (id : String) (now later a b : ℕ)
    (s : Server)
    → (allocate refused ephemeral id now s).1 ≡ ok (a, b)
    → (allocate refused' ephemeral id later (allocate refused ephemeral id now s).0).1 ≡ ok (a, b)
allocate_again refused refused' ephemeral id now later a b s h =
    let (p, e, pa, pb, _) = allocate_ok refused ephemeral id now a b s h in
    rw (allocate_known refused' ephemeral id later (allocate refused ephemeral id now s).0 e)
      (rw (pa, pb))

-- A cleanup of a well-formed server removes exactly the sessions that have been idle for more than
-- ten minutes, and leaves every other session as it was.
pub lookup-cleanup :
    (now : ℕ) (id : String) (s : Server)
    → IsWellFormed s
    → lookup id (cleanup now s).pairs ≡ elim (lookup id s.pairs) [
      | none ↦ none
      | some p ↦ if ltb idle_timeout (now - p.last_active) then none else some p
    ]
unfolding cleanup
lookup-cleanup now id s w =
    ground (arith, lookup-keep (λ (p : Pair). not (is_idle now p)) id s.pairs w.unique)
