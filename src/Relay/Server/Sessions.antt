-- ===== src/Relay/Server/Sessions.antt =====
-- The invariant of the relay's sessions: the ports of its sockets.
use go_wireguard_mesh.Common.{
  All, Bool, Bool-cases, Dict, IsUnique, List, String, [], arith, false, inl, inr, insert, keep,
  lookup, nat_key, none, refl, some, text_key, ℕ, ◌++◌, ◌||◌, ◌∷◌, ◌≡◌, ◌≢◌, ◌≤◌, Option-cases,
  insert-IsUnique, keep-IsUnique, not,
}
use go_wireguard_mesh.Relay.Pair.{Pair, addr_key, Packet, forward}
use go_wireguard_mesh.Relay.Server.{
  Config, Server, bound, mem, cleanup, close, is_idle, new, ok, receive,
}

-- No number stands twice in the list.
abbrev pub IsDistinct : List ℕ → Type 0
IsDistinct [] = Unit
IsDistinct (x ∷ xs) = (mem x xs ≡ false) × IsDistinct xs

abbrev pub InRange : Config → ℕ → Type 0
InRange c p = (c.port_min ≤ p) × (p ≤ c.port_max)

-- Every pair is listed once, no two sockets have the same port, and with a range configured every
-- port is in it.
pub record IsWellFormed (s : Server) : Type 0 where
  pub unique : IsUnique s.pairs
  pub distinct : IsDistinct (bound s.pairs)
  pub ranged : s.cfg.port_min ≢ 0 → All (InRange s.cfg) (bound s.pairs)

mem-append : (n : ℕ) (xs ys : List ℕ) → mem n (xs ++ ys) ≡ (mem n xs || mem n ys)
mem-append n [] ys = refl
mem-append n (x ∷ xs) ys = ground (arith, mem-append n xs ys)

pub append-IsDistinct :
    (xs : List ℕ) (a b : ℕ)
    → IsDistinct xs
    → mem a xs ≡ false
    → mem b (a ∷ xs) ≡ false
    → IsDistinct (xs ++ a ∷ b ∷ [])
append-IsDistinct [] a b d ma mb = ground arith
append-IsDistinct (x ∷ xs) a b d ma mb =
    ground (arith, mem-append x xs (a ∷ b ∷ []), append-IsDistinct xs a b d.1)

pub bound-insert_new :
    (id : String) (p : Pair) (m : Dict String Pair)
    → lookup id m ≡ none
    → bound (insert id p m) ≡ bound m ++ p.port_a ∷ p.port_b ∷ []
unfolding bound lookup insert
bound-insert_new id p [] h = refl
bound-insert_new id p ((j, q) ∷ m) h = ground (arith, bound-insert_new id p m)

bound-insert_same :
    (id : String) (p : Pair) (m : Dict String Pair) {q : Pair}
    → lookup id m ≡ some q
    → p.port_a ≡ q.port_a
    → p.port_b ≡ q.port_b
    → bound (insert id p m) ≡ bound m
unfolding bound lookup insert
bound-insert_same id p [] h a b = cc
bound-insert_same id p ((j, r) ∷ m) {q} h a b = ground (arith, bound-insert_same id p m {q = q})

mem-bound-keep :
    (f : String × Pair → Bool) (n : ℕ) (m : Dict String Pair)
    → mem n (bound m) ≡ false
    → mem n (bound (keep f m)) ≡ false
unfolding bound
mem-bound-keep f n [] h = refl
mem-bound-keep f n ((j, r) ∷ m) h = ground (arith, mem-bound-keep f n m)

bound-keep-IsDistinct :
    (f : String × Pair → Bool) (m : Dict String Pair)
    → IsDistinct (bound m)
    → IsDistinct (bound (keep f m))
unfolding bound
bound-keep-IsDistinct f [] h = tt
bound-keep-IsDistinct f ((j, r) ∷ m) h = ground (
  arith,
  bound-keep-IsDistinct f m h.1.1,
  mem-bound-keep f r.port_a m,
  mem-bound-keep f r.port_b m,
)

bound-keep-All {ℓ} :
    (P : ℕ → Type ℓ) (f : String × Pair → Bool) (m : Dict String Pair)
    → All P (bound m)
    → All P (bound (keep f m))
unfolding bound
bound-keep-All P f [] h = tt
bound-keep-All P f ((j, r) ∷ m) h = elim (Bool-cases (f (j, r))) [
  | inl e ↦ rw e (h.0, (h.1.0, bound-keep-All P f m h.1.1))
  | inr e ↦ rw e (bound-keep-All P f m h.1.1)
]

forward_ports :
    (k : Packet) (p : Pair)
    → ((forward k p).0.port_a ≡ p.port_a) × ((forward k p).0.port_b ≡ p.port_b)
unfolding forward
forward_ports k p = elim (Bool-cases k.from_a) [
  | inl e ↦ rw e (ground arith)
  | inr e ↦ rw e (ground arith)
]

-- A pair that is replaced by one with the same ports.
pub insert_same-IsWellFormed :
    (id : String) (p q : Pair) (s : Server)
    → lookup id s.pairs ≡ some q
    → p.port_a ≡ q.port_a
    → p.port_b ≡ q.port_b
    → IsWellFormed s
    → IsWellFormed (record s { pairs = insert id p s.pairs })
insert_same-IsWellFormed id p q s h a b w =
    let same : bound (insert id p s.pairs) ≡ bound s.pairs = bound-insert_same id p s.pairs h a b in
    record {
      unique = insert-IsUnique id p s.pairs w.unique;
      distinct = rw same w.distinct;
      ranged = λ r. rw same (w.ranged r);
    }

receive_absent :
    (id : String) (k : Packet) (s : Server) → lookup id s.pairs ≡ none → receive id k s ≡ (s, [])
unfolding receive
receive_absent id k s e = ground arith

receive_present :
    (id : String) (k : Packet) (s : Server) {p : Pair}
    → lookup id s.pairs ≡ some p
    → receive id k s ≡ (record s { pairs = insert id (forward k p).0 s.pairs }, (forward k p).1)
unfolding receive
receive_present id k s e = ground arith

pub receive-IsWellFormed :
    (id : String) (k : Packet) (s : Server) → IsWellFormed s → IsWellFormed (receive id k s).0
receive-IsWellFormed id k s w = elim (Option-cases (lookup id s.pairs)) [
  | inl e ↦ rw (receive_absent id k s e) w
  | inr (p, e) ↦ rw (receive_present id k s e) (
      insert_same-IsWellFormed id (forward k p).0 p s e (forward_ports k p).0 (forward_ports k p).1
        w)
]

pub cleanup-IsWellFormed : (now : ℕ) (s : Server) → IsWellFormed s → IsWellFormed (cleanup now s)
unfolding cleanup
cleanup-IsWellFormed now s w = record {
  unique = keep-IsUnique (λ e. not (is_idle now e.1)) s.pairs w.unique;
  distinct = bound-keep-IsDistinct (λ e. not (is_idle now e.1)) s.pairs w.distinct;
  ranged = λ r. bound-keep-All (InRange s.cfg) (λ e. not (is_idle now e.1)) s.pairs (w.ranged r);
}

pub close-IsWellFormed : (s : Server) → IsWellFormed (close s)
unfolding close bound
close-IsWellFormed s = record { unique = tt; distinct = tt; ranged = λ r. tt }

pub new-IsWellFormed : (c : Config) {s : Server} → new c ≡ ok s → IsWellFormed s
unfolding new bound
new-IsWellFormed c {s} h =
    let e : s.pairs ≡ [] = ground arith in
    record { unique = rw e tt; distinct = rw e tt; ranged = λ r. rw e tt }
