-- ===== src/RateLimiter/Eviction.antt =====
-- The eviction of idle clients is not seen by any client.
use mathlib.Core.Path.{subst}
use go_wireguard_mesh.Common.{
  Bool, Bool-cases, List, Option, [], ap, arith, inl, inr, ltb, none, some, sym, ℕ, ◌-◌, ◌<◌, ◌∙◌,
  ◌∷◌, ◌≡◌, ◌≤◌, ◌⊎◌, String, bytes_key, false, if◌then◌else◌, ltb→lt, nat_key, refl, text_key,
  true, ◌==◌,
}
use go_wireguard_mesh.RateLimiter.{
  Bucket, Client, Step, call, granted, idle_limit, kept, tick, Clients, allow, answers, calls,
  evict,
}

module _ {L : Type 0} (b : Bucket L) where
  -- A bucket whose calls were made in order, up to a time.
  pub data Used : ℕ → L → Type 0 where
    fresh : (t : ℕ) → Used t b.new_limiter
    taken : (u t : ℕ) (l : L) → Used u l → u ≤ t → Used t (b.take t l).0

  -- A bucket that was not used for longer than the limit is full, so it answers like a new one.
  abbrev pub IsRefilled : Type 0
  IsRefilled =
      (t now : ℕ) (l : L)
      → Used t l
      → idle_limit < now - t
      → b.take now l ≡ b.take now b.new_limiter

  -- The steps happen in the order of their times.
  abbrev pub IsOrdered : ℕ → List (Step b) → Type 0
  IsOrdered t [] = Unit
  IsOrdered t (call key now ∷ ss) = (t ≤ now) × IsOrdered now ss
  IsOrdered t (tick now ∷ ss) = (t ≤ now) × IsOrdered now ss

  -- A client's bucket was not used after the client was last seen.
  abbrev IsUsed : ℕ → Option (Client L) → Type 0
  IsUsed t none = Unit
  IsUsed t (some c) = (c.last ≤ t) × Used c.last c.limiter

  abbrev IsIdle : ℕ → Option (Client L) → Type 0
  IsIdle now none = Unit
  IsIdle now (some c) = idle_limit < now - c.last

  -- The first is the second, or was evicted.
  abbrev IsLike : ℕ → Option (Client L) → Option (Client L) → Type 0
  IsLike now c d = IsUsed now d × ((c ≡ d) ⊎ ((c ≡ none) × IsIdle now d))

  granted-IsLike :
      (t now : ℕ) (c d : Option (Client L))
      → IsRefilled
      → t ≤ now
      → IsLike t c d
      → granted b now c ≡ granted b now d
  granted-IsLike t now c d r h (u, inl e) = ap (granted b now) e
  granted-IsLike t now c none r h (u, inr e) = ap (granted b now) e.0
  granted-IsLike t now c (some x) r h (u, inr e) =
      ap (granted b now) e.0
      ∙ ap (λ (o : L × Bool). (record { limiter = o.0; last = now }, o.1))
          (sym (r x.last now x.limiter u.1 (omega (arith, h, e.1))))

  granted-IsUsed :
      (t now : ℕ) (d : Option (Client L))
      → t ≤ now
      → IsUsed t d
      → IsUsed now (some (granted b now d).0)
  granted-IsUsed t now none h u =
      (omega arith, taken now now b.new_limiter (fresh now) (omega arith))
  granted-IsUsed t now (some x) h u =
      (omega arith, taken x.last now x.limiter u.1 (omega (arith, h, u.0)))

  later-IsUsed : (t now : ℕ) (d : Option (Client L)) → t ≤ now → IsUsed t d → IsUsed now d
  later-IsUsed t now none h u = u
  later-IsUsed t now (some x) h u = (omega (arith, h, u.0), u.1)

  later-IsLike : (t now : ℕ) (c d : Option (Client L)) → t ≤ now → IsLike t c d → IsLike now c d
  later-IsLike t now c d h (u, inl e) = (later-IsUsed t now d h u, inl e)
  later-IsLike t now c none h (u, inr e) = (u, inr e)
  later-IsLike t now c (some x) h (u, inr e) =
      (later-IsUsed t now (some x) h u, inr (e.0, omega (arith, h, e.1)))

  IsUsed-IsLike : (now : ℕ) (d : Option (Client L)) → IsUsed now d → IsLike now (kept b now d) d
  IsUsed-IsLike now none u = (u, inl refl)
  IsUsed-IsLike now (some x) u = elim (Bool-cases (ltb idle_limit (now - x.last))) [
    | inl q ↦ (u, inr (ground (arith, q), ltb→lt idle_limit (now - x.last) q))
    | inr q ↦ (u, inl (ground (arith, q)))
  ]

  kept-IsLike : (now : ℕ) (c d : Option (Client L)) → IsLike now c d → IsLike now (kept b now c) d
  kept-IsLike now c d (u, inl e) =
      subst (λ (x : Option (Client L)). IsLike now (kept b now x) d) (sym e) (IsUsed-IsLike now d u)
  kept-IsLike now c d (u, inr e) = (u, inr (ap (kept b now) e.0, e.1))

  abbrev Alike : ℕ → Clients L → Clients L → Type 0
  Alike now cs ds = (k : String) → IsLike now (cs k) (ds k)

  chosen-IsLike :
      (now : ℕ) (q : Bool) (x c d : Option (Client L))
      → IsUsed now x
      → IsLike now c d
      → IsLike now (if q then x else c) (if q then x else d)
  chosen-IsLike now true x c d u l = (u, inl refl)
  chosen-IsLike now false x c d u l = l

  allow-Alike :
      (t now : ℕ) (key : String) (cs ds : Clients L)
      → IsRefilled
      → t ≤ now
      → Alike t cs ds
      → let o = allow b key now cs in let p = allow b key now ds in (o.1 ≡ p.1) × Alike now o.0 p.0
  unfolding allow
  allow-Alike t now key cs ds r h a =
      let g = granted-IsLike t now (cs key) (ds key) r h (a key) in
      let y = (granted b now (ds key)).0 in
      (
        ap (λ (o : Client L × Bool). o.1) g,
        λ k.
            subst
              (λ (x : Client L).
                IsLike now (if k == key then some x else cs k) (if k == key then some y else ds k))
              (sym (ap (λ (o : Client L × Bool). o.0) g))
              (chosen-IsLike now (k == key) (some y) (cs k) (ds k)
                (granted-IsUsed t now (ds key) h (a key).0)
                (later-IsLike t now (cs k) (ds k) h (a k))),
      )

  answers-Alike :
      (t : ℕ) (ss : List (Step b)) (cs ds : Clients L)
      → IsRefilled
      → IsOrdered t ss
      → Alike t cs ds
      → answers b ss cs ≡ answers b (calls b ss) ds
  unfolding answers evict
  answers-Alike t [] cs ds r o a = refl
  answers-Alike t (call key now ∷ ss) cs ds r o a =
      let w = allow-Alike t now key cs ds r o.0 a in
      let i = answers-Alike now ss (allow b key now cs).0 (allow b key now ds).0 r o.1 w.1 in
      ap (λ (x : Bool). x ∷ answers b ss (allow b key now cs).0) w.0
      ∙ ap (λ (xs : List Bool). (allow b key now ds).1 ∷ xs) i
  answers-Alike t (tick now ∷ ss) cs ds r o a =
      answers-Alike now ss (evict b now cs) ds r o.1
        (λ k. kept-IsLike now (cs k) (ds k) (later-IsLike t now (cs k) (ds k) o.0 (a k)))

  -- When a bucket that was not used for more than ten minutes is full again: in any order of
  -- requests and sweeps, at times that do not run backwards, the requests are answered from the
  -- start as they would be if no client was ever evicted.
  pub answers-calls :
      (t : ℕ) (ss : List (Step b))
      → IsRefilled
      → IsOrdered t ss
      → answers b ss (λ k. none) ≡ answers b (calls b ss) (λ k. none)
  answers-calls t ss r o = answers-Alike t ss (λ k. none) (λ k. none) r o (λ k. (tt, inl refl))
