-- ===== src/RateLimiter.antt =====
-- internal/httpx/ratelimit.go: a token bucket for each client address, with the eviction of clients
-- that are idle. The bucket is golang.org/x/time/rate's and a parameter; times are nanoseconds. A
-- call of `Allow` and a sweep are one step each, and the time of a call is read once.
pub mod Eviction
use go_wireguard_mesh.Common.{
  Bool, List, Option, String, [], bytes_key, if◌then◌else◌, ltb, nat_key, none, some, text_key, ℕ,
  ◌-◌, ◌==◌, ◌∷◌,
}

-- `rate.Limiter`: a new one, and `Allow` at a time.
pub record Bucket (L : Type 0) : Type 0 where
  pub new_limiter : L
  pub take : ℕ → L → L × Bool

-- `clientLimiter`.
pub record Client (L : Type 0) : Type 0 where
  pub limiter : L
  pub last : ℕ

-- What the map of `RateLimiter` holds at a key.
abbrev pub Clients : Type 0 → Type 0
Clients L = String → Option (Client L)

-- `10*time.Minute`.
abbrev pub idle_limit : ℕ
idle_limit = 600000000000

module _ {L : Type 0} (b : Bucket L) where
  -- `Allow` at what the map holds for the client.
  abbrev pub granted : ℕ → Option (Client L) → Client L × Bool
  granted now c =
      let o = b.take now (elim c [ none ↦ b.new_limiter | some x ↦ x.limiter ]) in
      (record { limiter = o.0; last = now }, o.1)

  abbrev pub put : String → Client L → Clients L → Clients L
  put key c cs k = if k == key then some c else cs k

  -- `Allow`.
  unfoldable pub allow : String → ℕ → Clients L → Clients L × Bool
  allow key now cs = let o = granted now (cs key) in (put key o.0 cs, o.1)

  abbrev pub kept : ℕ → Option (Client L) → Option (Client L)
  kept now none = none
  kept now (some c) = if ltb idle_limit (now - c.last) then none else some c

  -- A tick of `evictLoop`.
  unfoldable pub evict : ℕ → Clients L → Clients L
  evict now cs k = kept now (cs k)

  -- A request of a client, or a tick.
  pub data Step : Type 0 where
    call : String → ℕ → Step
    tick : ℕ → Step

  -- What the requests of the steps are answered.
  unfoldable pub answers : List Step → Clients L → List Bool
  answers [] cs = []
  answers (call key now ∷ ss) cs = let o = allow key now cs in o.1 ∷ answers ss o.0
  answers (tick now ∷ ss) cs = answers ss (evict now cs)

  abbrev pub calls : List Step → List Step
  calls [] = []
  calls (call key now ∷ ss) = call key now ∷ calls ss
  calls (tick now ∷ ss) = calls ss
