-- ===== src/Tests/LimiterRuns.antt =====
-- Runs of internal/httpx/ratelimit.go.
use go_wireguard_mesh.Common.{
  List, [], arith, false, if◌then◌else◌, leb, none, refl, some, true, ℕ, ◌+◌, ◌∷◌, ◌≡◌, ◌≤◌,
}
use go_wireguard_mesh.RateLimiter.{Bucket, Step, allow, answers, call, calls, evict, tick}
use go_wireguard_mesh.RateLimiter.Eviction.{Used, fresh, taken, answers-calls, IsRefilled}

-- A bucket of one token that comes back ten seconds after it was taken: the time from which there
-- is one.
abbrev one_token : Bucket ℕ
one_token = record {
  new_limiter = 0;
  take = λ now l. if leb l now then (now + 10000000000, true) else (l, false);
}

one_token-Used : (t l : ℕ) → Used one_token t l → l ≤ t + 10000000000
one_token-Used t _ (fresh _) = omega arith
one_token-Used t _ (taken u _ l w h) = ground (arith, one_token-Used u l w)

one_token-IsRefilled : IsRefilled one_token
one_token-IsRefilled t now l w h = ground (arith, one_token-Used t l w)

abbrev requests : List (Step one_token)
requests =
    call "a" 0
    ∷ call "a" 1
    ∷ call "b" 2
    ∷ tick 300000000000
    ∷ call "b" 300000000000
    ∷ tick 601000000000
    ∷ call "a" 601000000001
    ∷ call "a" 601000000002
    ∷ []

answers_run :
    answers one_token requests (λ k. none) ≡ true ∷ false ∷ true ∷ true ∷ true ∷ false ∷ []
unfolding answers allow evict
answers_run = refl

evicted_run : evict one_token 700000000000 (λ k. some (record { limiter = 0; last = 1 })) "a" ≡ none
unfolding evict
evicted_run = refl

answers-calls_example :
    answers one_token requests (λ k. none)
    ≡ answers one_token (calls one_token requests) (λ k. none)
answers-calls_example = answers-calls one_token 0 requests one_token-IsRefilled (
  omega arith,
  (
    omega arith,
    (omega arith, (omega arith, (omega arith, (omega arith, (omega arith, (omega arith, tt)))))),
  ),
)
