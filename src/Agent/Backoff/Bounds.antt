-- ===== src/Agent/Backoff/Bounds.antt =====
-- The waiting times stay between their bounds and never shrink as failures add up.
use go_wireguard_mesh.Common.{
  arith, if◌then◌else◌, min, nat_eq, refl, suc, zero, ℕ, ◌*◌, ◌^◌, ◌≡◌, ◌≤◌, ◌-◌,
}
use go_wireguard_mesh.Agent.Backoff.{
  direct_retry_interval, flap_hold_down, minute, signal_backoff, signal_reconnect_max,
  signal_reconnect_min, flap_hold_down_base,
}

capped : (n : ℕ) → flap_hold_down_base * 2 ^ min (suc (suc (suc (suc (suc n)))) - 1) 3 ≡ 16 * minute
capped n = let e : min (suc (suc (suc (suc (suc n)))) - 1) 3 ≡ 3 = omega arith in rw e

-- The retry interval is 5, 10 and 20 minutes after no, one and two failures, and 30 minutes after
-- any greater number.
pub direct_retry_interval_lem :
    (n : ℕ)
    → direct_retry_interval n ≡ (
        if nat_eq n 0
        then 5 * minute
        else if nat_eq n 1
        then 10 * minute
        else if nat_eq n 2
        then 20 * minute
        else 30 * minute)
unfolding direct_retry_interval
direct_retry_interval_lem zero = refl
direct_retry_interval_lem (suc zero) = refl
direct_retry_interval_lem (suc (suc zero)) = refl
direct_retry_interval_lem (suc (suc (suc zero))) = refl
direct_retry_interval_lem (suc (suc (suc (suc n)))) = ground arith

-- The hold-down is 2, 4 and 8 minutes for one, two and three flaps, 16 minutes for more, and none
-- without a flap.
pub flap_hold_down_lem :
    (n : ℕ)
    → flap_hold_down n ≡ (
        if nat_eq n 0
        then 0
        else if nat_eq n 1
        then 2 * minute
        else if nat_eq n 2
        then 4 * minute
        else if nat_eq n 3
        then 8 * minute
        else 16 * minute)
unfolding flap_hold_down
flap_hold_down_lem zero = refl
flap_hold_down_lem (suc zero) = refl
flap_hold_down_lem (suc (suc zero)) = refl
flap_hold_down_lem (suc (suc (suc zero))) = refl
flap_hold_down_lem (suc (suc (suc (suc zero)))) = refl
flap_hold_down_lem (suc (suc (suc (suc (suc n))))) = ground (arith, capped n)

-- More failures, flaps or failed dials never shorten a wait, and no wait is longer than its cap.
pub backoff_monotone :
    (m n : ℕ)
    → m ≤ n
    → (direct_retry_interval m ≤ direct_retry_interval n)
      × (direct_retry_interval n ≤ 30 * minute)
      × (flap_hold_down m ≤ flap_hold_down n)
      × (flap_hold_down n ≤ 16 * minute)
backoff_monotone m n h = ground (
  arith,
  direct_retry_interval_lem m,
  direct_retry_interval_lem n,
  flap_hold_down_lem m,
  flap_hold_down_lem n,
)

-- The wait before the agent dials the signal server again starts at 2 seconds, doubles with
-- each failure until it reaches the cap, and never exceeds 30 seconds.
pub signal_backoff_bounds :
    (n : ℕ)
    → (signal_reconnect_min ≤ signal_backoff n)
      × (signal_backoff n ≤ signal_reconnect_max)
      × (signal_backoff (suc n) ≡ min (2 * signal_backoff n) signal_reconnect_max)
unfolding signal_backoff
signal_backoff_bounds zero = ground arith
signal_backoff_bounds (suc n) = ground (arith, signal_backoff_bounds n)
