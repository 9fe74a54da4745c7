-- ===== src/Agent/Backoff.antt =====
-- The waiting times of cmd/agent/relay.go and cmd/agent/signal.go. A time.Duration is a number of
-- nanoseconds, and `d << n` is `d * 2 ^ n`; none of these overflows an int64, which Bounds shows.
-- Counts of failures and flaps are never negative in the program, so they are natural numbers.
pub mod Bounds
use go_wireguard_mesh.Common.{if◌then◌else◌, ltb, min, suc, zero, ℕ, ◌*◌, ◌-◌, ◌^◌}

abbrev pub second : ℕ
second = 1_000_000_000

abbrev pub minute : ℕ
minute = 60_000_000_000

abbrev pub direct_stale_after : ℕ
direct_stale_after = 90 * second

abbrev pub direct_probe_interval : ℕ
direct_probe_interval = 20 * second

abbrev pub coordinated_probe_interval : ℕ
coordinated_probe_interval = 8 * second

abbrev pub coordinated_probe_window : ℕ
coordinated_probe_window = 45 * second

abbrev pub direct_probation_min : ℕ
direct_probation_min = 20 * second

abbrev pub direct_probation_timeout : ℕ
direct_probation_timeout = 60 * second

abbrev pub direct_retry_after : ℕ
direct_retry_after = 5 * minute

abbrev pub direct_stable_tenure : ℕ
direct_stable_tenure = 10 * minute

abbrev pub flap_hold_down_base : ℕ
flap_hold_down_base = 2 * minute

abbrev pub signal_reconnect_min : ℕ
signal_reconnect_min = 2 * second

abbrev pub signal_reconnect_max : ℕ
signal_reconnect_max = 30 * second

-- `directRetryInterval`.
unfoldable pub direct_retry_interval : ℕ → ℕ
direct_retry_interval failures =
    let f = if ltb 3 failures then 3 else failures in
    let d = direct_retry_after * 2 ^ f in if ltb (30 * minute) d then 30 * minute else d

-- `flapHoldDown`.
unfoldable pub flap_hold_down : ℕ → ℕ
flap_hold_down flaps = if ltb flaps 1 then 0 else flap_hold_down_base * 2 ^ (min (flaps - 1) 3)

-- `nextSignalBackoff`.
unfoldable pub next_signal_backoff : ℕ → ℕ
next_signal_backoff d = if ltb signal_reconnect_max (d * 2) then signal_reconnect_max else d * 2

-- The backoff after n dials in a row have failed (`runSignal`).
unfoldable pub signal_backoff : ℕ → ℕ
unfolding next_signal_backoff
signal_backoff zero = signal_reconnect_min
signal_backoff (suc n) = next_signal_backoff (signal_backoff n)
