-- ===== src/Timeout.antt =====
-- Waiting times, as every blocking call of the library computes them for the runtime.
use rust_lib.Common.{
  ℕ, ◌+◌, ◌*◌, ◌/◌, ◌%◌, ◌^◌, ◌<◌, ◌≤◌, ◌≡◌, ◌≢◌, ◌↔◌, ◌⊎◌, Option, none, some, ◌==◌, if◌then◌else◌,
  arith,
}

-- `std::time::Duration`
pub record Duration : Type 0 where
  pub secs : ℕ
  pub nanos : ℕ

-- `Duration::as_millis`
abbrev pub as_millis : Duration → ℕ
as_millis d = d.secs * 1000 + d.nanos / 1_000_000

-- The `match timeout` of `receive_`, `request_`, `connect_timeout_` and `resolve_timeout_`, which all
-- spell it alike. The runtime takes 0 for no limit.
unfoldable pub timeout_ms : Option Duration → ℕ
timeout_ms none = 0
timeout_ms (some d) = if as_millis d == 0 then 1 else as_millis d % 2 ^ 32

pub timeout_ms_fits :
    (d : Duration) → as_millis d < 2 ^ 32 → as_millis d ≢ 0 → timeout_ms (some d) ≡ as_millis d
unfolding timeout_ms
timeout_ms_fits d small more = ground arith

pub timeout_ms_zero :
    (d : Duration) → (timeout_ms (some d) ≡ 0) ↔ ((as_millis d ≢ 0) × (as_millis d % 2 ^ 32 ≡ 0))
unfolding timeout_ms
timeout_ms_zero d = (λ e. ground arith, λ e. ground arith)

-- A limit below 2 ^ 32 milliseconds is passed on as itself in milliseconds, and as 1 where it is below
-- one millisecond; so it is never passed on as no limit, and fits the runtime's 32 bits.
pub timeout_ms_bounds :
    (d : Duration)
    → as_millis d < 2 ^ 32
    → ((as_millis d < 1) × (timeout_ms (some d) ≡ 1)
        ⊎ (1 ≤ as_millis d) × (timeout_ms (some d) ≡ as_millis d))
      × (timeout_ms (some d) ≢ 0)
      × (timeout_ms (some d) < 2 ^ 32)
unfolding timeout_ms
timeout_ms_bounds d small = (ground arith, ground arith, ground arith)
