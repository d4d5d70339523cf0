-- ===== src/Worker/Backoff.antt =====
-- `ExponentialBackoff` of `task_engine/worker.py`. A duration is a number of microseconds.
use media_sync.Prelude.{
  ℕ, zero, suc, ◌+◌, ◌*◌, ◌/◌, ◌%◌, ◌==◌, min, Bool, ◌&&◌, Option, none, some, ltb, leb,
  if◌then◌else◌,
}
pub mod Bounds

pub record ExponentialBackoff : Type 0 where
  pub base_delay : ℕ
  pub max_delay : ℕ

-- `__post_init__`
abbrev pub is_valid_backoff : ExponentialBackoff → Bool
is_valid_backoff b = ltb 0 b.base_delay && leb b.base_delay b.max_delay

-- A `timedelta` divided by two: rounded to the microsecond, a half to the even one.
unfoldable pub half_of : ℕ → ℕ
half_of d = let q = d / 2 in if d % 2 == 0 then q else if q % 2 == 0 then q else q + 1

-- The loop of `delay_for`, over the rounds that are left.
unfoldable pub delay_loop : ExponentialBackoff → ℕ → ℕ → ℕ
delay_loop b zero delay = min delay b.max_delay
delay_loop b (suc rounds) delay =
    let rest = delay_loop b rounds (delay * 2) in
    if leb (half_of b.max_delay) delay then b.max_delay else rest

-- `delay_for`; a count is never negative here.
unfoldable pub delay_for : ExponentialBackoff → ℕ → ℕ
delay_for b retry_count = delay_loop b retry_count b.base_delay

-- `bounded`; `none` is the ValueError of a delay that is not positive.
unfoldable pub bounded : ExponentialBackoff → ℕ → Option ℕ
bounded b delay = if ltb 0 delay then some (min delay b.max_delay) else none

-- The defaults: 30 seconds and 15 minutes.
abbrev pub default_backoff : ExponentialBackoff
default_backoff = record { base_delay = 30_000_000; max_delay = 900_000_000 }
