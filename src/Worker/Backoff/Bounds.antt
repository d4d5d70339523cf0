-- ===== src/Worker/Backoff/Bounds.antt =====
-- What `delay_for` computes, and its bounds.
use media_sync.Prelude.{
  ℕ, zero, suc, ◌+◌, ◌*◌, ◌^◌, ◌%◌, ◌≤◌, ◌<◌, ◌≡◌, min, true, leb, leb→le, arith, inl, inr,
  Bool-cases,
}
use native.Mathlib.Nat.{pow-suc, one-le-pow, mul-le-mul_left}
use media_sync.Worker.Backoff.{ExponentialBackoff, is_valid_backoff, half_of, delay_loop, delay_for}

half_of-even : (d : ℕ) → d % 2 ≡ 0 → half_of d * 2 ≡ d
unfolding half_of
half_of-even d h = ground arith

-- Half of the limit, doubled, is at most one microsecond off.
half_of_bounds : (d : ℕ) → (d ≤ half_of d * 2 + 1) × (half_of d * 2 ≤ d + 1)
unfolding half_of
half_of_bounds d = ground arith

delay_loop_bounds :
    (b : ExponentialBackoff) (n delay : ℕ)
    → 0 < delay
    → delay ≤ b.max_delay
    → (delay ≤ delay_loop b n delay) × (delay_loop b n delay ≤ b.max_delay)
unfolding delay_loop
delay_loop_bounds b zero delay pos le = omega arith
delay_loop_bounds b (suc n) delay pos le =
    ground (arith, delay_loop_bounds b n (delay * 2), half_of_bounds b.max_delay)

pow-double : (delay n : ℕ) → delay * 2 ^ suc n ≡ delay * 2 * 2 ^ n
pow-double delay n = grind (arith, pow-suc 2 n)

delay_loop-exact :
    (b : ExponentialBackoff) (n delay : ℕ)
    → b.max_delay % 2 ≡ 0
    → 0 < delay
    → delay_loop b n delay ≡ min (delay * 2 ^ n) b.max_delay
unfolding delay_loop
delay_loop-exact b zero delay even pos = omega arith
delay_loop-exact b (suc n) delay even pos = elim (Bool-cases (leb (half_of b.max_delay) delay)) [
  | inl enough ↦ rw enough (
      omega (
        arith,
        half_of-even b.max_delay even,
        leb→le (half_of b.max_delay) delay enough,
        pow-double delay n,
        mul-le-mul_left (delay * 2) (one-le-pow n 2 (omega arith)),
      ))
  | inr more ↦ rw (more, pow-double delay n) (delay_loop-exact b n (delay * 2) even (omega arith))
]

-- With a valid backoff whose limit is an even number of microseconds, the delay after n retries is
-- the base doubled n times, cut off at the limit, though the loop stops early.
pub delay_for-exact :
    (b : ExponentialBackoff) (n : ℕ)
    → is_valid_backoff b ≡ true
    → b.max_delay % 2 ≡ 0
    → delay_for b n ≡ min (b.base_delay * 2 ^ n) b.max_delay
unfolding delay_for
delay_for-exact b n valid even = delay_loop-exact b n b.base_delay even (ground arith)

-- The delay of a valid backoff, even or not, lies between the base and the limit.
pub delay_for_bounds :
    (b : ExponentialBackoff) (n : ℕ)
    → is_valid_backoff b ≡ true
    → (b.base_delay ≤ delay_for b n) × (delay_for b n ≤ b.max_delay)
unfolding delay_for
delay_for_bounds b n valid = delay_loop_bounds b n b.base_delay (ground arith) (ground arith)

delay_loop_mono :
    (b : ExponentialBackoff) (n delay : ℕ)
    → 0 < delay
    → delay ≤ b.max_delay
    → delay_loop b n delay ≤ delay_loop b (suc n) delay
unfolding delay_loop
delay_loop_mono b zero delay pos le = ground (arith, half_of_bounds b.max_delay)
delay_loop_mono b (suc n) delay pos le = ground (
  arith,
  delay_loop_mono b n (delay * 2),
  half_of_bounds b.max_delay,
  delay_loop_bounds b n (delay * 2),
)

-- The delay of a valid backoff never falls from one retry to the next.
delay_for_mono :
    (b : ExponentialBackoff) (n : ℕ)
    → is_valid_backoff b ≡ true
    → delay_for b n ≤ delay_for b (suc n)
unfolding delay_for
delay_for_mono b n valid = delay_loop_mono b n b.base_delay (ground arith) (ground arith)
