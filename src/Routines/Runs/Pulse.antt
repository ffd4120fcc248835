-- ===== src/Routines/Runs/Pulse.antt =====
-- pi-routines/src/scheduler.ts: the interval of a pulse and the streak that it reads.
use sages.Prelude.{
  Bool-cases, inl, inr, ◌-◌, ℕ, zero, suc, ◌+◌, ◌*◌, ◌≤◌, ◌≡◌, arith, if◌then◌else◌, ltb,
}
use native.Mathlib.Numerals.{unary_clauses}
use sages.Routines.Runs.{
  RoutineTickState, compute_pulse_interval_ms, backoff_power, backoff_max_interval_ms, min, max,
  backoff_threshold, backoff_max_multiplier,
}

backoff_power_pos : (n : ℕ) → 1 ≤ backoff_power n
unfolding backoff_power
backoff_power_pos zero = omega arith
backoff_power_pos (suc n) = omega (arith, backoff_power_pos n)

times_le : (i m : ℕ) → 1 ≤ m → i ≤ i * m
times_le i zero h = absurd (omega (arith, h))
times_le i (suc m) h = simp unary_clauses (omega arith)

min_bounds :
    (i m : ℕ)
    → i ≤ backoff_max_interval_ms
    → 1 ≤ m
    → (i ≤ min (i * m) backoff_max_interval_ms)
      × (min (i * m) backoff_max_interval_ms ≤ backoff_max_interval_ms)
min_bounds i m h k = go (i * m) (times_le i m k)
  where
    go :
        (n : ℕ)
        → i ≤ n
        → (i ≤ min n backoff_max_interval_ms)
          × (min n backoff_max_interval_ms ≤ backoff_max_interval_ms)
    go n k = ground (arith, h, k)

multiplier_pos : (n : ℕ) → 1 ≤ min backoff_max_multiplier (backoff_power n)
multiplier_pos n = ground (arith, backoff_power_pos n)

-- A pulse of at most ten minutes is never made shorter by the backoff, and never longer than ten
-- minutes.
pub compute_pulse_interval_ms_bounds :
    (interval_ms : ℕ) (tick : RoutineTickState)
    → interval_ms ≤ backoff_max_interval_ms
    → (interval_ms ≤ compute_pulse_interval_ms interval_ms tick)
      × (compute_pulse_interval_ms interval_ms tick ≤ backoff_max_interval_ms)
unfolding compute_pulse_interval_ms
compute_pulse_interval_ms_bounds interval_ms tick h =
    go (max tick.consecutive_silent_ticks tick.consecutive_error_ticks)
  where
    go :
        (streak : ℕ)
        → let t =
            if ltb streak backoff_threshold
            then interval_ms
            else min
                (interval_ms
                  * min backoff_max_multiplier (backoff_power (streak - backoff_threshold + 1)))
                backoff_max_interval_ms in
          (interval_ms ≤ t) × (t ≤ backoff_max_interval_ms)
    go streak = elim (Bool-cases (ltb streak backoff_threshold)) [
      | inl e ↦ rw e (omega arith, h)
      | inr e ↦ rw e (
          min_bounds interval_ms
            (min backoff_max_multiplier (backoff_power (streak - backoff_threshold + 1))) h
            (multiplier_pos (streak - backoff_threshold + 1)))
    ]

-- Both counters are at most that.
abbrev pub StreakAtMost : ℕ → RoutineTickState → Type 0
StreakAtMost n tick = (tick.consecutive_silent_ticks ≤ n) × (tick.consecutive_error_ticks ≤ n)

pub short_interval :
    (interval_ms : ℕ) (tick : RoutineTickState)
    → StreakAtMost 1 tick
    → compute_pulse_interval_ms interval_ms tick ≡ interval_ms
unfolding compute_pulse_interval_ms
short_interval interval_ms tick h = ground (arith, h.0, h.1)
