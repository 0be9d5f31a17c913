-- ===== src/Time.antt =====
-- engine/time: include/mycore/time/time.hpp and src/time.cpp. A duration is a count of nanoseconds,
-- an integer; its theorems say where the counts stay inside `std::int64_t`. A steady-clock time
-- point is a count of the clock's own ticks, and the sum of one and a duration wraps at 64 bits.
pub mod Accumulator
pub mod Deadline
pub mod Ticks
mod Tests
use mycore.Base.{ℕ, ◌-◌, min, Bool, true, false, if◌then◌else◌, leb, ltb}
use mycore.Base.Word.{u64_max, add_u64, sub_u64}
use mycore.Base.Int.{ℤ, pos, ◌+ℤ◌, ◌-ℤ◌, ◌*ℤ◌, ◌/ℤ◌, ltb_ℤ, leb_ℤ, i64_max, add_i64, to_u64, to_i64}

-- A call returns, or throws `std::invalid_argument` or `std::overflow_error`.
pub data Checked {ℓ} (A : Type ℓ) : Type ℓ where
  returned : A → Checked A
  invalid_argument : Checked A
  overflow_error : Checked A

infixl 5 ◌>>=◌ ◌>>◌
abbrev pub ◌>>=◌ {ℓ κ} : {A : Type ℓ} {B : Type κ} → Checked A → (A → Checked B) → Checked B
returned a >>= f = f a
invalid_argument >>= f = invalid_argument
overflow_error >>= f = overflow_error

abbrev pub ◌>>◌ {ℓ} : {B : Type ℓ} → Checked (Unit {0}) → Checked B → Checked B
m >> k = m >>= λ _. k

abbrev throw_invalid_if : Bool → Checked (Unit {0})
throw_invalid_if true = invalid_argument
throw_invalid_if false = returned tt

abbrev throw_overflow_if : Bool → Checked (Unit {0})
throw_overflow_if true = overflow_error
throw_overflow_if false = returned tt

require_positive_step : ℤ → Checked (Unit {0})
require_positive_step tick_duration = throw_invalid_if (leb_ℤ tick_duration (pos 0))

pub record PeriodicDeadline : Type 0 where
  pub time : ℤ
  pub discarded_backlog : Bool

-- `duration_cast` to the clock's duration is a parameter: the library's, for the clock at hand. A
-- time point is a 64-bit count, so both sums are 64-bit sums.
pub advance_periodic_deadline : (ℤ → ℤ) → ℤ → ℤ → ℤ → Checked PeriodicDeadline
unfolding require_positive_step
advance_periodic_deadline duration_cast previous period now = do
  require_positive_step period
  let clock_period = duration_cast period
  throw_invalid_if (leb_ℤ clock_period (pos 0))
  let phase_preserving_deadline = add_i64 previous clock_period
  if ltb_ℤ now phase_preserving_deadline
      then returned (record { time = phase_preserving_deadline; discarded_backlog = false })
      else returned (record { time = add_i64 now clock_period; discarded_backlog = true })

-- `Tick` and `TickDelta` are unsigned 64-bit values.
unfoldable pub tick_plus : ℕ → ℕ → ℕ
tick_plus tick delta = add_u64 tick delta

pub tick_minus : ℕ → ℕ → ℕ
tick_minus lhs rhs = sub_u64 lhs rhs

pub duration_to_ticks : ℤ → ℤ → Checked ℕ
unfolding require_positive_step
duration_to_ticks duration tick_duration = do
  require_positive_step tick_duration
  throw_invalid_if (ltb_ℤ duration (pos 0))
  returned (to_u64 (duration /ℤ tick_duration))

pub ticks_to_duration : ℕ → ℤ → Checked ℤ
unfolding require_positive_step
ticks_to_duration ticks tick_duration = do
  require_positive_step tick_duration
  let maximum_ticks = to_u64 (pos i64_max /ℤ tick_duration)
  throw_overflow_if (ltb maximum_ticks ticks)
  returned (tick_duration *ℤ to_i64 ticks)

pub record FixedStepResult : Type 0 where
  pub steps : ℕ
  pub pending_steps : ℕ
  pub accumulated_time : ℤ
  pub step_limit_reached : Bool

pub record FixedStepAccumulator : Type 0 where
  pub step_duration : ℤ
  pub accumulated : ℤ

pub make_accumulator : ℤ → Checked FixedStepAccumulator
unfolding require_positive_step
make_accumulator step_duration = do
  require_positive_step step_duration
  returned (record { step_duration = step_duration; accumulated = pos 0 })

pub advance : FixedStepAccumulator → ℤ → ℕ → Checked (FixedStepAccumulator × FixedStepResult)
advance a elapsed maximum_steps = do
  throw_invalid_if (ltb_ℤ elapsed (pos 0))
  throw_overflow_if (ltb_ℤ (pos i64_max -ℤ a.accumulated) elapsed)
  let accumulated = a.accumulated +ℤ elapsed
  let available_steps = to_u64 (accumulated /ℤ a.step_duration)
  let bounded_available = min available_steps u64_max
  let steps = min bounded_available maximum_steps
  let accumulated' = accumulated -ℤ a.step_duration *ℤ to_i64 steps
  returned (
    record a { accumulated = accumulated' },
    record {
      steps = steps;
      pending_steps = sub_u64 bounded_available steps;
      accumulated_time = accumulated';
      step_limit_reached = ltb maximum_steps bounded_available;
    },
  )

pub discard_pending_steps : FixedStepAccumulator → FixedStepAccumulator × ℤ
discard_pending_steps a =
    let pending_steps = a.accumulated /ℤ a.step_duration in
    let discarded = a.step_duration *ℤ pending_steps in
    (record a { accumulated = a.accumulated -ℤ discarded }, discarded)
