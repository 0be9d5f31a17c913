-- ===== src/Time/Tests.antt =====
-- Runs of the time functions on concrete counts, and the theorems at them.
use mycore.Base.{
  ℕ, ◌⊎◌, ◌+◌, ◌*◌, ◌/◌, ◌≤◌, ◌<◌, ◌≡◌, ◌↔◌, refl, min, true, false, ltb, if◌then◌else◌, arith,
}
use mycore.Base.Int.{
  pos, negsuc, ◌+ℤ◌, ◌-ℤ◌, ◌*ℤ◌, ◌/ℤ◌, ◌≤ℤ◌, ◌<ℤ◌, ltb_ℤ, leb_ℤ, to_u64, to_i64, i64_max, add_i64,
}
use mycore.Time.{
  ◌>>=◌, returned, invalid_argument, overflow_error, FixedStepResult, PeriodicDeadline,
  make_accumulator, advance, discard_pending_steps, advance_periodic_deadline, duration_to_ticks,
  ticks_to_duration,
}
use mycore.Time.Accumulator.{
  held, two_advances, one_advance, advance_conserves, advance_refusals, advance-split,
  discard_pending_steps_lem,
}
use mycore.Time.Deadline.{deadline_after_now}
use mycore.Time.Ticks.{ticks_round_trip, duration_to_ticks_floor}

-- Time for four steps and a half, with a limit of three.
limited_advance :
    advance (held 10 5) (pos 40) 3
    ≡ returned (
      held 10 15,
      record { steps = 3; pending_steps = 1; accumulated_time = pos 15; step_limit_reached = true },
    )
unfolding advance ltb_ℤ ◌-ℤ◌ ◌+ℤ◌ to_u64 ◌*ℤ◌ ◌/ℤ◌ to_i64
limited_advance = refl

no_step : make_accumulator (negsuc 0) ≡ invalid_argument
unfolding make_accumulator leb_ℤ
no_step = refl

early_deadline :
    advance_periodic_deadline (λ d. d) (pos 100) (pos 20) (pos 110)
    ≡ returned (record { time = pos 120; discarded_backlog = false })
unfolding advance_periodic_deadline ltb_ℤ leb_ℤ ◌+ℤ◌ add_i64 to_u64 to_i64
early_deadline = refl

late_deadline :
    advance_periodic_deadline (λ d. d) (pos 100) (pos 20) (pos 190)
    ≡ returned (record { time = pos 210; discarded_backlog = true })
unfolding advance_periodic_deadline ltb_ℤ leb_ℤ ◌+ℤ◌ add_i64 to_u64 to_i64
late_deadline = refl

no_ticks : duration_to_ticks (negsuc 3) (pos 10) ≡ invalid_argument
unfolding duration_to_ticks ltb_ℤ leb_ℤ
no_ticks = refl

advance_conserves_example :
    (n' : ℕ) × (r : FixedStepResult) × (advance (held 10 5) (pos 40) 3 ≡ returned (held 10 n', r))
    × (10 * r.steps + n' ≡ 5 + 40)
    × (r.accumulated_time ≡ pos n')
    × (r.steps ≡ min ((5 + 40) / 10) 3)
    × (r.steps + r.pending_steps ≡ (5 + 40) / 10)
    × ((r.step_limit_reached ≡ true) ↔ (3 < (5 + 40) / 10))
    × ((r.step_limit_reached ≡ true) ⊎ (n' < 10))
advance_conserves_example = advance_conserves 10 5 40 3 (omega arith) (omega arith)

advance_refusals_example :
    (advance (held 10 5) (negsuc 7) 3 ≡ invalid_argument)
    × ((advance (held 10 5) (pos 7) 3 ≡ overflow_error) ↔ (i64_max < 5 + 7))
advance_refusals_example = advance_refusals 10 5 7 3 (omega arith)

advance-split_example : two_advances 9 (held 10 5) 17 18 ≡ one_advance 9 (held 10 5) (17 + 18)
advance-split_example = advance-split 10 5 17 18 9 (omega arith) (omega arith) (omega arith)

discard_pending_steps_example :
    (n' q : ℕ) × (discard_pending_steps (held 10 45) ≡ (held 10 n', pos (10 * q)))
    × (n' < 10)
    × (10 * q + n' ≡ 45)
discard_pending_steps_example = discard_pending_steps_lem 10 45 (omega arith)

deadline_after_now_example :
    (d : PeriodicDeadline) × (advance_periodic_deadline (λ t. t) (negsuc 4) (pos 20) (pos 30)
      ≡ returned d)
    × (pos 30 <ℤ d.time)
    × ((d.discarded_backlog ≡ true) ↔ (negsuc 4 +ℤ pos 20 ≤ℤ pos 30))
    × (d.time ≡ (if d.discarded_backlog then pos 30 +ℤ pos 20 else negsuc 4 +ℤ pos 20))
unfolding ◌+ℤ◌
deadline_after_now_example =
    deadline_after_now (λ t. t) (negsuc 4) (pos 20) (pos 30) (omega arith) (omega arith)
      (omega arith) (omega arith) (omega arith) (omega arith) (omega arith)

ticks_round_trip_example :
    (ticks_to_duration 6 (pos 10)
      ≡ (if ltb i64_max (10 * 6) then overflow_error else returned (pos (10 * 6))))
    × ((ticks_to_duration 6 (pos 10) >>= λ x. duration_to_ticks x (pos 10))
        ≡ (if ltb i64_max (10 * 6) then overflow_error else returned 6))
ticks_round_trip_example = ticks_round_trip 6 10 (omega arith)

duration_to_ticks_floor_example :
    (t : ℕ) × (duration_to_ticks (pos 67) (pos 10) ≡ returned t)
    × (10 * t ≤ 67)
    × (67 < 10 * t + 10)
duration_to_ticks_floor_example = duration_to_ticks_floor 67 10 (omega arith) (omega arith)
