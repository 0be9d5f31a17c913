-- ===== src/Time/Deadline.antt =====
-- `advance_periodic_deadline`: healthy producers keep their phase, overdue ones start again from now.
use mycore.Base.{◌≡◌, ◌↔◌, refl, true, false, arith, inl, inr, Bool-cases, if◌then◌else◌}
use mycore.Base.Int.{
  ℤ, pos, ◌+ℤ◌, ◌≤ℤ◌, ◌<ℤ◌, leb_ℤ, ltb_ℤ, ltb_ℤ_iff, lt_add_pos, i64_max, IsI64, add_i64-later,
}
use mycore.Time.{returned, PeriodicDeadline, advance_periodic_deadline}

abbrev next_deadline : ℤ → ℤ → ℤ → PeriodicDeadline
next_deadline previous clock_period now =
    if ltb_ℤ now (previous +ℤ clock_period)
    then record { time = previous +ℤ clock_period; discarded_backlog = false }
    else record { time = now +ℤ clock_period; discarded_backlog = true }

-- What is promised of a deadline `d`.
record IsNext (previous clock_period now : ℤ) (d : PeriodicDeadline) : Type 0 where
  future : now <ℤ d.time
  overdue : (d.discarded_backlog ≡ true) ↔ (previous +ℤ clock_period ≤ℤ now)
  time : d.time ≡ (if d.discarded_backlog then now +ℤ clock_period else previous +ℤ clock_period)

next_deadline-IsNext :
    (previous c now : ℤ) → pos 0 <ℤ c → IsNext previous c now (next_deadline previous c now)
next_deadline-IsNext previous c now h = elim (Bool-cases (ltb_ℤ now (previous +ℤ c))) [
  | inl t ↦
      let early = (ltb_ℤ_iff now (previous +ℤ c)).0 t in
      rw t (record { future = early; overdue = ground arith; time = refl })
  | inr f ↦
      let after = lt_add_pos now c h in
      rw f (record {
        future = after;
        overdue = ground (arith, (ltb_ℤ_iff now (previous +ℤ c)).1);
        time = refl;
      })
]

-- For a period that is positive, and still positive when converted to the clock's duration, and for
-- 64-bit time points to which the converted period can be added within `std::int64_t`, the next
-- deadline lies after now. The backlog is discarded exactly when the deadline one period after the
-- previous one has come; the new deadline is then one period from now, and one period from the
-- previous one if not.
pub deadline_after_now :
    (duration_cast : ℤ → ℤ) (previous period now : ℤ)
    → pos 0 <ℤ period
    → pos 0 <ℤ duration_cast period
    → IsI64 previous
    → IsI64 now
    → IsI64 (duration_cast period)
    → previous +ℤ duration_cast period ≤ℤ pos i64_max
    → now +ℤ duration_cast period ≤ℤ pos i64_max
    → (d : PeriodicDeadline) × (advance_periodic_deadline duration_cast previous period now
        ≡ returned d)
      × (now <ℤ d.time)
      × ((d.discarded_backlog ≡ true) ↔ (previous +ℤ duration_cast period ≤ℤ now))
      × (d.time ≡ (
          if d.discarded_backlog
          then now +ℤ duration_cast period
          else previous +ℤ duration_cast period))
unfolding advance_periodic_deadline leb_ℤ ltb_ℤ
deadline_after_now duration_cast previous period now hp hc previous_in now_in period_in fits fits' =
    let next = next_deadline-IsNext previous (duration_cast period) now hc in
    let early = add_i64-later previous (duration_cast period) previous_in hc period_in fits in
    let late = add_i64-later now (duration_cast period) now_in hc period_in fits' in
    (
      next_deadline previous (duration_cast period) now,
      ground arith,
      next.future,
      next.overdue,
      next.time,
    )
