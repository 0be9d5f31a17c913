-- ===== src/Time/Ticks.antt =====
-- The conversions between ticks and durations.
use native.Mathlib.Decide.{dec_lt}
use native.Mathlib.Nat.{div-lt_iff_lt-mul, lt-mul-div-succ, mul-div-le}
use native.Mathlib.Nat.{mul-div_cancel_left, div-le_self, le-div_iff_mul-le, mul_comm}
use mycore.Base.{ℕ, ◌+◌, ◌*◌, ◌/◌, ◌≤◌, ◌<◌, ◌≡◌, refl, false, ltb, lt→ltb, if◌then◌else◌, arith}
use mycore.Base.Int.{pos, i64_max, leb_ℤ-pos, ltb_ℤ-pos, to_u64-pos, to_i64-pos, *ℤ-pos, /ℤ-pos}
use mycore.Time.{◌>>=◌, returned, overflow_error, duration_to_ticks, ticks_to_duration}

ticks_to_duration_counts :
    (t d : ℕ) → 0 < d → d * t ≤ i64_max → ticks_to_duration t (pos d) ≡ returned (pos (d * t))
unfolding ticks_to_duration
ticks_to_duration_counts t d hd h =
    let fits : t ≤ i64_max / d = (le-div_iff_mul-le hd).1 (rw (mul_comm t d) h) in
    let small = div-le_self i64_max d in
    rw
      (
        leb_ℤ-pos d 0,
        /ℤ-pos i64_max d,
        to_u64-pos (i64_max / d) (omega arith),
        to_i64-pos t (omega arith),
        *ℤ-pos d t,
      )
      (ground arith)

duration_to_ticks_counts :
    (n d : ℕ) → 0 < d → n ≤ i64_max → duration_to_ticks (pos n) (pos d) ≡ returned (n / d)
unfolding duration_to_ticks
duration_to_ticks_counts n d hd h =
    let small = div-le_self n d in
    rw (leb_ℤ-pos d 0, ltb_ℤ-pos n 0, /ℤ-pos n d, to_u64-pos (n / d) (omega arith)) (ground arith)

ticks_to_duration_overflow :
    (t d : ℕ) → 0 < d → i64_max < d * t → ticks_to_duration t (pos d) ≡ overflow_error
unfolding ticks_to_duration
ticks_to_duration_overflow t d hd h =
    let small = div-le_self i64_max d in
    let over : i64_max / d < t = (div-lt_iff_lt-mul hd).1 (rw (mul_comm t d) h) in
    rw (leb_ℤ-pos d 0, /ℤ-pos i64_max d, to_u64-pos (i64_max / d) (omega arith)) (ground arith)

-- For a positive tick duration `d`, converting `t` ticks to a duration overflows exactly when
-- `d * t` nanoseconds do not fit `std::int64_t`. Where they do, the duration is that many
-- nanoseconds, and converting it back returns the `t` ticks.
pub ticks_round_trip :
    (t d : ℕ)
    → 0 < d
    → (ticks_to_duration t (pos d)
        ≡ (if ltb i64_max (d * t) then overflow_error else returned (pos (d * t))))
      × ((ticks_to_duration t (pos d) >>= λ x. duration_to_ticks x (pos d))
          ≡ (if ltb i64_max (d * t) then overflow_error else returned t))
ticks_round_trip t d hd = elim (dec_lt i64_max (d * t)) [
  | yes over ↦ rw (ticks_to_duration_overflow t d hd over, lt→ltb i64_max (d * t) over) (refl, refl)
  | no fits ↦
      let fits : d * t ≤ i64_max = omega arith in
      let within : ltb i64_max (d * t) ≡ false = ground arith in
      rw
        (
          within,
          ticks_to_duration_counts t d hd fits,
          duration_to_ticks_counts (d * t) d hd fits,
          mul-div_cancel_left t hd,
        )
        (refl, refl)
]

-- For a positive tick duration, a duration that fits `std::int64_t` converts to the number of
-- whole ticks in it: never to more time than it has, and short of it by less than a tick.
pub duration_to_ticks_floor :
    (n d : ℕ)
    → 0 < d
    → n ≤ i64_max
    → (t : ℕ) × (duration_to_ticks (pos n) (pos d) ≡ returned t) × (d * t ≤ n) × (n < d * t + d)
duration_to_ticks_floor n d hd h =
    let below = lt-mul-div-succ n hd in
    (n / d, duration_to_ticks_counts n d hd h, mul-div-le n d, omega arith)
