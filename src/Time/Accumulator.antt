-- ===== src/Time/Accumulator.antt =====
-- `FixedStepAccumulator`: what one advance does to the time that it holds.
use native.Mathlib.Nat.{mul-div-le, div-le_self, mul-le-mul_left, le_trans, lt-mul-div-succ}
use native.Mathlib.Nat.{mul-add-div, add_assoc}
use native.Mathlib.Decide.{dec_lt}
use mycore.Base.{
  ℕ, ◌+◌, ◌-◌, ◌*◌, ◌/◌, ◌≤◌, ◌<◌, min, ◌≡◌, ◌↔◌, ◌⊎◌, inl, inr, refl, ap, true, arith, ltb,
}
use mycore.Base.Int.{
  pos, negsuc, i64_max, +ℤ-pos, -ℤ-pos, *ℤ-pos, /ℤ-pos, ltb_ℤ-pos, ltb_ℤ-negsuc, to_u64-pos,
  to_i64-pos,
}
use mycore.Base.Word.{u64_max}
use mycore.Time.{
  Checked, ◌>>=◌, returned, overflow_error, invalid_argument, FixedStepAccumulator, FixedStepResult,
  advance, discard_pending_steps,
}

-- An accumulator with steps of `s` nanoseconds that holds `n` nanoseconds.
abbrev pub held : ℕ → ℕ → FixedStepAccumulator
held s n = record { step_duration = pos s; accumulated = pos n }

mul-min-div-le : (s n k : ℕ) → s * min (n / s) k ≤ n
mul-min-div-le s n k = le_trans (mul-le-mul_left s (omega arith)) (mul-div-le n s)

-- The time and the steps left by `k` steps out of `q`.
abbrev outcome : ℕ → ℕ → ℕ → ℕ → FixedStepResult
outcome s n q k = record {
  steps = min q k;
  pending_steps = q - min q k;
  accumulated_time = pos (n - s * min q k);
  step_limit_reached = ltb k q;
}

advance_counts :
    (s n e k : ℕ)
    → n + e ≤ i64_max
    → advance (held s n) (pos e) k
      ≡ returned (held s (n + e - s * min ((n + e) / s) k), outcome s (n + e) ((n + e) / s) k)
unfolding advance
advance_counts s n e k h =
    let q = (n + e) / s in
    let small : q ≤ i64_max = omega (arith, div-le_self (n + e) s) in
    rw
      (
        ltb_ℤ-pos e 0,
        -ℤ-pos i64_max n (omega arith),
        ltb_ℤ-pos (i64_max - n) e,
        +ℤ-pos n e,
        /ℤ-pos (n + e) s,
        to_u64-pos q (omega arith),
        (let same : min q u64_max ≡ q = omega arith in same),
        to_i64-pos (min q k) (omega arith),
        *ℤ-pos s (min q k),
        -ℤ-pos (n + e) (s * min q k) (mul-min-div-le s (n + e) k),
      )
      (ground arith)

-- One advance with steps of `s` nanoseconds, for a positive `s`, on time that fits `std::int64_t`
-- with the elapsed time added, returns and loses no time: the steps taken and the time kept make
-- up what was held and what elapsed. It takes at most `k` steps, and all the available ones within
-- that limit; the pending ones are the rest; the limit is reported as reached exactly when more
-- than `k` were available; and if it was not reached, less than one step is kept.
pub advance_conserves :
    (s n e k : ℕ)
    → 0 < s
    → n + e ≤ i64_max
    → (n' : ℕ) × (r : FixedStepResult) × (advance (held s n) (pos e) k ≡ returned (held s n', r))
      × (s * r.steps + n' ≡ n + e)
      × (r.accumulated_time ≡ pos n')
      × (r.steps ≡ min ((n + e) / s) k)
      × (r.steps + r.pending_steps ≡ (n + e) / s)
      × ((r.step_limit_reached ≡ true) ↔ (k < (n + e) / s))
      × ((r.step_limit_reached ≡ true) ⊎ (n' < s))
advance_conserves s n e k hs h =
    let q = (n + e) / s in
    let fits = mul-min-div-le s (n + e) k in
    let below = lt-mul-div-succ (n + e) hs in
    (
      n + e - s * min q k,
      outcome s (n + e) q k,
      advance_counts s n e k h,
      omega arith,
      refl,
      refl,
      omega arith,
      ground arith,
      elim (dec_lt k q) [
        | yes met ↦ inl (ground arith)
        | no unmet ↦ inr (let all : min q k ≡ q = omega arith in rw all (omega arith))
      ],
    )

negative : (e k : ℕ) (a : FixedStepAccumulator) → advance a (negsuc e) k ≡ invalid_argument
unfolding advance
negative e k a = rw (ltb_ℤ-negsuc e 0)

overflow :
    (s n e k : ℕ) → n ≤ i64_max → i64_max < n + e → advance (held s n) (pos e) k ≡ overflow_error
unfolding advance
overflow s n e k h over =
    rw (ltb_ℤ-pos e 0, -ℤ-pos i64_max n h, ltb_ℤ-pos (i64_max - n) e) (ground arith)

-- On held time that fits `std::int64_t`, an elapsed time below zero is refused as an invalid
-- argument, and one that is not is refused as an overflow exactly when it would take the held time
-- over `std::int64_t`.
pub advance_refusals :
    (s n e k : ℕ)
    → n ≤ i64_max
    → (advance (held s n) (negsuc e) k ≡ invalid_argument)
      × ((advance (held s n) (pos e) k ≡ overflow_error) ↔ (i64_max < n + e))
advance_refusals s n e k h = (
  negative e k (held s n),
  (
    λ threw. elim (dec_lt i64_max (n + e)) [
      | yes over ↦ over
      | no fits ↦ cc (threw, advance_counts s n e k (omega arith))
    ],
    overflow s n e k h,
  ),
)

-- The steps that two advances take, with the accumulator after them.
abbrev pub two_advances : ℕ → FixedStepAccumulator → ℕ → ℕ → Checked (FixedStepAccumulator × ℕ)
two_advances k a e₁ e₂ = do
  (b, r₁) ← advance a (pos e₁) k
  (c, r₂) ← advance b (pos e₂) k
  returned (c, r₁.steps + r₂.steps)

abbrev pub one_advance : ℕ → FixedStepAccumulator → ℕ → Checked (FixedStepAccumulator × ℕ)
one_advance k a e = do (b, r) ← advance a (pos e) k; returned (b, r.steps)

-- How elapsed time is cut into two frames does not matter, for a positive step, where all the time
-- fits `std::int64_t` and holds no more steps than the limit `k`: the same number of steps is
-- taken in all, and the same time is kept.
pub advance-split :
    (s n e₁ e₂ k : ℕ)
    → 0 < s
    → n + e₁ + e₂ ≤ i64_max
    → (n + e₁ + e₂) / s ≤ k
    → two_advances k (held s n) e₁ e₂ ≡ one_advance k (held s n) (e₁ + e₂)
advance-split s n e₁ e₂ k hs h hk =
    let q₁ = (n + e₁) / s in
    let n₁ = n + e₁ - s * q₁ in
    let q₂ = (n₁ + e₂) / s in
    let fits = mul-div-le (n + e₁) s in
    let regroup : s * q₁ + (n₁ + e₂) ≡ n + (e₁ + e₂) = omega arith in
    let total : (n + (e₁ + e₂)) / s ≡ q₁ + q₂ = rw regroup at (mul-add-div hs q₁ (n₁ + e₂)) in
    let within : q₁ + q₂ ≤ k = rw (← total, ← add_assoc) hk in
    let fits₂ = mul-div-le (n₁ + e₂) s in
    rw
      (
        advance_counts s n e₁ k (omega arith),
        (let all : min q₁ k ≡ q₁ = omega arith in all),
        advance_counts s n₁ e₂ k (omega arith),
        (let all : min q₂ k ≡ q₂ = omega arith in all),
        advance_counts s n (e₁ + e₂) k (omega arith),
        total,
        (let all : min (q₁ + q₂) k ≡ q₁ + q₂ = omega arith in all),
      )
      (ap (λ t. returned (held s t, q₁ + q₂)) (omega arith))

-- For a positive step, discarding keeps less than one step of the held time `n`, and takes away a
-- whole number of steps, which it returns.
pub discard_pending_steps_lem :
    (s n : ℕ)
    → 0 < s
    → (n' q : ℕ) × (discard_pending_steps (held s n) ≡ (held s n', pos (s * q)))
      × (n' < s)
      × (s * q + n' ≡ n)
unfolding discard_pending_steps
discard_pending_steps_lem s n hs =
    let below = lt-mul-div-succ n hs in
    let fits = mul-div-le n s in
    (
      n - s * (n / s),
      n / s,
      rw (/ℤ-pos n s, *ℤ-pos s (n / s), -ℤ-pos n (s * (n / s)) fits),
      omega arith,
      omega arith,
    )
