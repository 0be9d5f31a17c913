-- ===== src/Protocol/Float32.antt =====
-- `float` of games/dots, as the bit pattern of an IEEE 754 binary32 number.
use mycore.Base.{
  ℕ, ◌≡◌, refl, ◌+◌, ◌*◌, ◌/◌, ◌%◌, ◌^◌, Bool, true, false, not, ◌&&◌, ltb, leb, ◌==◌,
  if◌then◌else◌,
}

-- `std::isfinite`: the exponent is not all ones.
unfoldable pub is_finite : ℕ → Bool
is_finite x = not (x / 2 ^ 23 % 2 ^ 8 == 255)

is_nan : ℕ → Bool
is_nan x = ltb (255 * 2 ^ 23) (x % 2 ^ 31)

is_negative : ℕ → Bool
is_negative x = leb (2 ^ 31) x

-- The order of numbers by sign and magnitude; both zeros have magnitude 0.
below : ℕ → ℕ → Bool
unfolding is_negative
below x y =
    if is_negative x
    then if is_negative y then ltb (y % 2 ^ 31) (x % 2 ^ 31) else ltb 0 (x % 2 ^ 31 + y % 2 ^ 31)
    else if is_negative y
    then false
    else ltb (x % 2 ^ 31) (y % 2 ^ 31)

-- `x < y`, `x <= y` and `x != y`; a NaN is neither below nor equal to anything.
unfoldable pub lt_float : ℕ → ℕ → Bool
unfolding is_nan below
lt_float x y = not (is_nan x) && (not (is_nan y) && below x y)

unfoldable pub le_float : ℕ → ℕ → Bool
unfolding is_nan below
le_float x y = not (is_nan x) && (not (is_nan y) && not (below y x))

unfoldable pub ne_float : ℕ → ℕ → Bool
unfolding le_float
ne_float x y = not (le_float x y && le_float y x)

-- 0.0F, 1.0F, -1.0F and 1.0001F.
abbrev pub zero_float : ℕ
zero_float = 0

abbrev pub one_float : ℕ
one_float = 0x3f800000

abbrev pub minus_one_float : ℕ
minus_one_float = 0xbf800000

abbrev pub maximum_movement_length_squared : ℕ
maximum_movement_length_squared = 0x3f800347

-- The rounded sum and product of the target's floating-point unit.
pub record FloatUnit : Type 0 where
  pub add : ℕ → ℕ → ℕ
  pub multiply : ℕ → ℕ → ℕ

ordered : lt_float minus_one_float one_float ≡ true
unfolding lt_float is_nan below is_negative
ordered = refl
