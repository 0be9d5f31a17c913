-- ===== src/Protocol/Bytes.antt =====
-- The codec's `Writer` and `Reader`. A write is the bytes that it appends, and a read takes the bytes
-- that are left to a value and what is left then, or is refused.
use mycore.Base.{
  ℕ, ◌+◌, ◌*◌, ◌/◌, ◌%◌, ◌^◌, ◌<◌, ◌≡◌, Option, none, some, List, [], ◌∷◌, ◌++◌, arith,
}

abbrev pub Bytes : Type 0
Bytes = List ℕ

-- The eight bits of a value from 2 ^ `bits` on.
unfoldable pub byte_from : ℕ → ℕ → ℕ
byte_from bits value = value / 2 ^ bits % 256

-- The argument is a byte.
unfoldable pub write_u8 : ℕ → Bytes
write_u8 value = value ∷ []

unfoldable pub write_u16 : ℕ → Bytes
write_u16 value = byte_from 8 value ∷ byte_from 0 value ∷ []

unfoldable pub write_u32 : ℕ → Bytes
write_u32 value =
    byte_from 24 value ∷ byte_from 16 value ∷ byte_from 8 value ∷ byte_from 0 value ∷ []

unfoldable pub write_u64 : ℕ → Bytes
unfolding write_u32
write_u64 value = write_u32 (value / 2 ^ 32 % 2 ^ 32) ++ write_u32 (value % 2 ^ 32)

unfoldable pub write_float : ℕ → Bytes
unfolding write_u32
write_float value = write_u32 value

abbrev pub Reader : Type 0 → Type 0
Reader A = Bytes → Option (A × Bytes)

infixl 5 ◌>>=◌
abbrev pub ◌>>=◌ : {A B : Type 0} → Reader A → (A → Reader B) → Reader B
◌>>=◌ read next bytes = elim (read bytes) [ none ↦ none | some (a, rest) ↦ next a rest ]

abbrev pub done : {A : Type 0} → A → Reader A
done a bytes = some (a, bytes)

-- The shifts and disjunctions of the reads, whose operands have no bits in common.
unfoldable pub join_u16 : ℕ → ℕ → ℕ
join_u16 high low = high * 2 ^ 8 + low

unfoldable pub join_u32 : ℕ → ℕ → ℕ → ℕ → ℕ
join_u32 a b c d = a * 2 ^ 24 + b * 2 ^ 16 + c * 2 ^ 8 + d

unfoldable pub join_u64 : ℕ → ℕ → ℕ
join_u64 high low = high * 2 ^ 32 + low

unfoldable pub read_u8 : Reader ℕ
read_u8 [] = none
read_u8 (value ∷ bytes) = some (value, bytes)

unfoldable pub read_u16 : Reader ℕ
unfolding read_u8
read_u16 = do high ← read_u8; low ← read_u8; done (join_u16 high low)

unfoldable pub read_u32 : Reader ℕ
unfolding read_u8
read_u32 = do a ← read_u8; b ← read_u8; c ← read_u8; d ← read_u8; done (join_u32 a b c d)

unfoldable pub read_u64 : Reader ℕ
unfolding read_u32
read_u64 = do high ← read_u32; low ← read_u32; done (join_u64 high low)

unfoldable pub read_float : Reader ℕ
unfolding read_u32
read_float = read_u32

pub join_u16_lem : (v : ℕ) → v < 2 ^ 16 → join_u16 (byte_from 8 v) (byte_from 0 v) ≡ v
unfolding join_u16 byte_from
join_u16_lem v h = omega arith

pub join_u32_lem :
    (v : ℕ)
    → v < 2 ^ 32
    → join_u32 (byte_from 24 v) (byte_from 16 v) (byte_from 8 v) (byte_from 0 v) ≡ v
unfolding join_u32 byte_from
join_u32_lem v h = omega arith

pub join_u64_lem : (v : ℕ) → v < 2 ^ 64 → join_u64 (v / 2 ^ 32 % 2 ^ 32) (v % 2 ^ 32) ≡ v
unfolding join_u64
join_u64_lem v h = omega arith
