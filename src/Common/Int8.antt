-- ===== src/Common/Int8.antt =====
-- C's `int8_t`, and the conversion to it from a `uint8_t`.
use Prim.Native.Nat.{ℕ, ◌-◌, ◌%◌, ◌^◌, ◌<◌, ◌≤◌}
use mathlib.Core.Path.{◌≡◌, refl}
use mathlib.Core.Bool.{Bool, true, false}
use uesim.Common.Tests.{ltb, if◌then◌else◌, lt→ltb, le→ltb}

-- `negsuc n` is -(n + 1).
pub data ℤ : Type 0 where
  pos negsuc : ℕ → ℤ

-- The eight bits of a byte read as a two's complement number.
abbrev pub int8 : ℕ → ℤ
int8 n = if ltb n 128 then pos n else negsuc (255 - n)

abbrev pub is_negative : ℤ → Bool
is_negative (pos n) = false
is_negative (negsuc n) = true

-- The byte of a number from -128 to 127.
abbrev pub to_uint8 : ℤ → ℕ
to_uint8 (pos n) = n % 2 ^ 8
to_uint8 (negsuc n) = 255 - n

-- Bytes below 128 keep their value.
pub int8_low : (n : ℕ) → n < 128 → int8 n ≡ ℤ.pos n
int8_low n low = rw (lt→ltb n 128 low) refl

pub int8_high : (n : ℕ) → 128 ≤ n → int8 n ≡ ℤ.negsuc (255 - n)
int8_high n high = rw (le→ltb n 128 high) refl
