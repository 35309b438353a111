-- ===== src/Common/Words.antt =====
-- C's fixed-width unsigned words as native numbers, and its shifts.
use Prim.Native.Nat.{ℕ, ◌+◌, ◌-◌, ◌*◌, ◌/◌, ◌%◌, ◌^◌, bit_xor}

abbrev pub u8 : ℕ → ℕ
u8 n = n % 2 ^ 8

abbrev pub u32 : ℕ → ℕ
u32 n = n % 2 ^ 32

abbrev pub u64 : ℕ → ℕ
u64 n = n % 2 ^ 64

-- a - b on `u32`; the modulus is added first, since `-` stops at 0.
abbrev pub sub32 : ℕ → ℕ → ℕ
sub32 a b = u32 (a + 2 ^ 32 - u32 b)

-- ~a on `u32`
abbrev pub not32 : ℕ → ℕ
not32 a = bit_xor a 0xffff_ffff

infixl 75 ◌<<<◌ ◌>>>◌
abbrev pub ◌<<<◌ : ℕ → ℕ → ℕ
x <<< k = x * 2 ^ k

abbrev pub ◌>>>◌ : ℕ → ℕ → ℕ
x >>> k = x / 2 ^ k
