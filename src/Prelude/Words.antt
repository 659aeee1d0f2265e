-- ===== src/Prelude/Words.antt =====
-- Fixed-width words: Go's conversions and bit operators on `byte`, `uint16`, `uint64` and `int`.
use Prim.Native.Nat.{ℕ, ◌+◌, ◌-◌, ◌*◌, ◌/◌, ◌%◌, ◌^◌, bit_and, bit_or, bit_xor}
use mathlib.Core.Bool.{Bool, true, false}
use chippy.Prelude.Tests.{ltb, ◌==◌, if◌then◌else◌}

abbrev pub u8 : ℕ → ℕ
u8 n = n % 256

abbrev pub u16 : ℕ → ℕ
u16 n = n % 65536

abbrev pub u64 : ℕ → ℕ
u64 n = n % 2 ^ 64

-- `x != 0`
abbrev pub nonzero : ℕ → Bool
nonzero n = if n == 0 then false else true

-- `lo | hi<<8` at `uint16`
unfoldable pub word : ℕ → ℕ → ℕ
word lo hi = bit_or lo (u16 (hi * 256))

-- `byte(v >> 8)`
abbrev pub hi_byte : ℕ → ℕ
hi_byte v = u8 (v / 256)

-- `x &^ y` at `byte` and at `uint16`
unfoldable pub and_not8 : ℕ → ℕ → ℕ
and_not8 x y = bit_and x (bit_xor y 0xFF)

unfoldable pub and_not16 : ℕ → ℕ → ℕ
and_not16 x y = bit_and x (bit_xor y 0xFFFF)

-- `uint16(int32(pc) + int32(int8(off)))`
unfoldable pub add_signed8 : ℕ → ℕ → ℕ
add_signed8 pc off = u16 (if ltb off 128 then pc + off else pc + 2 ^ 32 - (256 - off))

-- Go's `int`: a 64-bit two's-complement word.
abbrev pub int_sub : ℕ → ℕ → ℕ
int_sub a b = (a + 2 ^ 64 - b) % 2 ^ 64

abbrev pub int_add : ℕ → ℕ → ℕ
int_add a b = (a + b) % 2 ^ 64

abbrev pub int_neg : ℕ → Bool
int_neg a = if ltb a (2 ^ 63) then false else true
