-- ===== src/Prelude/Digits.antt =====
-- The binary digits of `bit_and` and `bit_or`.
use Prim.Native.Nat.{
  ℕ, zero, suc, ◌+◌, ◌*◌, ◌/◌, ◌%◌, ◌≤◌, ◌<◌, min, max, digits, bitwise, bit_and, bit_or, bit_xor,
  differ, bit_and-bitwise, bit_or-bitwise, bit_xor-bitwise,
}
use mathlib.Core.Path.{◌≡◌, refl, ◌∙◌, ap}
use native.Mathlib.Omega.{arith}

-- Two amounts of fuel that cover the first number give the same.
digits_enough :
    (z : ℕ → ℕ) (f : ℕ → ℕ → ℕ) (n m a b : ℕ) → a ≤ n → a ≤ m → digits z f n a b ≡ digits z f m a b
digits_enough z f zero zero zero b h j = refl
digits_enough z f zero (suc m) zero b h j = refl
digits_enough z f (suc n) zero zero b h j = refl
digits_enough z f (suc n) (suc m) zero b h j = refl
digits_enough z f zero m (suc a) b h j = absurd (omega arith)
digits_enough z f (suc n) zero (suc a) b h j = absurd (omega arith)
digits_enough z f (suc n) (suc m) (suc a) b h j =
    omega (arith, digits_enough z f n m (suc a / 2) (b / 2) (omega arith) (omega arith))

bitwise_half :
    (z : ℕ → ℕ) (f : ℕ → ℕ → ℕ) (a b : ℕ)
    → bitwise z f (suc a) b ≡ bitwise z f (suc a / 2) (b / 2) * 2 + f (suc a % 2) (b % 2)
bitwise_half z f a b =
    omega (arith, digits_enough z f a (suc a / 2) (suc a / 2) (b / 2) (omega arith) (omega arith))

and_half : (a b : ℕ) → bit_and a b ≡ bit_and (a / 2) (b / 2) * 2 + min (a % 2) (b % 2)
and_half zero b = omega (arith, bit_and-bitwise 0 b, bit_and-bitwise 0 (b / 2))
and_half (suc a) b = omega (
  arith,
  bit_and-bitwise (suc a) b,
  bit_and-bitwise (suc a / 2) (b / 2),
  bitwise_half (λ y. 0) min a b,
)

or_half : (a b : ℕ) → bit_or a b ≡ bit_or (a / 2) (b / 2) * 2 + max (a % 2) (b % 2)
or_half zero b = omega (arith, bit_or-bitwise 0 b, bit_or-bitwise 0 (b / 2))
or_half (suc a) b = omega (
  arith,
  bit_or-bitwise (suc a) b,
  bit_or-bitwise (suc a / 2) (b / 2),
  bitwise_half (λ y. y) max a b,
)

-- The digit of 2 ^ k.
unfoldable pub digit : ℕ → ℕ → ℕ
digit zero n = n % 2
digit (suc k) n = digit k (n / 2)

pub digit-lt : (k n : ℕ) → digit k n < 2
unfolding digit
digit-lt zero n = omega arith
digit-lt (suc k) n = digit-lt k (n / 2)

pub digit-bit_and : (k a b : ℕ) → digit k (bit_and a b) ≡ min (digit k a) (digit k b)
unfolding digit
digit-bit_and zero a b = omega (arith, and_half a b)
digit-bit_and (suc k) a b =
    let half : bit_and a b / 2 ≡ bit_and (a / 2) (b / 2) = omega (arith, and_half a b) in
    ap (digit k) half ∙ digit-bit_and k (a / 2) (b / 2)

pub digit-bit_or : (k a b : ℕ) → digit k (bit_or a b) ≡ max (digit k a) (digit k b)
unfolding digit
digit-bit_or zero a b = omega (arith, or_half a b)
digit-bit_or (suc k) a b =
    let half : bit_or a b / 2 ≡ bit_or (a / 2) (b / 2) = omega (arith, or_half a b) in
    ap (digit k) half ∙ digit-bit_or k (a / 2) (b / 2)

and_zero_below : (n a : ℕ) → a ≤ n → bit_and a 0 ≡ 0
and_zero_below n zero h = refl
and_zero_below zero (suc a) h = absurd (omega arith)
and_zero_below (suc n) (suc a) h =
    omega (arith, and_half (suc a) 0, and_zero_below n (suc a / 2) (omega arith))

and_one : (a : ℕ) → bit_and a 1 ≡ a % 2
and_one a = omega (arith, and_half a 1, and_zero_below (a / 2) (a / 2) (omega arith))

and_double : (m a : ℕ) → bit_and a (m * 2) ≡ bit_and (a / 2) m * 2
and_double m a =
    let half : m * 2 / 2 ≡ m = omega arith in
    and_half a (m * 2) ∙ omega (arith, ap (bit_and (a / 2)) half)

xor_half : (a b : ℕ) → bit_xor a b ≡ bit_xor (a / 2) (b / 2) * 2 + differ (a % 2) (b % 2)
xor_half zero b = omega (arith, bit_xor-bitwise 0 b, bit_xor-bitwise 0 (b / 2))
xor_half (suc a) b = omega (
  arith,
  bit_xor-bitwise (suc a) b,
  bit_xor-bitwise (suc a / 2) (b / 2),
  bitwise_half (λ y. y) differ a b,
)

differ_bits : (a b : ℕ) → a < 2 → b < 2 → differ a b ≡ (a + b) % 2
differ_bits zero b h j = omega (arith, j)
differ_bits (suc zero) zero h j = refl
differ_bits (suc zero) (suc zero) h j = refl
differ_bits (suc zero) (suc (suc b)) h j = absurd (omega (arith, j))
differ_bits (suc (suc a)) b h j = absurd (omega (arith, h))

pub digit-bit_xor : (k a b : ℕ) → digit k (bit_xor a b) ≡ (digit k a + digit k b) % 2
unfolding digit
digit-bit_xor zero a b =
    omega (arith, xor_half a b, differ_bits (a % 2) (b % 2) (omega arith) (omega arith))
digit-bit_xor (suc k) a b =
    let last = differ_bits (a % 2) (b % 2) (omega arith) (omega arith) in
    let half : bit_xor a b / 2 ≡ bit_xor (a / 2) (b / 2) = omega (arith, xor_half a b, last) in
    ap (digit k) half ∙ digit-bit_xor k (a / 2) (b / 2)

-- The mask of one digit.
unfoldable pub place : ℕ → ℕ
place zero = 1
place (suc k) = place k * 2

pub mask-place : (k a : ℕ) → bit_and a (place k) ≡ digit k a * place k
unfolding digit place
mask-place zero a = omega (arith, and_one a)
mask-place (suc k) a = omega (arith, and_double (place k) a, ap (λ n. n * 2) (mask-place k (a / 2)))

-- The masks of digits 4 and 5.
pub mask-16 : (a : ℕ) → bit_and a 16 ≡ digit 4 a * 16
unfolding place
mask-16 a = mask-place 4 a

pub mask-32 : (a : ℕ) → bit_and a 32 ≡ digit 5 a * 32
unfolding place
mask-32 a = mask-place 5 a

pub digit-15 : (n : ℕ) → digit 15 n ≡ n / 32768 % 2
unfolding digit
digit-15 n = omega arith
