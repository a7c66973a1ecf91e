-- ===== src/Base/Bits.antt =====
-- `|`, with nothing and on three numbers.
use Prim.Native.Nat.{ℕ, zero, suc, ◌+◌, ◌*◌, ◌/◌, ◌%◌, ◌≤◌, max, digits, bit_or, bit_or-bitwise}
use mathlib.Core.Path.{◌≡◌, refl}
use native.Mathlib.Omega.{arith}

or_digits-zero : (n a : ℕ) → a ≤ n → digits (λ b. b) max n a 0 ≡ a
or_digits-zero zero zero h = refl
or_digits-zero zero (suc a) h = absurd (omega arith)
or_digits-zero (suc n) zero h = refl
or_digits-zero (suc n) (suc a) h = omega (arith, or_digits-zero n (suc a / 2) (omega arith))

pub bit_or-zero : (a : ℕ) → bit_or a 0 ≡ a
bit_or-zero a = omega (arith, bit_or-bitwise a 0, or_digits-zero a a (omega arith))

-- More steps than the number has digits change nothing.
more_steps : (n m a b : ℕ) → a ≤ n → n ≤ m → digits (λ b. b) max m a b ≡ digits (λ b. b) max n a b
more_steps zero zero a b h k = refl
more_steps zero (suc m) zero b h k = refl
more_steps zero (suc m) (suc a) b h k = absurd (omega arith)
more_steps (suc n) zero a b h k = absurd (omega arith)
more_steps (suc n) (suc m) zero b h k = refl
more_steps (suc n) (suc m) (suc a) b h k =
    omega (arith, more_steps n m (suc a / 2) (b / 2) (omega arith) (omega arith))

pub zero-bit_or : (b : ℕ) → bit_or 0 b ≡ b
zero-bit_or b = bit_or-bitwise 0 b

-- The lowest digit of `a | b`, and the others.
bit_or-digit : (a b : ℕ) → bit_or a b ≡ bit_or (a / 2) (b / 2) * 2 + max (a % 2) (b % 2)
bit_or-digit zero b = omega (arith, zero-bit_or b, zero-bit_or (b / 2))
bit_or-digit (suc a) b = omega (
  arith,
  more_steps (suc a / 2) a (suc a / 2) (b / 2) (omega arith) (omega arith),
  bit_or-bitwise (suc a) b,
  bit_or-bitwise (suc a / 2) (b / 2),
)

or_assoc_up_to : (n a b c : ℕ) → a ≤ n → bit_or (bit_or a b) c ≡ bit_or a (bit_or b c)
or_assoc_up_to n zero b c h = rw (zero-bit_or b, zero-bit_or (bit_or b c)) refl
or_assoc_up_to zero (suc a) b c h = absurd (omega arith)
or_assoc_up_to (suc n) (suc a) b c h =
    let low : bit_or (suc a) b % 2 ≡ max (suc a % 2) (b % 2) =
      omega (arith, bit_or-digit (suc a) b) in
    let high : bit_or (suc a) b / 2 ≡ bit_or (suc a / 2) (b / 2) =
      omega (arith, bit_or-digit (suc a) b) in
    let low' : bit_or b c % 2 ≡ max (b % 2) (c % 2) = omega (arith, bit_or-digit b c) in
    let high' : bit_or b c / 2 ≡ bit_or (b / 2) (c / 2) = omega (arith, bit_or-digit b c) in
    rw
      (bit_or-digit (bit_or (suc a) b) c, bit_or-digit (suc a) (bit_or b c), low, high, low', high')
      (omega (arith, or_assoc_up_to n (suc a / 2) (b / 2) (c / 2) (omega arith)))

pub bit_or_assoc : (a b c : ℕ) → bit_or (bit_or a b) c ≡ bit_or a (bit_or b c)
bit_or_assoc a b c = or_assoc_up_to a a b c (omega arith)
