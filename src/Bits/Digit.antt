-- ===== src/Bits/Digit.antt =====
-- The native operations stand for a recursion on digits that is given the first number as its fuel.
-- One equation for each operation, without the fuel.
use Prim.Native.Nat.{digits, bitwise, differ, bit_and-bitwise, bit_or-bitwise, bit_xor-bitwise}
use database_benchmarking_op.Prelude.{
  ℕ, zero, suc, ◌+◌, ◌*◌, ◌/◌, ◌%◌, ◌-◌, ◌≤◌, ◌<◌, min, max, bit_and, bit_or, bit_xor, ◌≡◌, refl,
  arith,
}

module _ (z : ℕ → ℕ) (f : ℕ → ℕ → ℕ) where
  -- Any fuel from the number itself on gives the same.
  spare_fuel : (n k a b : ℕ) → a ≤ n → digits z f (n + k) a b ≡ digits z f n a b
  spare_fuel zero zero zero b h = refl
  spare_fuel zero (suc k) zero b h = ground arith
  spare_fuel zero k (suc a) b h = absurd (omega arith)
  spare_fuel (suc n) k zero b h = let e : suc n + k ≡ suc (n + k) = omega arith in rw e
  spare_fuel (suc n) k (suc a) b h =
      let e : suc n + k ≡ suc (n + k) = omega arith in
      rw (e, spare_fuel n k (suc a / 2) (b / 2) (omega arith))

  lowest_digit :
      (a b : ℕ)
      → bitwise z f (suc a) b ≡ bitwise z f (suc a / 2) (b / 2) * 2 + f (suc a % 2) (b % 2)
  lowest_digit a b =
      let h = suc a / 2 in
      let e : h + (a - h) ≡ a = omega arith in
      omega (arith, rw e at (spare_fuel h (a - h) h (b / 2) (omega arith)))

pub and_digit : (a b : ℕ) → bit_and a b ≡ bit_and (a / 2) (b / 2) * 2 + min (a % 2) (b % 2)
and_digit zero b = simp bit_and-bitwise (omega arith)
and_digit (suc a) b = simp bit_and-bitwise (lowest_digit (λ _. 0) min a b)

pub or_digit : (a b : ℕ) → bit_or a b ≡ bit_or (a / 2) (b / 2) * 2 + max (a % 2) (b % 2)
or_digit zero b = simp bit_or-bitwise (omega arith)
or_digit (suc a) b = simp bit_or-bitwise (lowest_digit (λ n. n) max a b)

differ-digits : (x y : ℕ) → x < 2 → y < 2 → differ x y ≡ (x + y) % 2
differ-digits zero y hx hy = omega arith
differ-digits (suc zero) zero hx hy = refl
differ-digits (suc zero) (suc zero) hx hy = refl
differ-digits (suc zero) (suc (suc y)) hx hy = absurd (omega arith)
differ-digits (suc (suc x)) y hx hy = absurd (omega arith)

-- The sum of two digits without a carry.
pub xor_digit : (a b : ℕ) → bit_xor a b ≡ bit_xor (a / 2) (b / 2) * 2 + (a % 2 + b % 2) % 2
xor_digit zero b = simp bit_xor-bitwise (omega arith)
xor_digit (suc a) b = simp bit_xor-bitwise (
    omega (
      arith,
      lowest_digit (λ n. n) differ a b,
      differ-digits (suc a % 2) (b % 2) (omega arith) (omega arith),
    ))

pub zero_or : (b : ℕ) → bit_or 0 b ≡ b
zero_or b = bit_or-bitwise 0 b

pub zero_xor : (b : ℕ) → bit_xor 0 b ≡ b
zero_xor b = bit_xor-bitwise 0 b
