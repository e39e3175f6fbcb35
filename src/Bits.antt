-- ===== src/Bits.antt =====
-- The bitwise operations at variables: one equation for the lowest digit, and from it the laws that
-- the generators, the masks and the time stamps need.
mod Digit
pub use Digit.{and_digit, or_digit, xor_digit, zero_or, zero_xor}
use Prim.Native.Nat.{bit_and-bitwise}
use native.Mathlib.Nat.{pow-suc, one-le-pow, mul-one, div-one, div-div-eq-div-mul}
use mathlib.Core.WellFounded.{Acc, WellFounded, induction}
use database_benchmarking_op.Prelude.{
  ℕ, zero, suc, ◌+◌, ◌-◌, ◌*◌, ◌/◌, ◌%◌, ◌^◌, ◌≤◌, ◌<◌, bit_and, bit_or, bit_xor, ◌≡◌, refl, ap,
  ◌∙◌, arith,
}

-- Induction from `a / 2` to `a`.
below_bound : (k n : ℕ) → n < k → Acc ◌<◌ n
below_bound zero n h = absurd (omega arith)
below_bound (suc k) n h = Acc.intro n (λ m lt. below_bound k m (omega arith))

number_wf : WellFounded ◌<◌
number_wf = record { apply = λ n. below_bound (suc n) n (omega arith) }

pub halving_induction : (P : ℕ → Type 0) → P 0 → ((a : ℕ) → 0 < a → P (a / 2) → P a) → (a : ℕ) → P a
halving_induction P base step a = induction number_wf {C = P} a go
  where
    go : (n : ℕ) → ((m : ℕ) → m < n → P m) → P n
    go zero ih = base
    go (suc n) ih = step (suc n) (omega arith) (ih (suc n / 2) (omega arith))

pub and_zero : (a : ℕ) → bit_and a 0 ≡ 0
and_zero =
    halving_induction (λ a. bit_and a 0 ≡ 0) refl (λ a h ih. omega (arith, and_digit a 0, ih))

pub xor_zero : (a : ℕ) → bit_xor a 0 ≡ a
xor_zero =
    halving_induction (λ a. bit_xor a 0 ≡ a) refl (λ a h ih. ground (arith, xor_digit a 0, ih))

double_pow : (q k : ℕ) → q * 2 ^ suc k ≡ 2 * (q * 2 ^ k)
double_pow q k = omega (arith, ap (λ (t : ℕ). q * t) (pow-suc 2 k))

-- `r | (q << k)` is a sum when `r` has `k` digits at most.
pub or_above : (k q r : ℕ) → r < 2 ^ k → bit_or r (q * 2 ^ k) ≡ q * 2 ^ k + r
or_above zero q zero h = omega (arith, zero_or (q * 1))
or_above zero q (suc r) h = absurd (omega arith)
or_above (suc k) q r h = ground (
  arith,
  or_digit r (q * 2 ^ suc k),
  double_pow q k,
  or_above k q (r / 2) (omega (arith, pow-suc 2 k)),
)

-- `a & (q << k)` is the conjunction above digit `k`, and has zeroes below.
pub and_above : (k a q : ℕ) → bit_and a (q * 2 ^ k) ≡ bit_and (a / 2 ^ k) q * 2 ^ k
and_above zero a q = rw (mul-one q, div-one a, mul-one (bit_and a q))
and_above (suc k) a q =
    let half : q * 2 ^ suc k / 2 ≡ q * 2 ^ k = omega (arith, double_pow q k) in
    let shift : a / 2 / 2 ^ k ≡ a / 2 ^ suc k =
      div-div-eq-div-mul a 2 (2 ^ k) ∙ ap (λ (t : ℕ). a / t) (omega (arith, pow-suc 2 k)) in
    omega (
      arith,
      and_digit a (q * 2 ^ suc k),
      double_pow q k,
      ap (λ (t : ℕ). bit_and (a / 2) t) half,
      and_above k (a / 2) q,
      ap (λ (t : ℕ). bit_and t q * 2 ^ k) shift,
      double_pow (bit_and (a / 2 ^ suc k) q) k,
    )

-- Digit `k` stands in one of two numbers and nothing above: so it does in their exclusive or.
pub xor_top :
    (k a b : ℕ)
    → a < 2 ^ k
    → 2 ^ k ≤ b
    → b < 2 ^ suc k
    → (2 ^ k ≤ bit_xor a b) × (bit_xor a b < 2 ^ suc k)
xor_top zero zero b ha hb hb' = omega (arith, zero_xor b)
xor_top zero (suc a) b ha hb hb' = absurd (omega arith)
xor_top (suc k) a b ha hb hb' =
    let p = pow-suc 2 k in
    let p' = pow-suc 2 (suc k) in
    let rest = xor_top k (a / 2) (b / 2) (omega arith) (omega arith) (omega arith) in
    omega (arith, xor_digit a b, rest.0, rest.1)

pub xor-lt : (k a b : ℕ) → a < 2 ^ k → b < 2 ^ k → bit_xor a b < 2 ^ k
xor-lt zero zero b ha hb = omega (arith, zero_xor b)
xor-lt zero (suc a) b ha hb = absurd (omega arith)
xor-lt (suc k) a b ha hb =
    let p = pow-suc 2 k in
    omega (arith, xor_digit a b, xor-lt k (a / 2) (b / 2) (omega arith) (omega arith))

xor_cancel_fuel : (n a b : ℕ) → a ≤ n → b ≤ n → bit_xor (bit_xor a b) b ≡ a
xor_cancel_fuel zero zero zero ha hb = refl
xor_cancel_fuel zero (suc a) b ha hb = absurd (omega arith)
xor_cancel_fuel zero zero (suc b) ha hb = absurd (omega arith)
xor_cancel_fuel (suc n) a b ha hb =
    let x = bit_xor (a / 2) (b / 2) in
    let halves : bit_xor a b / 2 ≡ x = omega (arith, xor_digit a b) in
    omega (
      arith,
      xor_digit a b,
      xor_digit (bit_xor a b) b,
      ap (λ (t : ℕ). bit_xor t (b / 2)) halves,
      xor_cancel_fuel n (a / 2) (b / 2) (omega arith) (omega arith),
    )

pub xor_cancel : (a b : ℕ) → bit_xor (bit_xor a b) b ≡ a
xor_cancel a b = xor_cancel_fuel (a + b) a b (omega arith) (omega arith)

pub one_and : (a : ℕ) → bit_and 1 a ≡ a % 2
one_and a = omega (arith, and_digit 1 a, bit_and-bitwise 0 (a / 2))

pub and-le : (a b : ℕ) → bit_and a b ≤ a
and-le =
    halving_induction (λ a. (b : ℕ) → bit_and a b ≤ a) (λ b. omega (arith, bit_and-bitwise 0 b))
      (λ a pos ih b. omega (arith, and_digit a b, ih (b / 2)))

pub and_comm : (a b : ℕ) → bit_and a b ≡ bit_and b a
and_comm =
    halving_induction (λ a. (b : ℕ) → bit_and a b ≡ bit_and b a)
      (λ b. omega (arith, bit_and-bitwise 0 b, and_zero b))
      (λ a pos ih b. omega (arith, and_digit a b, and_digit b a, ih (b / 2)))

-- A mask of `k` ones changes no number of `k` digits.
pub and_mask : (k a : ℕ) → a < 2 ^ k → bit_and a (2 ^ k - 1) ≡ a
and_mask zero a h = omega (arith, and_zero a)
and_mask (suc k) a h =
    let p = pow-suc 2 k in
    let one = one-le-pow k 2 in
    let half : (2 ^ suc k - 1) / 2 ≡ 2 ^ k - 1 = omega arith in
    omega (
      arith,
      and_digit a (2 ^ suc k - 1),
      ap (λ (t : ℕ). bit_and (a / 2) t) half,
      and_mask k (a / 2) (omega arith),
    )
