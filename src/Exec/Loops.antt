-- ===== src/Exec/Loops.antt =====
-- Total correctness of loops: an invariant for each round, and the number of rounds.
use database_benchmarking_op.Prelude.{
  ℕ, zero, suc, ◌+◌, ◌-◌, ◌^◌, ◌≤◌, ◌<◌, Bool, ◌≡◌, refl, arith, ltb, lt→ltb, le→ltb, ◌∙◌,
}
use native.Mathlib.Decide.{dec_lt}
use database_benchmarking_op.Machine.{Cpu, Outcome, rounds, less_signed, u64}
use database_benchmarking_op.Exec.Ensures.{Ensures, Ensures-bind}

-- Below 2 ^ 63 the signed comparison is that of the numbers.
pub less_signed_small : (a b : ℕ) → a < 2 ^ 63 → b < 2 ^ 63 → less_signed a b ≡ ltb a b
less_signed_small a b ha hb = elim (dec_lt a b) [
  | yes lt ↦ lt→ltb (u64 (a + 2 ^ 63)) (u64 (b + 2 ^ 63)) (omega arith) ∙ rw (lt→ltb a b lt) refl
  | no ge ↦
      le→ltb (u64 (a + 2 ^ 63)) (u64 (b + 2 ^ 63)) (omega arith)
      ∙ rw (le→ltb a b (omega arith)) refl
]

-- `body`, started after `i` of `n` rounds, does one more, and the test says whether rounds are left.
abbrev pub KeepsOn : (ℕ → Cpu → Type 0) → (Cpu → Outcome Cpu) → (Cpu → Bool) → ℕ → Type 0
KeepsOn Inv body again n =
    (i : ℕ) (c : Cpu)
    → i < n
    → Inv i c
    → Ensures (λ d. Inv (suc i) d × (again d ≡ ltb (suc i) n)) (body c)

rounds_from :
    (Inv : ℕ → Cpu → Type 0) (body : Cpu → Outcome Cpu) (again : Cpu → Bool) (n fuel i left : ℕ)
    (c : Cpu)
    → KeepsOn Inv body again n
    → i + suc left ≡ n
    → left < fuel
    → Inv i c
    → Ensures (Inv n) (rounds fuel body again c)
unfolding rounds
rounds_from Inv body again n zero i left c keeps e enough inv = absurd (omega arith)
rounds_from Inv body again n (suc fuel) i zero c keeps e enough inv =
    let last : suc i ≡ n = omega arith in
    Ensures-bind (λ d. Inv (suc i) d × (again d ≡ ltb (suc i) n)) (Inv n) (body c) _
      (keeps i c (omega arith) inv)
      λ d (kept, test). rw (test, le→ltb (suc i) n (omega arith)) (rw last at kept)
rounds_from Inv body again n (suc fuel) i (suc left) c keeps e enough inv =
    Ensures-bind (λ d. Inv (suc i) d × (again d ≡ ltb (suc i) n)) (Inv n) (body c) _
      (keeps i c (omega arith) inv)
      λ d (kept, test).
        rw (test, lt→ltb (suc i) n (omega arith))
          (rounds_from Inv body again n fuel (suc i) left d keeps (omega arith) (omega arith) kept)

-- A loop of `n` rounds, one at least, with fuel for as many.
pub rounds-Ensures :
    (Inv : ℕ → Cpu → Type 0) (body : Cpu → Outcome Cpu) (again : Cpu → Bool) (n fuel : ℕ) (c : Cpu)
    → KeepsOn Inv body again n
    → 0 < n
    → n ≤ fuel
    → Inv 0 c
    → Ensures (Inv n) (rounds fuel body again c)
rounds-Ensures Inv body again n fuel c keeps pos enough inv =
    rounds_from Inv body again n fuel 0 (n - 1) c keeps (omega arith) (omega arith) inv
