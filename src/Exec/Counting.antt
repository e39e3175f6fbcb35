-- ===== src/Exec/Counting.antt =====
-- A loop that counts up in a register by a fixed step until a limit.
use database_benchmarking_op.Prelude.{
  ℕ, suc, ◌+◌, ◌*◌, ◌^◌, ◌≤◌, ◌<◌, ◌≡◌, refl, ap₂, ◌∙◌, arith, ltb, lt→ltb, le→ltb,
}
use native.Mathlib.Decide.{dec_lt}
use native.Mathlib.Nat.{suc-mul, mul-le-mul_right}
use database_benchmarking_op.Machine.{
  Reg, Operand, Cpu, Outcome, get, value_of, rounds, less_signed, jumps_back,
}
use database_benchmarking_op.Exec.Ensures.{Ensures, Ensures-weaken}
use database_benchmarking_op.Exec.Loops.{less_signed_small, KeepsOn, rounds-Ensures}

-- The register `r` starts at `b` and goes up by `w` each round, `limit` is where the loop stops, and it
-- is reached in one round more than `p`.
module _ (r : Reg) (bound : Operand) (b w p limit fuel : ℕ) (Inv : ℕ → Cpu → Type 0)
    (body : Cpu → Outcome Cpu)
    (counts : (i : ℕ) (d : Cpu) → Inv i d → (get r d ≡ b + i * w) × (value_of bound d ≡ limit))
    (each : (i : ℕ) (d : Cpu) → i < suc p → Inv i d → Ensures (Inv (suc i)) (body d))
    (short : b + p * w < limit) (long : limit ≤ b + suc p * w) (small : limit + w < 2 ^ 63)
    (enough : suc p ≤ fuel) where
  again_lem :
      (i : ℕ) (d : Cpu) → i < suc p → Inv (suc i) d → jumps_back bound r d ≡ ltb (suc i) (suc p)
  again_lem i d lt inv =
      let (here, stop) = counts (suc i) d inv in
      let below : i * w ≤ p * w = mul-le-mul_right w (omega arith) in
      let up : suc i * w ≡ i * w + w = suc-mul i w in
      let less : ltb (b + suc i * w) limit ≡ ltb (suc i) (suc p) = elim (dec_lt (suc i) (suc p)) [
        | yes more ↦
            let within : suc i * w ≤ p * w = mul-le-mul_right w (omega arith) in
            lt→ltb (b + suc i * w) limit (omega arith) ∙ rw (lt→ltb (suc i) (suc p) more) refl
        | no over ↦
            let last : suc p * w ≤ suc i * w = mul-le-mul_right w (omega arith) in
            le→ltb (b + suc i * w) limit (omega arith)
            ∙ rw (le→ltb (suc i) (suc p) (omega arith)) refl
      ] in
      ap₂ less_signed here stop
      ∙ less_signed_small (b + suc i * w) limit (omega arith) (omega arith)
      ∙ less

  pub counted-Ensures :
      (c : Cpu) → Inv 0 c → Ensures (Inv (suc p)) (rounds fuel body (jumps_back bound r) c)
  counted-Ensures c start =
      let keeps : KeepsOn Inv body (jumps_back bound r) (suc p) = λ i d lt inv.
        Ensures-weaken (Inv (suc i)) _ (body d) (each i d lt inv)
          λ e next. (next, again_lem i e lt next) in
      rounds-Ensures Inv body (jumps_back bound r) (suc p) fuel c keeps (omega arith) enough start
