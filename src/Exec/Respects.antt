-- ===== src/Exec/Respects.antt =====
-- What every instruction respects, code with loops does too.
use database_benchmarking_op.Prelude.{
  ℕ, zero, suc, List, [], ◌∷◌, Bool, Bool-cases, inl, inr, if◌then◌else◌,
}
use database_benchmarking_op.Machine.{
  Cpu, Instr, Outcome, done, fault, spin, ◌>>=◌, step, exec, Code, run, ◌⨾◌, do_while, rounds,
  exec_code, jumps_back,
}
use database_benchmarking_op.Exec.Ensures.{Ensures}
use database_benchmarking_op.Exec.Vectors.{OnDone, OnDone-bind}

OnDone-weaken :
    (P Q : Cpu → Type 0) (o : Outcome Cpu) → OnDone P o → ((a : Cpu) → P a → Q a) → OnDone Q o
OnDone-weaken P Q (done a) h k = k a h
OnDone-weaken P Q fault h k = tt
OnDone-weaken P Q spin h k = tt

pub Ensures-both :
    (P Q : Cpu → Type 0) (o : Outcome Cpu) → Ensures P o → OnDone Q o → Ensures (λ a. P a × Q a) o
Ensures-both P Q (done a) h k = (h, k)
Ensures-both P Q fault h k = h
Ensures-both P Q spin h k = h

-- A relation that every instruction respects, all code does.
module _ (R : Cpu → Cpu → Type 0) (same : (c : Cpu) → R c c)
    (join : (c d e : Cpu) → R c d → R d e → R c e)
    (each : (i : Instr) (c : Cpu) → OnDone (R c) (step i c)) where
  then_R :
      (c : Cpu) (o : Outcome Cpu) (f : Cpu → Outcome Cpu)
      → OnDone (R c) o
      → ((d : Cpu) → OnDone (R d) (f d))
      → OnDone (R c) (o >>= f)
  then_R c o f h k =
      OnDone-bind (R c) (R c) o f h
        λ d r. OnDone-weaken (R d) (R c) (f d) (k d) λ e s. join c d e r s

  pub exec_respects : (is : List Instr) (c : Cpu) → OnDone (R c) (exec is c)
  unfolding exec
  exec_respects [] c = same c
  exec_respects (i ∷ is) c = then_R c (step i c) (exec is) (each i c) (exec_respects is)

  rounds_respect :
      (fuel : ℕ) (body : Cpu → Outcome Cpu) (again : Cpu → Bool) (c : Cpu)
      → ((d : Cpu) → OnDone (R d) (body d))
      → OnDone (R c) (rounds fuel body again c)
  unfolding rounds
  rounds_respect zero body again c h = tt
  rounds_respect (suc fuel) body again c h =
      then_R c (body c)
        (λ d. let rest = rounds fuel body again d in if again d then rest else done d) (h c)
        λ d. elim (Bool-cases (again d)) [
          | inl more ↦ rw more (rounds_respect fuel body again d h)
          | inr over ↦ rw over (same d)
        ]

  pub code_respects : (fuel : ℕ) (code : Code) (c : Cpu) → OnDone (R c) (exec_code fuel code c)
  unfolding exec_code
  code_respects fuel (run is) c = exec_respects is c
  code_respects fuel (p ⨾ q) c =
      then_R c (exec_code fuel p c) (exec_code fuel q) (code_respects fuel p c)
        (code_respects fuel q)
  code_respects fuel (do_while p bound r) c =
      rounds_respect fuel (exec_code fuel p) (jumps_back bound r) c (code_respects fuel p)
