-- ===== src/Exec/Lines.antt =====
-- Straight-line code on cache lines: accesses of 64 bytes, and flushes, at an address that is the sum of
-- two operands and a multiple of 64.
use database_benchmarking_op.Prelude.{
  ℕ, ◌+◌, ◌*◌, ◌%◌, List, [], ◌∷◌, map, Bool, true, ◌&&◌, ◌==◌, ◌≡◌, refl, ◌∙◌, arith, eq→==, ==→eq,
  and_parts,
}
use database_benchmarking_op.Machine.{
  Reg, Operand, reg, imm, indexed, FlushOp, Instr, flush, vmovdqa_load, vmovntdqa, vmovdqa_store,
  vmovnt_store, Cpu, Access, read, nt_read, write, nt_write, Event, access, flushed, u64, get,
  value_of, step, exec,
}
use database_benchmarking_op.Exec.Ensures.{Ensures, Ensures-bind, Ensures-weaken}

-- An access to the line at a displacement, through a vector register, or a flush of it.
pub data Line : Type 0 where
  moves : Access → ℕ → ℕ → Line
  flushes : FlushOp → ℕ → Line

unfoldable pub text : Operand → Operand → Line → Instr
text b x (moves read d v) = vmovdqa_load 64 (indexed d b x) v
text b x (moves nt_read d v) = vmovntdqa 64 (indexed d b x) v
text b x (moves write d v) = vmovdqa_store 64 v (indexed d b x)
text b x (moves nt_write d v) = vmovnt_store 64 v (indexed d b x)
text b x (flushes f d) = flush f (indexed d b x)

abbrev pub displacement : Line → ℕ
displacement (moves k d v) = d
displacement (flushes f d) = d

abbrev pub on_lines : List Line → Bool
on_lines [] = true
on_lines (l ∷ ls) = (displacement l % 64 == 0) && on_lines ls

-- The history after the code, from the values of the two operands.
abbrev pub after_line : ℕ → ℕ → Line → List Event → List Event
after_line b x (moves k d v) h = access k (u64 (b + (d + x * 1))) 64 ∷ h
after_line b x (flushes f d) h = flushed f (u64 (b + (d + x * 1))) ∷ h

abbrev pub after_lines : ℕ → ℕ → List Line → List Event → List Event
after_lines b x [] h = h
after_lines b x (l ∷ ls) h = after_lines b x ls (after_line b x l h)

-- The general registers and the counter are as they were, and the history is `h`.
pub record Same (h : List Event) (c d : Cpu) : Type 0 where
  pub regs : (r : Reg) → get r d ≡ get r c
  pub clock_kept : d.clock ≡ c.clock
  pub reads_kept : d.reads ≡ c.reads
  pub traced : d.history ≡ h

value_of_same :
    (o : Operand) (c d : Cpu) → ((r : Reg) → get r d ≡ get r c) → value_of o d ≡ value_of o c
value_of_same (reg r) c d same = same r
value_of_same (imm n) c d same = refl

same_regs :
    (c : Cpu) (v : ℕ → ℕ → ℕ) (m : ℕ → ℕ) (h : List Event) (r : Reg)
    → get r (record c { vec = v; mem = m; history = h }) ≡ get r c
same_regs c v m h Reg.rsi = refl
same_regs c v m h r = refl

step-Line :
    (l : Line) (b x : Operand) (c : Cpu)
    → displacement l % 64 ≡ 0
    → (value_of b c + value_of x c) % 64 ≡ 0
    → Ensures (Same (after_line (value_of b c) (value_of x c) l c.history) c) (step (text b x l) c)
unfolding step text
step-Line (flushes f d) b x c m e = record {
  regs = same_regs c _ _ _;
  clock_kept = refl;
  reads_kept = refl;
  traced = refl;
}
step-Line (moves read d v) b x c m e =
    let good = eq→== (u64 (value_of b c + (d + value_of x c * 1)) % 64) 0 (omega arith) in
    rw good
      (record { regs = same_regs c _ _ _; clock_kept = refl; reads_kept = refl; traced = refl })
step-Line (moves nt_read d v) b x c m e =
    let good = eq→== (u64 (value_of b c + (d + value_of x c * 1)) % 64) 0 (omega arith) in
    rw good
      (record { regs = same_regs c _ _ _; clock_kept = refl; reads_kept = refl; traced = refl })
step-Line (moves write d v) b x c m e =
    let good = eq→== (u64 (value_of b c + (d + value_of x c * 1)) % 64) 0 (omega arith) in
    rw good
      (record { regs = same_regs c _ _ _; clock_kept = refl; reads_kept = refl; traced = refl })
step-Line (moves nt_write d v) b x c m e =
    let good = eq→== (u64 (value_of b c + (d + value_of x c * 1)) % 64) 0 (omega arith) in
    rw good
      (record { regs = same_regs c _ _ _; clock_kept = refl; reads_kept = refl; traced = refl })

pub exec-lines :
    (ls : List Line) (b x : Operand) (c : Cpu)
    → on_lines ls ≡ true
    → (value_of b c + value_of x c) % 64 ≡ 0
    → Ensures
        (Same (after_lines (value_of b c) (value_of x c) ls c.history) c)
        (exec (map (text b x) ls) c)
unfolding exec
exec-lines [] b x c on m = record {
  regs = λ r. refl;
  clock_kept = refl;
  reads_kept = refl;
  traced = refl;
}
exec-lines (l ∷ ls) b x c on m =
    let (here, rest) = and_parts (displacement l % 64 == 0) (on_lines ls) on in
    Ensures-bind (Same (after_line (value_of b c) (value_of x c) l c.history) c)
      (Same (after_lines (value_of b c) (value_of x c) (l ∷ ls) c.history) c) (step (text b x l) c)
      _ (step-Line l b x c (==→eq (displacement l % 64) 0 here) m)
      λ d s.
        let same_b = value_of_same b c d s.regs in
        let same_x = value_of_same x c d s.regs in
        Ensures-weaken (Same (after_lines (value_of b d) (value_of x d) ls d.history) d)
          (Same (after_lines (value_of b c) (value_of x c) (l ∷ ls) c.history) c)
          (exec (map (text b x) ls) d) (exec-lines ls b x d rest (rw (same_b, same_x) m))
          λ e t. record {
            regs = λ r. t.regs r ∙ s.regs r;
            clock_kept = t.clock_kept ∙ s.clock_kept;
            reads_kept = t.reads_kept ∙ s.reads_kept;
            traced = t.traced ∙ rw (same_b, same_x, s.traced) refl;
          }
