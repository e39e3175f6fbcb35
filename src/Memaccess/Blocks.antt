-- ===== src/Memaccess/Blocks.antt =====
-- The macros of microbenchmarks/memaccess.hpp are regular: a block of accesses to lines side by side,
-- with a step of r10 past them.
use database_benchmarking_op.Prelude.{
  ℕ, zero, suc, ◌+◌, ◌*◌, ◌%◌, List, [], ◌∷◌, ◌++◌, map, true, Option, none, some, ◌≡◌, refl, sym,
  ap, ap₂, ◌∙◌, arith, eq→==,
}
use database_benchmarking_op.Machine.{
  r8, r9, r10, r11, rcx, Operand, reg, imm, value_of, FlushOp, Instr, add, Cpu, Access, nt_read,
  Event, access, flushed, u64, step, exec,
}
use database_benchmarking_op.Exec.Ensures.{Ensures, exec_parts}
use database_benchmarking_op.Exec.Lines.{
  Line, moves, flushes, text, on_lines, after_lines, Same, exec-lines,
}
use database_benchmarking_op.Latency.Spec.{Style, line_events}

-- Whole lines, each flushed or not.
abbrev pub by_lines : Access → Option FlushOp → Style
by_lines k f = record { kind = k; width = 64; per_line = 1; flush_by = f }

-- The loads go through the 32 vector registers in turn.
abbrev register_at : Access → ℕ → ℕ
register_at nt_read i = i % 32
register_at _ i = 0

abbrev line_ops : Access → Option FlushOp → ℕ → List Line → List Line
line_ops k none i ls = moves k (i * 64) (register_at k i) ∷ ls
line_ops k (some f) i ls = moves k (i * 64) (register_at k i) ∷ flushes f (i * 64) ∷ ls

abbrev pub unrolled : Access → Option FlushOp → ℕ → ℕ → List Line
unrolled k f i zero = []
unrolled k f i (suc n) = line_ops k f i (unrolled k f (suc i) n)

abbrev pub block : Access → Option FlushOp → ℕ → List Instr
block k f n = map (text (reg r9) (reg r10)) (unrolled k f 0 n) ++ add (imm (n * 64)) r10 ∷ []

on_lines-unrolled : (k : Access) (f : Option FlushOp) (i n : ℕ) → on_lines (unrolled k f i n) ≡ true
on_lines-unrolled k f i zero = refl
on_lines-unrolled k none i (suc n) =
    rw (eq→== (i * 64 % 64) 0 (omega arith)) (on_lines-unrolled k none (suc i) n)
on_lines-unrolled k (some f) i (suc n) =
    rw (eq→== (i * 64 % 64) 0 (omega arith)) (on_lines-unrolled k (some f) (suc i) n)

-- One line more.
next_line :
    (k : Access) (f : Option FlushOp) (b x i : ℕ) (ls : List Line) (h : List Event)
    → after_lines b x (line_ops k f i ls) (line_events (by_lines k f) (b + x) i h)
      ≡ after_lines b x ls (line_events (by_lines k f) (b + x) (suc i) h)
next_line k none b x i ls h =
    let here : b + (i * 64 + x * 1) ≡ b + x + (i * 64 + 0 * 64) = omega arith in
    ap
      (λ (a : ℕ).
        after_lines b x ls (access k (u64 a) 64 ∷ line_events (by_lines k none) (b + x) i h))
      here
next_line k (some f) b x i ls h =
    let here : b + (i * 64 + x * 1) ≡ b + x + (i * 64 + 0 * 64) = omega arith in
    let there : b + (i * 64 + x * 1) ≡ b + x + i * 64 = omega arith in
    ap₂
      (λ (a a' : ℕ).
        after_lines b x ls (
          flushed f (u64 a') ∷ access k (u64 a) 64 ∷ line_events (by_lines k (some f)) (b + x) i h))
      here there

after-unrolled :
    (k : Access) (f : Option FlushOp) (b x i n : ℕ) (h : List Event)
    → after_lines b x (unrolled k f i n) (line_events (by_lines k f) (b + x) i h)
      ≡ line_events (by_lines k f) (b + x) (n + i) h
after-unrolled k f b x i zero h =
    ap (λ (j : ℕ). line_events (by_lines k f) (b + x) j h) (omega arith)
after-unrolled k f b x i (suc n) h =
    next_line k f b x i (unrolled k f (suc i) n) h
    ∙ after-unrolled k f b x (suc i) n h
    ∙ ap (λ (j : ℕ). line_events (by_lines k f) (b + x) j h) (omega arith)

-- Lines side by side from the sum of two operands on, the start of a line.
pub exec-unrolled :
    (k : Access) (f : Option FlushOp) (n : ℕ) (b x : Operand) (c : Cpu)
    → (value_of b c + value_of x c) % 64 ≡ 0
    → Ensures
        (Same (line_events (by_lines k f) (value_of b c + value_of x c) n c.history) c)
        (exec (map (text b x) (unrolled k f 0 n)) c)
exec-unrolled k f n b x c m =
    let h = after_lines (value_of b c) (value_of x c) (unrolled k f 0 n) c.history in
    let none_before : n + 0 ≡ n = omega arith in
    let all : h ≡ line_events (by_lines k f) (value_of b c + value_of x c) n c.history =
      after-unrolled k f (value_of b c) (value_of x c) 0 n c.history
      ∙ ap (λ (j : ℕ). line_events (by_lines k f) (value_of b c + value_of x c) j c.history)
          none_before in
    rw (sym all) (exec-lines (unrolled k f 0 n) b x c (on_lines-unrolled k f 0 n) m)

-- r10 is `acc` and the history is `h`, as the code leaves them; what the loops use besides is as it was.
pub record Moved (acc : ℕ) (h : List Event) (c d : Cpu) : Type 0 where
  pub r8_kept : d.r8 ≡ c.r8
  pub r9_kept : d.r9 ≡ c.r9
  pub r11_kept : d.r11 ≡ c.r11
  pub rcx_kept : d.rcx ≡ c.rcx
  pub clock_kept : d.clock ≡ c.clock
  pub reads_kept : d.reads ≡ c.reads
  pub accessed : d.r10 ≡ acc
  pub traced : d.history ≡ h

pub Moved-trans :
    {acc acc' : ℕ} {h h' : List Event} {c d e : Cpu}
    → Moved acc h c d
    → Moved acc' h' d e
    → Moved acc' h' c e
Moved-trans s t = record {
  r8_kept = t.r8_kept ∙ s.r8_kept;
  r9_kept = t.r9_kept ∙ s.r9_kept;
  r11_kept = t.r11_kept ∙ s.r11_kept;
  rcx_kept = t.rcx_kept ∙ s.rcx_kept;
  clock_kept = t.clock_kept ∙ s.clock_kept;
  reads_kept = t.reads_kept ∙ s.reads_kept;
  accessed = t.accessed;
  traced = t.traced;
}

-- A block at a line-aligned address makes its accesses and goes on by its length.
pub exec-block :
    (k : Access) (f : Option FlushOp) (n : ℕ) (c : Cpu)
    → (c.r9 + c.r10) % 64 ≡ 0
    → Ensures
        (Moved (u64 (c.r10 + n * 64)) (line_events (by_lines k f) (c.r9 + c.r10) n c.history) c)
        (exec (block k f n) c)
unfolding exec step
exec-block k f n c m =
    exec_parts (Same (line_events (by_lines k f) (c.r9 + c.r10) n c.history) c)
      (Moved (u64 (c.r10 + n * 64)) (line_events (by_lines k f) (c.r9 + c.r10) n c.history) c)
      (map (text (reg r9) (reg r10)) (unrolled k f 0 n)) (add (imm (n * 64)) r10 ∷ []) c
      (exec-unrolled k f n (reg r9) (reg r10) c m)
      λ d s. record {
        r8_kept = s.regs r8;
        r9_kept = s.regs r9;
        r11_kept = s.regs r11;
        rcx_kept = s.regs rcx;
        clock_kept = s.clock_kept;
        reads_kept = s.reads_kept;
        accessed = ap (λ (t : ℕ). u64 (t + n * 64)) (s.regs r10);
        traced = s.traced;
      }

-- Lines that go on where others end.
pub line_events-line_events :
    (k : Access) (f : Option FlushOp) (a m n : ℕ) (h : List Event)
    → line_events (by_lines k f) (a + m * 64) n (line_events (by_lines k f) a m h)
      ≡ line_events (by_lines k f) a (n + m) h
line_events-line_events k f a m zero h =
    ap (λ (j : ℕ). line_events (by_lines k f) a j h) (omega arith)
line_events-line_events k f a m (suc n) h =
    let one_more : suc n + m ≡ suc (n + m) = omega arith in
    let here : a + m * 64 + n * 64 ≡ a + (n + m) * 64 = omega arith in
    let there : a + m * 64 + (n * 64 + 0 * 64) ≡ a + ((n + m) * 64 + 0 * 64) = omega arith in
    rw (one_more, here, there, line_events-line_events k f a m n h) refl
