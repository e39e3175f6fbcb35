-- ===== src/Memaccess/FenceSteps.antt =====
-- The straight-line pieces of cachefence of microbenchmarks/memaccess.cc, and what they do.
use database_benchmarking_op.Prelude.{
  ℕ, zero, suc, ◌+◌, ◌*◌, ◌%◌, List, [], ◌∷◌, ◌++◌, map, none, ◌≡◌, refl, ap, arith,
}
use database_benchmarking_op.Machine.{
  r9, r10, r11, rdx, rcx, reg, imm, indexed, at, add, lea, xor_, flush, clwb, Instr, Cpu, write,
  Event, flushed, u64, step, exec, Code, run, ◌⨾◌, do_while,
}
use database_benchmarking_op.Exec.Ensures.{Ensures, exec_parts}
use database_benchmarking_op.Exec.Lines.{text, Same}
use database_benchmarking_op.Latency.Spec.{line_events}
use database_benchmarking_op.Memaccess.Blocks.{by_lines, unrolled, exec-unrolled}
use database_benchmarking_op.Memaccess.Pieces.{xor_self}

-- The lines from `a` on written back by clwb, latest first.
abbrev pub write_backs : (a n : ℕ) → List Event → List Event
write_backs a zero h = h
write_backs a (suc n) h = flushed clwb (u64 (a + n * 64)) ∷ write_backs a n h

-- `n` lines from `a` on stored, and then written back.
abbrev pub block_events : (n a : ℕ) → List Event → List Event
block_events n a h = write_backs a n (line_events (by_lines write none) a n h)

-- The registers of the loops, and the history; the counter is as it was.
pub record Fencing (x y z a : ℕ) (h : List Event) (c d : Cpu) : Type 0 where
  pub stored : d.r9 ≡ x
  pub in_block : d.r10 ≡ y
  pub in_section : d.r11 ≡ z
  pub flushing_at : d.rdx ≡ a
  pub clock_kept : d.clock ≡ c.clock
  pub reads_kept : d.reads ≡ c.reads
  pub traced : d.history ≡ h

abbrev pub store_body : ℕ → List Instr
store_body start =
    map (text (imm start) (reg r9)) (unrolled write none 0 1)
    ++ (add (imm 0x40) r9 ∷ add (imm 0x40) r10 ∷ add (imm 0x40) r11 ∷ [])

abbrev pub flush_body : List Instr
flush_body = flush clwb (at 0 (reg rdx)) ∷ add (imm 0x40) rdx ∷ []

pub store_body-Fencing :
    (start : ℕ) (c : Cpu)
    → (start + c.r9) % 64 ≡ 0
    → Ensures
        (Fencing
          (u64 (c.r9 + 64))
          (u64 (c.r10 + 64))
          (u64 (c.r11 + 64))
          c.rdx
          (line_events (by_lines write none) (start + c.r9) 1 c.history)
          c)
        (exec (store_body start) c)
unfolding exec step
store_body-Fencing start c m =
    let h = line_events (by_lines write none) (start + c.r9) 1 c.history in
    exec_parts (Same h c)
      (Fencing (u64 (c.r9 + 64)) (u64 (c.r10 + 64)) (u64 (c.r11 + 64)) c.rdx h c)
      (map (text (imm start) (reg r9)) (unrolled write none 0 1))
      (add (imm 0x40) r9 ∷ add (imm 0x40) r10 ∷ add (imm 0x40) r11 ∷ []) c
      (exec-unrolled write none 1 (imm start) (reg r9) c m)
      λ d s. record {
        stored = ap (λ (t : ℕ). u64 (t + 64)) (s.regs r9);
        in_block = ap (λ (t : ℕ). u64 (t + 64)) (s.regs r10);
        in_section = ap (λ (t : ℕ). u64 (t + 64)) (s.regs r11);
        flushing_at = s.regs rdx;
        clock_kept = s.clock_kept;
        reads_kept = s.reads_kept;
        traced = s.traced;
      }

pub flush_body-Fencing :
    (c : Cpu)
    → Ensures
        (λ d.
          Fencing c.r9 c.r10 c.r11 (u64 (c.rdx + 64)) (flushed clwb (u64 c.rdx) ∷ c.history) c d
          × (d.rcx ≡ c.rcx))
        (exec flush_body c)
unfolding exec step
flush_body-Fencing c =
    let here : c.rdx + 0 ≡ c.rdx = omega arith in
    (
      record {
        stored = refl;
        in_block = refl;
        in_section = refl;
        flushing_at = refl;
        clock_kept = refl;
        reads_kept = refl;
        traced = ap (λ (a : ℕ). flushed clwb (u64 a) ∷ c.history) here;
      },
      refl,
    )

pub begin_block :
    (start : ℕ) (c : Cpu)
    → Ensures
        (Fencing c.r9 0 c.r11 (u64 (start + c.r9)) c.history c)
        (exec (xor_ (reg r10) r10 ∷ lea (indexed 0 (imm start) (reg r9)) rdx ∷ []) c)
unfolding exec step
begin_block start c = record {
  stored = refl;
  in_block = xor_self c.r10;
  in_section = refl;
  flushing_at = omega arith;
  clock_kept = refl;
  reads_kept = refl;
  traced = refl;
}

pub stop_at :
    (start : ℕ) (c : Cpu)
    → Ensures
        (λ d. Fencing c.r9 c.r10 c.r11 c.rdx c.history c d × (d.rcx ≡ u64 (start + c.r9)))
        (exec (lea (indexed 0 (imm start) (reg r9)) rcx ∷ []) c)
unfolding exec step
stop_at start c = (
  record {
    stored = refl;
    in_block = refl;
    in_section = refl;
    flushing_at = refl;
    clock_kept = refl;
    reads_kept = refl;
    traced = refl;
  },
  omega arith,
)

abbrev pub fence_block : (start cache : ℕ) → Code
fence_block start cache =
    run (xor_ (reg r10) r10 ∷ lea (indexed 0 (imm start) (reg r9)) rdx ∷ [])
    ⨾ do_while (run (store_body start)) (imm cache) r10
    ⨾ run (lea (indexed 0 (imm start) (reg r9)) rcx ∷ [])
    ⨾ do_while (run flush_body) (reg rcx) rdx
