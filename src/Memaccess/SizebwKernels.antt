-- ===== src/Memaccess/SizebwKernels.antt =====
-- The sizebw_ functions of microbenchmarks/memaccess.cc, each with its macro, called with the mask of
-- size_bwjob.
use database_benchmarking_op.Prelude.{
  ℕ, suc, ◌+◌, ◌*◌, ◌%◌, ◌^◌, ◌≤◌, ◌<◌, bit_and, [], ◌∷◌, ◌≡◌, refl, arith, ◌⊎◌, inl, inr,
}
use native.Mathlib.Nat.{mul_assoc}
use database_benchmarking_op.Machine.{
  r8, r11, rcx, reg, imm, mov, xor_, movq_to_xmm, Cpu, u64, step, exec, Code, run, ◌⨾◌, do_while,
  exec_code,
}
use database_benchmarking_op.Exec.Ensures.{Ensures, Ensures-bind}
use database_benchmarking_op.Exec.Bytes.{AllBytes, code-StayBytes}
use database_benchmarking_op.Random.Lfsr.{feedback, bitmask}
use database_benchmarking_op.Random.Lfsr.Laws.{offset_bounds}
use database_benchmarking_op.Latency.Coverage.{inside}
use database_benchmarking_op.Driver.Config.{perthread_workset}
use database_benchmarking_op.Memaccess.Blocks.{by_lines}
use database_benchmarking_op.Memaccess.Pieces.{xor_self}
use database_benchmarking_op.Latency.Spec.{Style}
use database_benchmarking_op.Memaccess.Regular.{
  loading, nt_storing, storing, flushing, Transfer, access_by, flush_by, bytes512, macro-block,
}
use database_benchmarking_op.Memaccess.RandomLoop.{Chosen, quarters, random_loop-Chosen, four}
use database_benchmarking_op.Memaccess.Sizebw.{
  sizebw_load, sizebw_nt, sizebw_store, sizebw_storeclwb,
}

-- The function for each kind of transfer.
abbrev pub sizebw_of : Transfer → ℕ → ℕ → ℕ → ℕ → ℕ → Code
sizebw_of loading = sizebw_load
sizebw_of nt_storing = sizebw_nt
sizebw_of storing = sizebw_store
sizebw_of flushing = sizebw_storeclwb

abbrev load_prologue : Code
load_prologue = run (mov (imm feedback) rcx ∷ xor_ (reg r8) r8 ∷ xor_ (reg r11) r11 ∷ [])

abbrev store_prologue : ℕ → Code
store_prologue start =
    run (mov (imm feedback) rcx ∷ xor_ (reg r11) r11 ∷ movq_to_xmm (imm start) 0 ∷ [])

load_starts :
    (st : Style) (random start lines fuel : ℕ) (c : Cpu)
    → AllBytes c
    → Ensures (Chosen st random start bitmask lines 0 0 c) (exec_code fuel load_prologue c)
unfolding exec_code exec step
load_starts st random start lines fuel c bytes = record {
  counter = xor_self c.r11;
  fed = refl;
  clock_kept = refl;
  reads_kept = refl;
  bytes = bytes;
  seed = refl;
  traced = refl;
}

store_starts :
    (st : Style) (random start lines fuel : ℕ) (c : Cpu)
    → AllBytes c
    → Ensures (Chosen st random start bitmask lines 0 0 c) (exec_code fuel (store_prologue start) c)
unfolding exec_code exec step
store_starts st random start lines fuel c bytes = record {
  counter = xor_self c.r11;
  fed = refl;
  clock_kept = refl;
  reads_kept = refl;
  bytes = code-StayBytes fuel (store_prologue start) c bytes;
  seed = refl;
  traced = refl;
}

-- A seed before or after a range is not in it.
apart_inside : (a w b x : ℕ) → (b + 8 ≤ a) ⊎ (a + w ≤ b) → x < 8 → inside a w (b + x) ≡ 0
apart_inside a w b x (inl before) lt = ground arith
apart_inside a w b x (inr after) lt = ground arith

module _ (start size count random p fuel : ℕ) (on_line : start % 64 ≡ 0) (short : p * 512 < size)
    (long : size ≤ suc p * 512) (small : size < 2 ^ 62) (enough : suc p ≤ fuel)
    (small_count : count < 2 ^ 62) (enough_count : quarters count ≤ fuel)
    (fits : start + perthread_workset + suc p * 512 ≤ 2 ^ 64)
    (apart : (u64 random + 8 ≤ start)
      ⊎ (start + perthread_workset + suc p * 512 ≤ u64 random)) where
  wide : suc p * 8 * 64 ≡ suc p * 512
  wide = mul_assoc (suc p) 8 64

  on_lines : (v : ℕ) → (start + bit_and bitmask v) % 64 ≡ 0
  on_lines v = omega (arith, on_line, (offset_bounds v).0)

  all_fit : (v : ℕ) → start + bit_and bitmask v + suc p * 8 * 64 ≤ 2 ^ 64
  all_fit v = omega (arith, wide, fits, (offset_bounds v).1)

  all_apart :
      (v x : ℕ) → x < 8 → inside (start + bit_and bitmask v) (suc p * 8 * 64) (u64 random + x) ≡ 0
  all_apart v x lt =
      apart_inside (start + bit_and bitmask v) (suc p * 8 * 64) (u64 random) x
        (elim apart [
          | inl before ↦ inl (omega arith)
          | inr after ↦ inr (omega (arith, wide, (offset_bounds v).1))
        ])
        lt

  -- The loop nest of one of the four functions, from after its prologue.
  nest-Chosen :
      (t : Transfer) (c d : Cpu)
      → Chosen (by_lines (access_by t) (flush_by t)) random start bitmask (suc p * 8) 0 0 c d
      → Ensures
          (Chosen
            (by_lines (access_by t) (flush_by t))
            random
            start
            bitmask
            (suc p * 8)
            (quarters count * 4)
            (quarters count * 4)
            c)
          (exec_code fuel
            (do_while (four (access_by t) (flush_by t) 8 start size random bitmask) (imm count) r11)
            d)
  nest-Chosen t c d s =
      random_loop-Chosen (access_by t) (flush_by t) 8 start size random bitmask p fuel short long
        (omega arith) enough on_lines all_fit all_apart count c d small_count enough_count s

  prologue_then :
      (t : Transfer) (pre : Code) (c : Cpu)
      → Ensures
          (Chosen (by_lines (access_by t) (flush_by t)) random start bitmask (suc p * 8) 0 0 c)
          (exec_code fuel pre c)
      → Ensures
          (Chosen
            (by_lines (access_by t) (flush_by t))
            random
            start
            bitmask
            (suc p * 8)
            (quarters count * 4)
            (quarters count * 4)
            c)
          (exec_code fuel
            (pre
              ⨾ do_while
                  (four (access_by t) (flush_by t) 8 start size random bitmask)
                  (imm count)
                  r11)
            c)
  unfolding exec_code
  prologue_then t pre c starts = Ensures-bind _ _ (exec_code fuel pre c) _ starts (nest-Chosen t c)

  -- Each of the four functions, with the mask of size_bwjob, on a processor of bytes, from the start of
  -- a line on, with memory for 2 GiB and one access, the seed's eight bytes outside of it, a size and
  -- a count below 2 ^ 62, and fuel for the rounds of each of its loops: it makes `count` random accesses, rounded
  -- up to a multiple of four, and four at least. Each reads the seed, takes it one step of the shift
  -- register on and writes it back, then accesses in order the lines of the blocks of 512 bytes that
  -- `size` takes, from the offset on that the mask leaves of the seed; the store-flush writes each line
  -- back. The functions do not fault, and end with the seed that so many steps make.
  pub sizebw_of-Chosen :
      (t : Transfer) (c : Cpu)
      → AllBytes c
      → Ensures
          (Chosen
            (by_lines (access_by t) (flush_by t))
            random
            start
            bitmask
            (suc p * 8)
            (quarters count * 4)
            (quarters count * 4)
            c)
          (exec_code fuel (sizebw_of t start size count random bitmask) c)
  unfolding sizebw_load sizebw_nt sizebw_store sizebw_storeclwb
  sizebw_of-Chosen loading c bytes = rw (macro-block loading bytes512) (
      prologue_then loading load_prologue c (
        load_starts (by_lines (access_by loading) (flush_by loading)) random start (suc p * 8) fuel
          c bytes))
  sizebw_of-Chosen nt_storing c bytes = rw (macro-block nt_storing bytes512) (
      prologue_then nt_storing (store_prologue start) c (
        store_starts (by_lines (access_by nt_storing) (flush_by nt_storing)) random start
          (suc p * 8) fuel c bytes))
  sizebw_of-Chosen storing c bytes = rw (macro-block storing bytes512) (
      prologue_then storing (store_prologue start) c (
        store_starts (by_lines (access_by storing) (flush_by storing)) random start (suc p * 8) fuel
          c bytes))
  sizebw_of-Chosen flushing c bytes = rw (macro-block flushing bytes512) (
      prologue_then flushing (store_prologue start) c (
        store_starts (by_lines (access_by flushing) (flush_by flushing)) random start (suc p * 8)
          fuel c bytes))
