-- ===== src/Memaccess/ChaseStoreLine.antt =====
-- One line of chasing_storeclwb of microbenchmarks/memaccess.cc.
use database_benchmarking_op.Prelude.{
  ℕ, suc, ◌+◌, ◌*◌, ◌%◌, ◌^◌, ◌≤◌, ◌<◌, List, [], ◌∷◌, ◌≡◌, refl, ◌∙◌, arith, lt→ltb, eq→==,
}
use database_benchmarking_op.Machine.{
  r8, r9, r10, r11, r12, reg, imm, indexed, add, xor_, inc, shl, flush, clwb, movq_load_xmm,
  movq_from_xmm, vmovdqa_store, Instr, Cpu, read, write, Event, access, flushed, le64, xmm_bytes,
  load_bytes, u64, step, exec,
}
use database_benchmarking_op.Exec.Ensures.{Ensures}
use database_benchmarking_op.Exec.Memory.{le64_congr}
use database_benchmarking_op.Chasing.Cycle.{walk}
use database_benchmarking_op.Memaccess.Chase.{Chasing}
use database_benchmarking_op.Memaccess.Linking.{Indexed, Written, store-Written}
use database_benchmarking_op.Memaccess.Strides.{Strode}

-- Line `l` of those from `a` on: its entry of the index is read, it is written, and written back.
abbrev pub store_line : (cindex : ℕ) → ℕ → ℕ → List Event → List Event
store_line cindex a l h =
    flushed clwb (u64 (a + l * 64))
    ∷ access write (u64 (a + l * 64)) 64
    ∷ access read (u64 (cindex + l * 8)) 8
    ∷ h

abbrev pub body : ℕ → List Instr
body cindex =
    movq_load_xmm (record { base = imm cindex; index = reg r12; scale = 8; disp = 0 }) 0
    ∷ shl 6 r12
    ∷ vmovdqa_store 64 0 (indexed 0x0 (reg r9) (reg r12))
    ∷ flush clwb (indexed 0x0 (reg r9) (reg r12))
    ∷ add (imm 0x40) r10
    ∷ movq_from_xmm 0 r12
    ∷ []

abbrev pub post : ℕ → List Instr
post skip = xor_ (reg r10) r10 ∷ add (imm skip) r8 ∷ inc r11 ∷ []

pub body-Chasing :
    (g : ℕ → ℕ) (n cindex base i : ℕ) (m : ℕ → ℕ) (c : Cpu)
    → base % 64 ≡ 0
    → base + n * 64 ≤ 2 ^ 64
    → walk g i < n
    → Indexed g n cindex c.mem
    → c.r9 ≡ base
    → c.r12 ≡ walk g i
    → Written g n base m i c.mem
    → Ensures
        (λ d.
          Chasing
            (u64 (c.r10 + 64))
            (walk g (suc i))
            (store_line cindex base (walk g i) c.history)
            c
            d
          × Written g n base m (suc i) d.mem)
        (exec (body cindex) c)
unfolding exec step
body-Chasing g n cindex base i m c on_line fits lt index at here w =
    let x = walk g i in
    let p = u64 (cindex + x * 8) in
    let a = base + x * 64 in
    let whole : u64 a ≡ a = omega arith in
    let entry : u64 (cindex + (0 + c.r12 * 8)) ≡ p = omega arith in
    let place : u64 (c.r9 + (0 + u64 (c.r12 * 2 ^ 6) * 1)) ≡ a = omega arith in
    let good = eq→== (a % 64) 0 (omega arith) in
    let value : le64 (xmm_bytes (load_bytes p c.mem) (c.vec 0)) ≡ g x =
      le64_congr (xmm_bytes (load_bytes p c.mem) (c.vec 0)) (load_bytes p c.mem)
        (λ j low. rw (lt→ltb j 8 low) refl)
      ∙ index x lt in
    rw (entry, place, good)
      (
        record {
          r8_kept = refl;
          r9_kept = refl;
          r11_kept = refl;
          clock_kept = refl;
          reads_kept = refl;
          accessed = refl;
          next = value;
          traced = rw (whole, place) refl;
        },
        store-Written g n base i m c.mem (xmm_bytes (load_bytes p c.mem) (c.vec 0)) lt value w,
      )

pub leave-Strode :
    (skip : ℕ) (c : Cpu)
    → c.r11 + 1 < 2 ^ 64
    → Ensures
        (λ d. Strode (u64 (c.r8 + skip)) (suc c.r11) c.history c d × (d.mem ≡ c.mem))
        (exec (post skip) c)
unfolding exec step
leave-Strode skip c below = (
  record {
    offset = refl;
    counter = omega arith;
    clock_kept = refl;
    reads_kept = refl;
    traced = refl;
  },
  refl,
)
