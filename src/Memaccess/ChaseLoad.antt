-- ===== src/Memaccess/ChaseLoad.antt =====
-- chasing_loadnt of microbenchmarks/memaccess.cc, over lines that each hold the number of the next.
use database_benchmarking_op.Prelude.{
  ℕ, suc, ◌+◌, ◌*◌, ◌%◌, ◌^◌, ◌≤◌, ◌<◌, List, [], ◌∷◌, ◌≡◌, refl, ◌∙◌, arith, lt→ltb, eq→==,
}
use database_benchmarking_op.Machine.{
  r8, r9, r10, r11, r12, reg, imm, indexed, add, xor_, inc, shl, movq_from_xmm, vmovntdqa, Instr,
  Cpu, nt_read, Event, access, le64, low_bytes, load_bytes, u64, step, exec, run, exec_code,
}
use database_benchmarking_op.Exec.Ensures.{Ensures}
use database_benchmarking_op.Exec.Memory.{le64_congr}
use database_benchmarking_op.Chasing.Cycle.{walk}
use database_benchmarking_op.Memaccess.Chase.{
  chain, Linked, walk-lt, Chasing, chase_round, chase_round-Strode, starts_chase,
}
use database_benchmarking_op.Memaccess.ChasingLoops.{chasing_loadnt}
use database_benchmarking_op.Memaccess.Strides.{repeated, Strode, times_for}
use database_benchmarking_op.Memaccess.StrideLoop.{kept_rounds_from, mul-mod_64}

-- The load of line `l` of those from `a` on.
abbrev pub load_line : ℕ → ℕ → List Event → List Event
load_line a l h = access nt_read (u64 (a + l * 64)) 64 ∷ h

abbrev body : List Instr
body =
    shl 6 r12
    ∷ vmovntdqa 64 (indexed 0x0 (reg r9) (reg r12)) 0
    ∷ movq_from_xmm 0 r12
    ∷ add (imm 0x40) r10
    ∷ []

abbrev post : ℕ → List Instr
post skip = add (imm skip) r8 ∷ inc r11 ∷ []

body-Chasing :
    (g : ℕ → ℕ) (n base x : ℕ) (m : ℕ → ℕ) (c : Cpu)
    → base % 64 ≡ 0
    → x < n
    → n < 2 ^ 57
    → Linked g n base m
    → c.r9 ≡ base
    → c.r12 ≡ x
    → c.mem ≡ m
    → Ensures
        (λ d. Chasing (u64 (c.r10 + 64)) (g x) (load_line base x c.history) c d × (d.mem ≡ m))
        (exec body c)
unfolding exec step
body-Chasing g n base x m c on_line lt few linked at here same =
    let a = u64 (base + x * 64) in
    let place : u64 (c.r9 + (0 + u64 (c.r12 * 2 ^ 6) * 1)) ≡ a = omega arith in
    let good = eq→== (a % 64) 0 (omega arith) in
    let further : le64 (low_bytes 64 (load_bytes a c.mem)) ≡ g x =
      le64_congr (low_bytes 64 (load_bytes a c.mem)) (load_bytes a c.mem)
        (λ i low. rw (lt→ltb i 64 (omega arith)) refl)
      ∙ rw same (linked x lt) in
    rw (place, good)
      (
        record {
          r8_kept = refl;
          r9_kept = refl;
          r11_kept = refl;
          clock_kept = refl;
          reads_kept = refl;
          accessed = refl;
          next = further;
          traced = refl;
        },
        same,
      )

leave-Strode :
    (skip : ℕ) (c : Cpu)
    → c.r11 + 1 < 2 ^ 64
    → Ensures
        (λ d. Strode (u64 (c.r8 + skip)) (suc c.r11) c.history c d × (d.mem ≡ c.mem))
        (exec (post skip) c)
unfolding exec step
leave-Strode skip c below = (
  record {
    offset = refl;
    counter = omega arith;
    clock_kept = refl;
    reads_kept = refl;
    traced = refl;
  },
  refl,
)

-- chasing_loadnt over `count` strides, one at least, each of them a region of lines that hold the
-- number of the next one by `g`, which stays below `n` (from 1 to 2 ^ 57), from the start of a line on
-- and with a skip of whole lines, a size below 2 ^ 62, a count below 2 ^ 63, and fuel for the rounds of
-- each loop: in each stride it loads, from line 0 on, one
-- line after the other in the order of the chain, as many as `size` bytes have. It changes no memory,
-- does not fault, and ends.
pub chasing_loadnt-Strode :
    (g : ℕ → ℕ) (n p start size skip count cindex fuel : ℕ) (c : Cpu)
    → 0 < n
    → n < 2 ^ 57
    → ((x : ℕ) → x < n → g x < n)
    → ((i : ℕ) → i < times_for count → Linked g n (u64 (start + i * skip)) c.mem)
    → p * 64 < size
    → size ≤ suc p * 64
    → size < 2 ^ 62
    → suc p ≤ fuel
    → count < 2 ^ 63
    → times_for count ≤ fuel
    → start % 64 ≡ 0
    → skip % 64 ≡ 0
    → Ensures
        (λ d.
          Strode
            (u64 (times_for count * skip))
            (times_for count)
            (repeated (chain load_line g (suc p)) start skip (times_for count) c.history)
            c
            d
          × (d.mem ≡ c.mem))
        (exec_code fuel (chasing_loadnt start size skip count cindex) c)
unfolding chasing_loadnt
chasing_loadnt-Strode g n p start size skip count cindex fuel c pos few closed linked short long
      small enough small_count enough_count start_at skip_at =
    kept_rounds_from (chase_round body (post skip) start size) (chain load_line g (suc p))
      (λ i d. d.mem ≡ c.mem) start skip count fuel small_count enough_count
      (λ i d lt kept at_i below.
        let base = u64 (start + d.r8) in
        let here : base ≡ u64 (start + i * skip) = omega (arith, at_i) in
        chase_round-Strode g load_line body base p size fuel (λ j m. m ≡ c.mem)
          (λ j e early at now same.
            body-Chasing g n base (walk g j) c.mem e
              (omega (arith, at_i, start_at, mul-mod_64 i skip skip_at)) (walk-lt g n j pos closed)
              few (rw here (linked i lt)) at now same)
          short long small enough (post skip) skip (leave-Strode skip) start d refl below kept)
      (run (xor_ (reg r8) r8 ∷ xor_ (reg r11) r11 ∷ [])) c (starts_chase fuel c)
