-- ===== src/Memaccess/Pieces.antt =====
-- The inner loops that the functions of microbenchmarks/memaccess.cc are put together from.
use database_benchmarking_op.Prelude.{
  ℕ, suc, ◌+◌, ◌-◌, ◌*◌, ◌%◌, ◌^◌, ◌≤◌, ◌<◌, bit_xor, List, [], ◌∷◌, Option, ◌≡◌, refl, sym, ap,
  ◌∙◌, arith, ltb, lt→ltb, le→ltb,
}
use native.Mathlib.Decide.{dec_lt}
use native.Mathlib.Nat.{mul-le-mul_right, suc-mul, zero-mul, mul_assoc}
use database_benchmarking_op.Bits.{zero_xor, xor_cancel}
use database_benchmarking_op.Machine.{
  r10, reg, imm, inc, xor_, FlushOp, Cpu, Access, Event, u64, step, exec, run, do_while, exec_code,
  less_signed, jumps_back,
}
use database_benchmarking_op.Exec.Ensures.{Ensures, Ensures-weaken}
use database_benchmarking_op.Exec.Counting.{counted-Ensures}
use database_benchmarking_op.Exec.Loops.{less_signed_small, KeepsOn, rounds-Ensures}
use database_benchmarking_op.Latency.Spec.{line_events}
use database_benchmarking_op.Memaccess.Blocks.{
  by_lines, block, Moved, Moved-trans, exec-block, line_events-line_events,
}

pub xor_self : (a : ℕ) → bit_xor a a ≡ 0
xor_self a = ap (λ (b : ℕ). bit_xor b a) (sym (zero_xor a)) ∙ xor_cancel 0 a

pub Moved-start : (acc : ℕ) (c : Cpu) → c.r10 ≡ acc → Moved acc c.history c c
Moved-start acc c e = record {
  r8_kept = refl;
  r9_kept = refl;
  r11_kept = refl;
  rcx_kept = refl;
  clock_kept = refl;
  reads_kept = refl;
  accessed = e;
  traced = refl;
}

-- xor %%r10, %%r10
pub clear-Moved : (c : Cpu) → Ensures (Moved 0 c.history c) (exec (xor_ (reg r10) r10 ∷ []) c)
unfolding exec step
clear-Moved c = record {
  r8_kept = refl;
  r9_kept = refl;
  r11_kept = refl;
  rcx_kept = refl;
  clock_kept = refl;
  reads_kept = refl;
  accessed = xor_self c.r10;
  traced = refl;
}

-- The test after a round, by what r10 is then.
again_lem :
    (bound acc : ℕ) (h : List Event) (c d : Cpu)
    → acc < 2 ^ 63
    → bound < 2 ^ 63
    → Moved acc h c d
    → jumps_back (imm bound) r10 d ≡ ltb acc bound
again_lem bound acc h c d small small' m =
    ap (λ (t : ℕ). less_signed t bound) m.accessed ∙ less_signed_small acc bound small small'

inc-Moved :
    (c : Cpu) → c.r10 + 1 < 2 ^ 64 → Ensures (Moved (suc c.r10) c.history c) (exec (inc r10 ∷ []) c)
unfolding exec step
inc-Moved c small = record {
  r8_kept = refl;
  r9_kept = refl;
  r11_kept = refl;
  rcx_kept = refl;
  clock_kept = refl;
  reads_kept = refl;
  accessed = omega arith;
  traced = refl;
}

-- The delay loop counts to `delay`, and to 1 at least.
pub delay-Moved :
    (delay fuel : ℕ) (c : Cpu)
    → delay < 2 ^ 63
    → suc (delay - 1) ≤ fuel
    → c.r10 ≡ 0
    → Ensures
        (Moved (suc (delay - 1)) c.history c)
        (exec_code fuel (do_while (run (inc r10 ∷ [])) (imm delay) r10) c)
unfolding exec_code
delay-Moved delay fuel c small enough zeroed =
    let Inv : ℕ → Cpu → Type 0 = λ i d. Moved i c.history c d in
    let n = suc (delay - 1) in
    let keeps : KeepsOn Inv (exec (inc r10 ∷ [])) (jumps_back (imm delay) r10) n = λ i d lt inv.
      Ensures-weaken (Moved (suc d.r10) d.history d) _ (exec (inc r10 ∷ []) d)
        (inc-Moved d (omega (arith, inv.accessed)))
        λ e m.
          let next : Moved (suc i) c.history c e =
            rw (inv.accessed, inv.traced) at (Moved-trans inv m) in
          let less : ltb (suc i) delay ≡ ltb (suc i) n = elim (dec_lt (suc i) delay) [
            | yes more ↦ lt→ltb (suc i) delay more ∙ rw (lt→ltb (suc i) n (omega arith)) refl
            | no over ↦
                le→ltb (suc i) delay (omega arith) ∙ rw (le→ltb (suc i) n (omega arith)) refl
          ] in
          (next, again_lem delay (suc i) c.history c e (omega arith) small next ∙ less) in
    rounds-Ensures Inv (exec (inc r10 ∷ [])) (jumps_back (imm delay) r10) n fuel c keeps
      (omega arith) enough (Moved-start 0 c zeroed)

-- The access loop, a block of `n` lines a round, makes the rounds that `size` bytes take: one more than
-- `p`, if `p` blocks are too short and one more is long enough.
pub access-Moved :
    (k : Access) (f : Option FlushOp) (n p size fuel : ℕ) (c : Cpu)
    → p * (n * 64) < size
    → size ≤ suc p * (n * 64)
    → size + n * 64 < 2 ^ 63
    → suc p ≤ fuel
    → c.r9 % 64 ≡ 0
    → c.r10 ≡ 0
    → Ensures
        (Moved (suc p * (n * 64)) (line_events (by_lines k f) c.r9 (suc p * n) c.history) c)
        (exec_code fuel (do_while (run (block k f n)) (imm size) r10) c)
unfolding exec_code
access-Moved k f n p size fuel c short long small enough m zeroed =
    let s = by_lines k f in
    let w = n * 64 in
    let Inv : ℕ → Cpu → Type 0 = λ i d. Moved (i * w) (line_events s c.r9 (i * n) c.history) c d in
    let each : (i : ℕ) (d : Cpu)
        → i < suc p
        → Inv i d
        → Ensures (Inv (suc i)) (exec (block k f n) d) =
      λ i d lt inv.
        let below : i * w ≤ p * w = mul-le-mul_right w (omega arith) in
        let up : suc i * w ≡ i * w + w = suc-mul i w in
        let width : i * n * 64 ≡ i * w = mul_assoc i n 64 in
        Ensures-weaken (Moved (u64 (d.r10 + w)) (line_events s (d.r9 + d.r10) n d.history) d) _
          (exec (block k f n) d) (exec-block k f n d (omega (arith, inv.r9_kept, inv.accessed)))
          λ e made.
            let count : u64 (d.r10 + w) ≡ suc i * w = omega (arith, inv.accessed) in
            let base : d.r9 + d.r10 ≡ c.r9 + i * n * 64 =
              omega (arith, inv.r9_kept, inv.accessed) in
            let joined : line_events s (d.r9 + d.r10) n d.history
                ≡ line_events s c.r9 (suc i * n) c.history =
              rw (base, inv.traced)
                (line_events-line_events k f c.r9 (i * n) n c.history
                  ∙ ap (λ (j : ℕ). line_events s c.r9 j c.history) (omega (arith, suc-mul i n))) in
            rw (count, joined) at (Moved-trans inv made) in
    let start : Inv 0 c = rw (zero-mul w, zero-mul n) (Moved-start 0 c zeroed) in
    counted-Ensures r10 (imm size) 0 w p size fuel Inv (exec (block k f n))
      (λ i d inv. (omega (arith, inv.accessed), refl)) each (omega arith) (omega arith) small enough
      c start
