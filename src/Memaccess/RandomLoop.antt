-- ===== src/Memaccess/RandomLoop.antt =====
-- The loop nest of the sizebw_ functions of microbenchmarks/memaccess.cc: four random accesses a round.
use database_benchmarking_op.Prelude.{
  ℕ, zero, suc, ◌+◌, ◌-◌, ◌*◌, ◌/◌, ◌%◌, ◌^◌, ◌≤◌, ◌<◌, bit_and, List, [], ◌∷◌, Option, ◌≡◌, refl,
  sym, ap, ◌∙◌, arith, ltb, lt→ltb, le→ltb,
}
use native.Mathlib.Decide.{dec_lt}
use database_benchmarking_op.Machine.{
  r8, r9, r10, r11, reg, imm, indexed, lea, add, xor_, FlushOp, Cpu, Access, Event, ◌>>=◌, u64,
  step, exec, Code, run, ◌⨾◌, do_while, exec_code, less_signed, jumps_back,
}
use database_benchmarking_op.Exec.Ensures.{
  Ensures, Ensures-bind, Ensures-weaken, bind_assoc, bind_congr,
}
use database_benchmarking_op.Exec.Loops.{less_signed_small, KeepsOn, rounds-Ensures}
use database_benchmarking_op.Exec.Bytes.{AllBytes}
use database_benchmarking_op.Random.Lfsr.{rand_lfsr64, lfsr, feedback}
use database_benchmarking_op.Random.Lfsr.Laws.{seed_value}
use database_benchmarking_op.Latency.Spec.{Style}
use database_benchmarking_op.Latency.Coverage.{inside}
use database_benchmarking_op.Memaccess.Blocks.{by_lines, block}
use database_benchmarking_op.Memaccess.Picks.{pick_events, picked_code, PickedFrom, pick-Picked}

-- The shift register after `i` steps.
abbrev pub state_after : ℕ → ℕ → ℕ
state_after zero s = s
state_after (suc i) s = lfsr (state_after i s)

-- `i` random accesses, latest first, from the seed `s` on.
abbrev pub picks : Style → (random start mask lines s i : ℕ) → List Event → List Event
picks st random start mask lines s zero h = h
picks st random start mask lines s (suc i) h =
    pick_events st random start (bit_and mask (state_after (suc i) s)) lines
      (picks st random start mask lines s i h)

-- The rounds of four that `count` accesses take, one at least.
abbrev pub quarters : ℕ → ℕ
quarters count = suc ((count - 1) / 4)

counts_fours :
    (count i : ℕ)
    → i < quarters count
    → count < 2 ^ 62
    → less_signed (suc i * 4) count ≡ ltb (suc i) (quarters count)
counts_fours count i lt small =
    less_signed_small (suc i * 4) count (omega arith) (omega arith)
    ∙ elim (dec_lt (suc i * 4) count) [
      | yes more ↦
          lt→ltb (suc i * 4) count more ∙ rw (lt→ltb (suc i) (quarters count) (omega arith)) refl
      | no over ↦
          le→ltb (suc i * 4) count (omega arith)
          ∙ rw (le→ltb (suc i) (quarters count) (omega arith)) refl
    ]

-- After `i` accesses from `c`, with `r` in r11.
pub record Chosen (st : Style) (random start mask lines i r : ℕ) (c d : Cpu) : Type 0 where
  pub counter : d.r11 ≡ r
  pub fed : d.rcx ≡ feedback
  pub clock_kept : d.clock ≡ c.clock
  pub reads_kept : d.reads ≡ c.reads
  pub bytes : AllBytes d
  pub seed : seed_value random d ≡ state_after i (seed_value random c)
  pub traced : d.history ≡ picks st random start mask lines (seed_value random c) i c.history

module _ (k : Access) (f : Option FlushOp) (n start size random mask : ℕ) where
  abbrev lea_code : Code
  lea_code = run (lea (indexed 0 (imm start) (reg r8)) r9 ∷ xor_ (reg r10) r10 ∷ [])

  abbrev loop_code : Code
  loop_code = do_while (run (block k f n)) (imm size) r10

  -- A round: four accesses, and four more in r11.
  abbrev pub four : Code
  four =
      run (rand_lfsr64 random mask)
      ⨾ lea_code
      ⨾ loop_code
      ⨾ run (rand_lfsr64 random mask)
      ⨾ lea_code
      ⨾ loop_code
      ⨾ run (rand_lfsr64 random mask)
      ⨾ lea_code
      ⨾ loop_code
      ⨾ run (rand_lfsr64 random mask)
      ⨾ lea_code
      ⨾ loop_code
      ⨾ run (add (imm 4) r11 ∷ [])

  module _ (p fuel : ℕ) (short : p * (n * 64) < size) (long : size ≤ suc p * (n * 64))
      (small : size + n * 64 < 2 ^ 63) (enough : suc p ≤ fuel)
      (on_line : (v : ℕ) → (start + bit_and mask v) % 64 ≡ 0)
      (fits : (v : ℕ) → start + bit_and mask v + suc p * n * 64 ≤ 2 ^ 64)
      (apart : (v x : ℕ)
        → x < 8
        → inside (start + bit_and mask v) (suc p * n * 64) (u64 random + x) ≡ 0) where
    abbrev At : ℕ → ℕ → Cpu → Cpu → Type 0
    At = Chosen (by_lines k f) random start mask (suc p * n)

    pick-Chosen :
        (i r : ℕ) (c d : Cpu)
        → At i r c d
        → Ensures (At (suc i) r c) (exec_code fuel (picked_code k f n start size random mask) d)
    pick-Chosen i r c d s =
        let o = bit_and mask (lfsr (seed_value random d)) in
        Ensures-weaken (PickedFrom k f n start size random mask p fuel short long small enough d)
          (At (suc i) r c) _
          (pick-Picked k f n start size random mask p fuel short long small enough d s.bytes s.fed
            (on_line (lfsr (seed_value random d))) (fits (lfsr (seed_value random d)))
            (apart (lfsr (seed_value random d))))
          λ e t. record {
            counter = t.r11_kept ∙ s.counter;
            fed = t.rcx_kept ∙ s.fed;
            clock_kept = t.clock_kept ∙ s.clock_kept;
            reads_kept = t.reads_kept ∙ s.reads_kept;
            bytes = t.bytes;
            seed = t.saved ∙ ap lfsr s.seed;
            traced = t.traced ∙ rw (s.seed, s.traced) refl;
          }

    -- One access, and what follows it.
    pick_then :
        (Q : Cpu → Type 0) (i r : ℕ) (rest : Code) (c d : Cpu)
        → At i r c d
        → ((e : Cpu) → At (suc i) r c e → Ensures Q (exec_code fuel rest e))
        → Ensures Q (exec_code fuel (run (rand_lfsr64 random mask) ⨾ lea_code ⨾ loop_code ⨾ rest) d)
    unfolding exec_code
    pick_then Q i r rest c d s next =
        let three : exec_code fuel (run (rand_lfsr64 random mask) ⨾ lea_code ⨾ loop_code ⨾ rest) d
            ≡ (exec_code fuel (picked_code k f n start size random mask) d
                >>= exec_code fuel rest) =
          bind_congr (exec (rand_lfsr64 random mask) d) (λ e. sym (
            bind_assoc (exec_code fuel lea_code e) (exec_code fuel loop_code)
              (exec_code fuel rest)))
          ∙ sym (
              bind_assoc (exec (rand_lfsr64 random mask) d) (exec_code fuel (lea_code ⨾ loop_code))
                (exec_code fuel rest)) in
        rw three
          (Ensures-bind (At (suc i) r c) Q _ (exec_code fuel rest) (pick-Chosen i r c d s) next)

    add_four :
        (i r : ℕ) (c d : Cpu)
        → At i r c d
        → r + 4 < 2 ^ 64
        → Ensures (At i (r + 4) c) (exec_code fuel (run (add (imm 4) r11 ∷ [])) d)
    unfolding exec_code exec step
    add_four i r c d s below = record {
      counter = omega (arith, s.counter);
      fed = s.fed;
      clock_kept = s.clock_kept;
      reads_kept = s.reads_kept;
      bytes = s.bytes;
      seed = s.seed;
      traced = s.traced;
    }

    four-Chosen :
        (i : ℕ) (c d : Cpu)
        → At (i * 4) (i * 4) c d
        → i < 2 ^ 60
        → Ensures (At (suc i * 4) (suc i * 4) c) (exec_code fuel four d)
    four-Chosen i c d s below =
        let j = i * 4 in
        let Q = At (suc i * 4) (suc i * 4) c in
        let up : suc i * 4 ≡ suc (suc (suc (suc j))) = omega arith in
        let plus : suc i * 4 ≡ j + 4 = omega arith in
        pick_then Q j j _ c d s λ d₁ s₁. pick_then Q (suc j) j _ c d₁ s₁ λ d₂ s₂.
          pick_then Q (suc (suc j)) j _ c d₂ s₂ λ d₃ s₃.
            pick_then Q (suc (suc (suc j))) j _ c d₃ s₃ λ d₄ s₄.
              Ensures-weaken (At (suc (suc (suc (suc j)))) (j + 4) c) Q _
                (add_four (suc (suc (suc (suc j)))) j c d₄ s₄ (omega arith))
                λ e t. record {
                  counter = t.counter ∙ sym plus;
                  fed = t.fed;
                  clock_kept = t.clock_kept;
                  reads_kept = t.reads_kept;
                  bytes = t.bytes;
                  seed = t.seed ∙ ap (λ (m : ℕ). state_after m (seed_value random c)) (sym up);
                  traced =
                      t.traced
                      ∙ ap
                          (λ (m : ℕ).
                            picks (by_lines k f) random start mask (suc p * n) (seed_value random c)
                              m c.history)
                          (sym up);
                }

    -- The whole loop nest, after its prologue.
    pub random_loop-Chosen :
        (count : ℕ) (c d : Cpu)
        → count < 2 ^ 62
        → quarters count ≤ fuel
        → At 0 0 c d
        → Ensures
            (At (quarters count * 4) (quarters count * 4) c)
            (exec_code fuel (do_while four (imm count) r11) d)
    unfolding exec_code
    random_loop-Chosen count c d small_count enough_count s =
        let Inv : ℕ → Cpu → Type 0 = λ i. At (i * 4) (i * 4) c in
        let keeps : KeepsOn Inv (exec_code fuel four) (jumps_back (imm count) r11)
            (quarters count) =
          λ i e lt inv.
            Ensures-weaken (Inv (suc i)) _ (exec_code fuel four e)
              (four-Chosen i c e inv (omega arith))
              λ e' t. (
                t,
                ap (λ (a : ℕ). less_signed a count) t.counter ∙ counts_fours count i lt small_count,
              ) in
        rounds-Ensures Inv (exec_code fuel four) (jumps_back (imm count) r11) (quarters count) fuel
          d keeps (omega arith) enough_count s
