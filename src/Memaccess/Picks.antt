-- ===== src/Memaccess/Picks.antt =====
-- One random access of the sizebw_ functions of microbenchmarks/memaccess.cc: a step of RandLFSR64, and
-- a loop over a block at the offset that it gives.
use database_benchmarking_op.Prelude.{
  ℕ, suc, ◌+◌, ◌*◌, ◌%◌, ◌^◌, ◌≤◌, ◌<◌, bit_and, List, [], ◌∷◌, Option, ◌≡◌, refl, ap, ◌∙◌, arith,
  inl, inr,
}
use native.Mathlib.Nat.{mul_assoc}
use database_benchmarking_op.Machine.{
  r8, r9, r10, reg, imm, indexed, lea, xor_, FlushOp, Cpu, Access, Event, access, load_bytes, u64,
  exec, Code, run, ◌⨾◌, do_while, exec_code,
}
use database_benchmarking_op.Exec.Ensures.{Ensures, Ensures-bind, Ensures-weaken}
use database_benchmarking_op.Exec.Memory.{le64_congr}
use database_benchmarking_op.Exec.Respects.{Ensures-both}
use database_benchmarking_op.Exec.Frame.{Framed, code-Framed}
use database_benchmarking_op.Exec.Bytes.{AllBytes, StayBytes, code-StayBytes}
use database_benchmarking_op.Random.Lfsr.{rand_lfsr64, lfsr, feedback}
use database_benchmarking_op.Random.Lfsr.Laws.{seed_value, Stepped, exec-rand_lfsr64}
use database_benchmarking_op.Latency.Spec.{Style, line_events}
use database_benchmarking_op.Latency.Coverage.{inside, touches, touches-line_events}
use database_benchmarking_op.Memaccess.Blocks.{by_lines, block, Moved, Moved-trans}
use database_benchmarking_op.Memaccess.Pieces.{access-Moved}
use database_benchmarking_op.Memaccess.Strides.{enter-Moved}

-- The seed is as it was if none of its eight bytes has been touched.
seed-Framed :
    (random : ℕ) (c d : Cpu)
    → Framed c d
    → ((i : ℕ) → i < 8 → touches d.history (u64 random + i) ≡ touches c.history (u64 random + i))
    → seed_value random d ≡ seed_value random c
seed-Framed random c d framed quiet =
    le64_congr (load_bytes (u64 random) d.mem) (load_bytes (u64 random) c.mem) λ i lt.
      elim (framed (u64 random + i)) [
        | inl more ↦ absurd (omega (arith, quiet i lt))
        | inr (same, kept) ↦ kept
      ]

-- The events of one random access, latest first: the seed is read and written, then the lines.
abbrev pub pick_events : Style → (random start offset lines : ℕ) → List Event → List Event
pick_events s random start offset lines h =
    line_events s (u64 (start + offset)) lines
      (access Access.write (u64 random) 8 ∷ access Access.read (u64 random) 8 ∷ h)

-- What one random access leaves.
pub record Picked (h : List Event) (random : ℕ) (c d : Cpu) : Type 0 where
  pub r11_kept : d.r11 ≡ c.r11
  pub rcx_kept : d.rcx ≡ c.rcx
  pub clock_kept : d.clock ≡ c.clock
  pub reads_kept : d.reads ≡ c.reads
  pub bytes : AllBytes d
  pub saved : seed_value random d ≡ lfsr (seed_value random c)
  pub traced : d.history ≡ h

module _ (k : Access) (f : Option FlushOp) (n start size random mask : ℕ) where
  -- The loop over one access.
  abbrev pub looped : Code
  looped =
      run (lea (indexed 0 (imm start) (reg r8)) r9 ∷ xor_ (reg r10) r10 ∷ [])
      ⨾ do_while (run (block k f n)) (imm size) r10

  abbrev pub picked_code : Code
  picked_code = run (rand_lfsr64 random mask) ⨾ looped

  -- The offset that the seed gives next.
  abbrev pub offset_of : Cpu → ℕ
  offset_of c = bit_and mask (lfsr (seed_value random c))

  module _ (p fuel : ℕ) (short : p * (n * 64) < size) (long : size ≤ suc p * (n * 64))
      (small : size + n * 64 < 2 ^ 63) (enough : suc p ≤ fuel) where
    looped-Moved :
        (c : Cpu)
        → (start + c.r8) % 64 ≡ 0
        → Ensures
            (Moved
              (suc p * (n * 64))
              (line_events (by_lines k f) (u64 (start + c.r8)) (suc p * n) c.history)
              (record c { r9 = u64 (start + c.r8) }))
            (exec_code fuel looped c)
    unfolding exec_code
    looped-Moved c m =
        let base = u64 (start + c.r8) in
        let from = record c { r9 = base } in
        let s = by_lines k f in
        Ensures-bind (Moved 0 c.history from)
          (Moved (suc p * (n * 64)) (line_events s base (suc p * n) c.history) from) _ _
          (enter-Moved start c)
          λ d₁ s₁.
            Ensures-weaken
              (Moved (suc p * (n * 64)) (line_events s d₁.r9 (suc p * n) d₁.history) d₁) _ _
              (access-Moved k f n p size fuel d₁ short long small enough (omega (arith, s₁.r9_kept))
                s₁.accessed)
              λ d₂ s₂. rw (s₁.r9_kept, s₁.traced) at (Moved-trans s₁ s₂)

    abbrev pub PickedFrom : Cpu → Cpu → Type 0
    PickedFrom c d =
        Picked (pick_events (by_lines k f) random start (offset_of c) (suc p * n) c.history) random
          c d

    looped-all :
        (d : Cpu)
        → (start + d.r8) % 64 ≡ 0
        → Ensures
            (λ e.
              (Moved
                  (suc p * (n * 64))
                  (line_events (by_lines k f) (u64 (start + d.r8)) (suc p * n) d.history)
                  (record d { r9 = u64 (start + d.r8) })
                  e
                × Framed d e)
              × StayBytes d e)
            (exec_code fuel looped d)
    looped-all d m =
        let o = exec_code fuel looped d in
        Ensures-both _ (StayBytes d) o
          (Ensures-both _ (Framed d) o (looped-Moved d m) (code-Framed fuel looped d))
          (code-StayBytes fuel looped d)

    pub pick-Picked :
        (c : Cpu)
        → AllBytes c
        → c.rcx ≡ feedback
        → (start + offset_of c) % 64 ≡ 0
        → start + offset_of c + suc p * n * 64 ≤ 2 ^ 64
        → ((x : ℕ) → x < 8 → inside (start + offset_of c) (suc p * n * 64) (u64 random + x) ≡ 0)
        → Ensures (PickedFrom c) (exec_code fuel picked_code c)
    unfolding exec_code
    pick-Picked c bytes fed on_line fits apart =
        let step_code = run (rand_lfsr64 random mask) in
        Ensures-bind (λ d. Stepped random mask c d × StayBytes c d) (PickedFrom c) _ _
          (Ensures-both (Stepped random mask c) (StayBytes c) (exec (rand_lfsr64 random mask) c)
            (exec-rand_lfsr64 random mask c bytes.0 fed) (code-StayBytes fuel step_code c))
          λ d (s, stay).
            let at = u64 (start + offset_of c) in
            let h =
              access Access.write (u64 random) 8 ∷ access Access.read (u64 random) 8 ∷ c.history in
            let there : at ≡ start + offset_of c =
              omega (arith, mul_assoc (suc p) n 64, short, long, fits) in
            Ensures-weaken _ (PickedFrom c) (exec_code fuel looped d)
              (looped-all d (omega (arith, s.picked)))
              λ e ((m, framed), stay').
                let trace : e.history ≡ line_events (by_lines k f) at (suc p * n) h =
                  m.traced ∙ rw (s.picked, s.traced) refl in
                record {
                  r11_kept = m.r11_kept ∙ s.r11_kept;
                  rcx_kept = m.rcx_kept ∙ s.rcx_kept;
                  clock_kept = m.clock_kept ∙ s.clock_kept;
                  reads_kept = m.reads_kept ∙ s.reads_kept;
                  bytes = stay' (stay bytes);
                  saved =
                      seed-Framed random d e framed (λ i lt.
                        let x = u64 random + i in
                        let earlier : touches d.history x ≡ touches h x =
                          ap (λ (l : List Event). touches l x) s.traced in
                        let far : inside at (suc p * n * 64) x ≡ 0 = rw there (apart i lt) in
                        let lines =
                          touches-line_events (by_lines k f) at (suc p * n) x h refl
                            (omega (arith, there, fits)) in
                        let now = ap (λ (l : List Event). touches l x) trace in
                        omega (arith, now, lines, far, earlier))
                      ∙ s.saved;
                  traced = trace;
                }
