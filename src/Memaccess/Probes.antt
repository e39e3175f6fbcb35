-- ===== src/Memaccess/Probes.antt =====
-- What cacheprobe and imcprobe of microbenchmarks/memaccess.cc do.
use database_benchmarking_op.Prelude.{
  ℕ, zero, suc, ◌+◌, ◌-◌, ◌*◌, ◌%◌, ◌^◌, ◌≤◌, ◌<◌, List, [], ◌∷◌, Option, none, some, ◌≡◌, refl, ap,
  ap₂, ◌∙◌, subst, arith,
}
use database_benchmarking_op.Machine.{
  r8, r9, imm, add, mov, clflush, mfence, FlushOp, Cpu, Access, write, nt_write, Event, fenced, u64,
  Code, run, ◌⨾◌, do_while, exec_code,
}
use database_benchmarking_op.Exec.Counting.{counted-Ensures}
use database_benchmarking_op.Exec.Ensures.{Ensures, Ensures-bind, Ensures-weaken}
use database_benchmarking_op.Exec.Lines.{text}
use database_benchmarking_op.Latency.Spec.{line_events}
use database_benchmarking_op.Memaccess.Blocks.{by_lines, line_events-line_events}
use database_benchmarking_op.Memaccess.Probe.{cacheprobe, imcprobe}
use database_benchmarking_op.Memaccess.Strides.{strides}
use database_benchmarking_op.Memaccess.ProbeRounds.{
  Probing, lines_round, lines_rounds-Probing, begin_probe, begin_pass, begin_passes, end_pass,
  end_probe,
}

-- cacheprobe from the start of a line to `end_addr`, which it reaches in one stride more than `p`, with
-- strides of whole lines, addresses below 2 ^ 63 and fuel for the rounds: every stride it stores two lines,
-- each flushed at once by clflush, and in the end there is one mfence. It does not fault, and ends.
pub cacheprobe-strides :
    (start end_addr stride p fuel : ℕ) (c : Cpu)
    → start + p * stride < end_addr
    → end_addr ≤ start + suc p * stride
    → end_addr + stride < 2 ^ 63
    → suc p ≤ fuel
    → start % 64 ≡ 0
    → stride % 64 ≡ 0
    → Ensures
        (λ d.
          d.history
          ≡ fenced mfence
            ∷ strides (by_lines write (some clflush)) start stride 2 (suc p) c.history)
        (exec_code fuel (cacheprobe start end_addr stride) c)
unfolding cacheprobe exec_code text
cacheprobe-strides start end_addr stride p fuel c short long range enough start_at stride_at =
    let h = strides (by_lines write (some clflush)) start stride 2 (suc p) c.history in
    let Goal : Cpu → Type 0 = λ d. d.history ≡ fenced mfence ∷ h in
    Ensures-bind (Probing start c.r9 c.history c) Goal _ _ (begin_probe start c) λ d s.
      Ensures-bind
        (Probing (start + suc p * stride) d.r9
          (strides (by_lines write (some clflush)) start stride 2 (suc p) d.history) d)
        Goal _ _
        (lines_rounds-Probing write (some clflush) 2 stride start end_addr p fuel short long range
          enough start_at stride_at d s.place)
        λ e t.
          Ensures-weaken (λ x. x.history ≡ fenced mfence ∷ e.history) Goal _ (end_probe e)
            λ x u.
              u
              ∙ ap (λ (l : List Event). fenced mfence ∷ l)
                  (t.traced
                    ∙ ap (strides (by_lines write (some clflush)) start stride 2 (suc p)) s.traced)

-- Lines one by one are lines side by side.
strides_lines :
    (k : Access) (f : Option FlushOp) (start n : ℕ) (h : List Event)
    → start + n * 64 ≤ 2 ^ 64
    → strides (by_lines k f) start 64 1 n h ≡ line_events (by_lines k f) start n h
strides_lines k f start zero h fits = refl
strides_lines k f start (suc n) h fits =
    let here : u64 (start + n * 64) ≡ start + n * 64 = omega arith in
    let one_more : 1 + n ≡ suc n = omega arith in
    ap₂ (λ (a : ℕ) (l : List Event). line_events (by_lines k f) a 1 l) here
      (strides_lines k f start n h (omega arith))
    ∙ line_events-line_events k f start n 1 h
    ∙ ap (λ (j : ℕ). line_events (by_lines k f) start j h) one_more

module _ (start end_addr p fuel : ℕ) (short : start + p * 64 < end_addr)
    (long : end_addr ≤ start + suc p * 64) (range : end_addr + 64 < 2 ^ 63) (enough : suc p ≤ fuel)
    (start_at : start % 64 ≡ 0) where
  abbrev pass : Code
  pass =
      run (mov (imm start) r8 ∷ [])
      ⨾ do_while (run (lines_round nt_write none 1 0x40)) (imm end_addr) r8
      ⨾ run (add (imm 1) r9 ∷ [])

  -- One pass over the lines.
  pass-Probing :
      (c : Cpu)
      → c.r9 + 1 < 2 ^ 64
      → Ensures
          (Probing
            (start + suc p * 64)
            (suc c.r9)
            (line_events (by_lines nt_write none) start (suc p) c.history)
            c)
          (exec_code fuel pass c)
  unfolding exec_code
  pass-Probing c below =
      let s = by_lines nt_write none in
      let Goal =
        Probing (start + suc p * 64) (suc c.r9) (line_events s start (suc p) c.history) c in
      Ensures-bind (Probing start c.r9 c.history c) Goal _ _ (begin_pass start c) λ d₁ s₁.
        Ensures-bind
          (Probing (start + suc p * 64) d₁.r9 (strides s start 64 1 (suc p) d₁.history) d₁) Goal _ _
          (lines_rounds-Probing nt_write none 1 64 start end_addr p fuel short long range enough
            start_at refl d₁ s₁.place)
          λ d₂ s₂.
            Ensures-weaken (Probing d₂.r8 (suc d₂.r9) d₂.history d₂) Goal _
              (end_pass d₂ (omega (arith, s₂.passed, s₁.passed)))
              λ e t. record {
                place = t.place ∙ s₂.place;
                passed = t.passed ∙ ap suc (s₂.passed ∙ s₁.passed);
                clock_kept = t.clock_kept ∙ s₂.clock_kept ∙ s₁.clock_kept;
                reads_kept = t.reads_kept ∙ s₂.reads_kept ∙ s₁.reads_kept;
                traced =
                    t.traced
                    ∙ s₂.traced
                    ∙ strides_lines nt_write none start (suc p) d₁.history (omega arith)
                    ∙ ap (line_events s start (suc p)) s₁.traced;
              }

-- imcprobe from the start of a line to `end_addr`, which it reaches in one line more than `p`, with
-- addresses below 2 ^ 63, a number of passes above 0 and below 2 ^ 62, and fuel for the rounds of each loop: it makes
-- a non-temporal store of each line from `start` on, in order, and all over again as many times as asked for. It does not
-- fault, and ends.
pub imcprobe-strides :
    (start end_addr loop p fuel : ℕ) (c : Cpu)
    → start + p * 64 < end_addr
    → end_addr ≤ start + suc p * 64
    → end_addr + 64 < 2 ^ 63
    → 0 < loop
    → loop < 2 ^ 62
    → suc p ≤ fuel
    → loop ≤ fuel
    → start % 64 ≡ 0
    → Ensures
        (λ d. d.history ≡ strides (by_lines nt_write none) start 0 (suc p) loop c.history)
        (exec_code fuel (imcprobe start end_addr loop) c)
unfolding imcprobe exec_code text
imcprobe-strides start end_addr loop p fuel c short long range pos small enough passes start_at =
    let s = by_lines nt_write none in
    let Inv : ℕ → Cpu → Type 0 =
      λ i d. (d.r9 ≡ i) × (d.history ≡ strides s start 0 (suc p) i c.history) in
    let here : u64 start ≡ start = omega arith in
    let each : (i : ℕ) (d : Cpu)
        → i < suc (loop - 1)
        → Inv i d
        → Ensures (Inv (suc i))
            (exec_code fuel (pass start end_addr p fuel short long range enough start_at) d) =
      λ i d lt (at, traced).
        Ensures-weaken
          (Probing (start + suc p * 64) (suc d.r9) (line_events s start (suc p) d.history) d) _ _
          (pass-Probing start end_addr p fuel short long range enough start_at d (omega arith))
          λ e t.
            let place : start ≡ u64 (start + i * 0) = omega arith in
            (
              t.passed ∙ ap suc at,
              t.traced ∙ ap₂ (λ (a : ℕ) (l : List Event). line_events s a (suc p) l) place traced,
            ) in
    let turns : suc (loop - 1) ≡ loop = omega arith in
    let Goal : Cpu → Type 0 = λ d. d.history ≡ strides s start 0 (suc p) loop c.history in
    Ensures-bind (Inv 0) Goal _ _ (begin_passes start c) λ d first.
      Ensures-weaken (Inv (suc (loop - 1))) Goal _
        (counted-Ensures r9 (imm loop) 0 1 (loop - 1) loop fuel Inv
          (exec_code fuel (pass start end_addr p fuel short long range enough start_at))
          (λ i e inv. (omega (arith, inv.0), refl)) each (omega arith) (omega arith) (omega arith)
          (omega arith) d first)
        λ e (at, traced).
          subst (λ n. e.history ≡ strides s start 0 (suc p) n c.history) turns traced
