-- ===== src/Memaccess/FenceBlock.antt =====
-- One block of cachefence of microbenchmarks/memaccess.cc: lines are stored side by side, and then written
-- back.
use database_benchmarking_op.Prelude.{
  ℕ, suc, ◌+◌, ◌*◌, ◌%◌, ◌^◌, ◌≤◌, ◌<◌, List, ◌∷◌, none, ◌≡◌, refl, ap, ap₂, ◌∙◌, arith,
}
use database_benchmarking_op.Machine.{
  r10, rdx, rcx, reg, imm, clwb, Cpu, write, Event, flushed, u64, exec, run, do_while, exec_code,
}
use database_benchmarking_op.Exec.Counting.{counted-Ensures}
use database_benchmarking_op.Exec.Ensures.{Ensures, Ensures-bind, Ensures-weaken}
use database_benchmarking_op.Latency.Spec.{line_events}
use database_benchmarking_op.Memaccess.Blocks.{by_lines, line_events-line_events}
use database_benchmarking_op.Memaccess.FenceSteps.{
  write_backs, block_events, Fencing, store_body, flush_body, store_body-Fencing,
  flush_body-Fencing, begin_block, stop_at, fence_block,
}

module _ (start cache p fuel : ℕ) (short : p * 64 < cache) (long : cache ≤ suc p * 64)
    (small : cache < 2 ^ 62) (enough : suc p ≤ fuel) (start_at : start % 64 ≡ 0) where
  stores-Fencing :
      (c : Cpu)
      → c.r9 % 64 ≡ 0
      → c.r9 < 2 ^ 62
      → c.r11 < 2 ^ 62
      → c.r10 ≡ 0
      → Ensures
          (Fencing
            (c.r9 + suc p * 64)
            (suc p * 64)
            (c.r11 + suc p * 64)
            c.rdx
            (line_events (by_lines write none) (start + c.r9) (suc p) c.history)
            c)
          (exec_code fuel (do_while (run (store_body start)) (imm cache) r10) c)
  unfolding exec_code
  stores-Fencing c on_line near near' zeroed =
      let s = by_lines write none in
      let Inv : ℕ → Cpu → Type 0 = λ i d.
        Fencing (c.r9 + i * 64) (i * 64) (c.r11 + i * 64) c.rdx
          (line_events s (start + c.r9) i c.history) c d in
      let each : (i : ℕ) (d : Cpu)
          → i < suc p
          → Inv i d
          → Ensures (Inv (suc i)) (exec (store_body start) d) =
        λ i d lt inv.
          Ensures-weaken
            (Fencing (u64 (d.r9 + 64)) (u64 (d.r10 + 64)) (u64 (d.r11 + 64)) d.rdx
              (line_events s (start + d.r9) 1 d.history) d)
            _ (exec (store_body start) d) (store_body-Fencing start d (omega (arith, inv.stored)))
            λ e t.
              let here : start + d.r9 ≡ start + c.r9 + i * 64 = omega (arith, inv.stored) in
              let one_more : 1 + i ≡ suc i = omega arith in
              record {
                stored = omega (arith, t.stored, inv.stored);
                in_block = omega (arith, t.in_block, inv.in_block);
                in_section = omega (arith, t.in_section, inv.in_section);
                flushing_at = t.flushing_at ∙ inv.flushing_at;
                clock_kept = t.clock_kept ∙ inv.clock_kept;
                reads_kept = t.reads_kept ∙ inv.reads_kept;
                traced =
                    t.traced
                    ∙ ap₂ (λ (a : ℕ) (l : List Event). line_events s a 1 l) here inv.traced
                    ∙ line_events-line_events write none (start + c.r9) i 1 c.history
                    ∙ ap (λ (j : ℕ). line_events s (start + c.r9) j c.history) one_more;
              } in
      counted-Ensures r10 (imm cache) 0 64 p cache fuel Inv (exec (store_body start))
        (λ i d inv. (omega (arith, inv.in_block), refl)) each (omega arith) (omega arith)
        (omega arith) enough c
        (record {
          stored = omega arith;
          in_block = zeroed;
          in_section = omega arith;
          flushing_at = refl;
          clock_kept = refl;
          reads_kept = refl;
          traced = refl;
        })

  flushes-Fencing :
      (c : Cpu)
      → c.rcx ≡ c.rdx + suc p * 64
      → c.rdx + suc p * 64 < 2 ^ 62
      → Ensures
          (Fencing c.r9 c.r10 c.r11 (c.rdx + suc p * 64) (write_backs c.rdx (suc p) c.history) c)
          (exec_code fuel (do_while (run flush_body) (reg rcx) rdx) c)
  unfolding exec_code
  flushes-Fencing c stop near =
      let Inv : ℕ → Cpu → Type 0 = λ i d.
        Fencing c.r9 c.r10 c.r11 (c.rdx + i * 64) (write_backs c.rdx i c.history) c d
        × (d.rcx ≡ c.rcx) in
      let each : (i : ℕ) (d : Cpu)
          → i < suc p
          → Inv i d
          → Ensures (Inv (suc i)) (exec flush_body d) =
        λ i d lt (inv, kept).
          Ensures-weaken
            (λ e.
              Fencing d.r9 d.r10 d.r11 (u64 (d.rdx + 64)) (flushed clwb (u64 d.rdx) ∷ d.history) d e
              × (e.rcx ≡ d.rcx))
            _ (exec flush_body d) (flush_body-Fencing d)
            λ e (t, kept'). (
              record {
                stored = t.stored ∙ inv.stored;
                in_block = t.in_block ∙ inv.in_block;
                in_section = t.in_section ∙ inv.in_section;
                flushing_at = omega (arith, t.flushing_at, inv.flushing_at);
                clock_kept = t.clock_kept ∙ inv.clock_kept;
                reads_kept = t.reads_kept ∙ inv.reads_kept;
                traced =
                    t.traced
                    ∙ ap₂ (λ (a : ℕ) (l : List Event). flushed clwb (u64 a) ∷ l) inv.flushing_at
                        inv.traced;
              },
              kept' ∙ kept,
            ) in
      let first : Fencing c.r9 c.r10 c.r11 (c.rdx + 0 * 64) c.history c c = record {
        stored = refl;
        in_block = refl;
        in_section = refl;
        flushing_at = omega arith;
        clock_kept = refl;
        reads_kept = refl;
        traced = refl;
      } in
      Ensures-weaken (Inv (suc p)) _ _
        (counted-Ensures rdx (reg rcx) c.rdx 64 p (c.rdx + suc p * 64) fuel Inv (exec flush_body)
          (λ i d inv. (inv.0.flushing_at, inv.1 ∙ stop)) each (omega arith) (omega arith)
          (omega arith) enough c (first, refl))
        λ d inv. inv.0

  -- The whole block.
  pub fence_block-Fencing :
      (c : Cpu)
      → c.r9 % 64 ≡ 0
      → c.r11 < 2 ^ 61
      → start + c.r9 + suc p * 64 < 2 ^ 62
      → Ensures
          (Fencing
            (c.r9 + suc p * 64)
            (suc p * 64)
            (c.r11 + suc p * 64)
            (start + c.r9 + suc p * 64)
            (block_events (suc p) (start + c.r9) c.history)
            c)
          (exec_code fuel (fence_block start cache) c)
  unfolding exec_code
  fence_block-Fencing c on_line near' near =
      let w = suc p * 64 in
      let s = by_lines write none in
      let a = start + c.r9 in
      let Goal = Fencing (c.r9 + w) w (c.r11 + w) (a + w) (block_events (suc p) a c.history) c in
      Ensures-bind (Fencing c.r9 0 c.r11 (u64 (start + c.r9)) c.history c) Goal _ _
        (begin_block start c)
        λ d₁ s₁.
          Ensures-bind
            (Fencing (d₁.r9 + w) w (d₁.r11 + w) d₁.rdx
              (line_events s (start + d₁.r9) (suc p) d₁.history) d₁)
            Goal _ _
            (stores-Fencing d₁ (omega (arith, s₁.stored)) (omega (arith, s₁.stored))
              (omega (arith, s₁.in_section)) s₁.in_block)
            λ d₂ s₂.
              Ensures-bind
                (λ d.
                  Fencing d₂.r9 d₂.r10 d₂.r11 d₂.rdx d₂.history d₂ d
                  × (d.rcx ≡ u64 (start + d₂.r9)))
                Goal _ _ (stop_at start d₂)
                λ d₃ (s₃, stop).
                  let at₃ : d₃.rdx ≡ a =
                    omega (arith, s₃.flushing_at, s₂.flushing_at, s₁.flushing_at) in
                  Ensures-weaken
                    (Fencing d₃.r9 d₃.r10 d₃.r11 (d₃.rdx + w)
                      (write_backs d₃.rdx (suc p) d₃.history) d₃)
                    Goal _
                    (flushes-Fencing d₃ (omega (arith, stop, s₂.stored, s₁.stored, at₃))
                      (omega (arith, at₃)))
                    λ e t. record {
                      stored = t.stored ∙ s₃.stored ∙ s₂.stored ∙ ap (λ (x : ℕ). x + w) s₁.stored;
                      in_block = t.in_block ∙ s₃.in_block ∙ s₂.in_block;
                      in_section =
                          t.in_section
                          ∙ s₃.in_section
                          ∙ s₂.in_section
                          ∙ ap (λ (x : ℕ). x + w) s₁.in_section;
                      flushing_at = t.flushing_at ∙ ap (λ (x : ℕ). x + w) at₃;
                      clock_kept = t.clock_kept ∙ s₃.clock_kept ∙ s₂.clock_kept ∙ s₁.clock_kept;
                      reads_kept = t.reads_kept ∙ s₃.reads_kept ∙ s₂.reads_kept ∙ s₁.reads_kept;
                      traced =
                          t.traced
                          ∙ ap₂ (λ (x : ℕ) (l : List Event). write_backs x (suc p) l) at₃
                              (s₃.traced
                                ∙ s₂.traced
                                ∙ ap₂
                                    (λ (x : ℕ) (l : List Event).
                                      line_events s (start + x) (suc p) l)
                                    s₁.stored s₁.traced);
                    }
