-- ===== src/Memaccess/FenceLoop.antt =====
-- The loops of cachefence of microbenchmarks/memaccess.cc.
use database_benchmarking_op.Prelude.{
  ℕ, suc, ◌+◌, ◌*◌, ◌%◌, ◌^◌, ◌≤◌, ◌<◌, List, [], ◌∷◌, ◌≡◌, refl, ap, ap₂, ◌∙◌, arith,
}
use native.Mathlib.Nat.{suc-mul, zero-mul, mul-le-mul_right}
use database_benchmarking_op.Machine.{
  r9, r11, reg, imm, xor_, fence, sfence, movq_to_xmm, Cpu, Event, fenced, u64, step, exec, Code,
  run, ◌⨾◌, do_while, exec_code,
}
use database_benchmarking_op.Exec.Counting.{counted-Ensures}
use database_benchmarking_op.Exec.Ensures.{Ensures, Ensures-bind, Ensures-weaken}
use database_benchmarking_op.Memaccess.FenceBlock.{fence_block-Fencing}
use database_benchmarking_op.Memaccess.FenceSteps.{block_events, Fencing, fence_block}
use database_benchmarking_op.Memaccess.FenceSections.{section_events}
use database_benchmarking_op.Memaccess.Pieces.{xor_self}
use database_benchmarking_op.Memaccess.StrideLoop.{mul-mod_64}
use database_benchmarking_op.Memaccess.Strides.{repeated}

-- r9, r11 and the history; the counter is as it was.
pub record Sectioned (x z : ℕ) (h : List Event) (c d : Cpu) : Type 0 where
  pub stored : d.r9 ≡ x
  pub in_section : d.r11 ≡ z
  pub clock_kept : d.clock ≡ c.clock
  pub reads_kept : d.reads ≡ c.reads
  pub traced : d.history ≡ h

begin_section :
    (c : Cpu) → Ensures (Sectioned c.r9 0 c.history c) (exec (xor_ (reg r11) r11 ∷ []) c)
unfolding exec step
begin_section c = record {
  stored = refl;
  in_section = xor_self c.r11;
  clock_kept = refl;
  reads_kept = refl;
  traced = refl;
}

end_section :
    (c : Cpu)
    → Ensures (Sectioned c.r9 c.r11 (fenced sfence ∷ c.history) c) (exec (fence sfence ∷ []) c)
unfolding exec step
end_section c = record {
  stored = refl;
  in_section = refl;
  clock_kept = refl;
  reads_kept = refl;
  traced = refl;
}

pub begin_all :
    (start : ℕ) (c : Cpu)
    → Ensures
        (Sectioned 0 c.r11 c.history c)
        (exec (movq_to_xmm (imm start) 0 ∷ xor_ (reg r9) r9 ∷ []) c)
unfolding exec step
begin_all start c = record {
  stored = xor_self c.r9;
  in_section = refl;
  clock_kept = refl;
  reads_kept = refl;
  traced = refl;
}

-- `p`, `q` and `s` are one less than the lines of a block, the blocks of a section, and the sections.
module _ (start size cache fence_size p q s fuel : ℕ) (short : p * 64 < cache)
    (long : cache ≤ suc p * 64) (short' : q * (suc p * 64) < fence_size)
    (long' : fence_size ≤ suc q * (suc p * 64)) (short'' : s * (suc q * (suc p * 64)) < size)
    (long'' : size ≤ suc s * (suc q * (suc p * 64)))
    (near : start + suc s * (suc q * (suc p * 64)) < 2 ^ 60) (enough : suc p ≤ fuel)
    (enough' : suc q ≤ fuel) (enough'' : suc s ≤ fuel) (start_at : start % 64 ≡ 0) where
  abbrev block_size : ℕ
  block_size = suc p * 64

  abbrev section_size : ℕ
  section_size = suc q * block_size

  abbrev section : Code
  section =
      run (xor_ (reg r11) r11 ∷ [])
      ⨾ do_while (fence_block start cache) (imm fence_size) r11
      ⨾ run (fence sfence ∷ [])

  sizes : (block_size ≤ section_size) × (section_size ≤ suc s * section_size)
  sizes =
      let up : suc q * block_size ≡ q * block_size + block_size = suc-mul q block_size in
      let up' : suc s * section_size ≡ s * section_size + section_size = suc-mul s section_size in
      (omega arith, omega arith)

  blocks-Sectioned :
      (c : Cpu)
      → c.r9 % 64 ≡ 0
      → start + c.r9 + section_size < 2 ^ 60
      → c.r11 ≡ 0
      → Ensures
          (Sectioned
            (c.r9 + section_size)
            section_size
            (repeated (block_events (suc p)) (start + c.r9) block_size (suc q) c.history)
            c)
          (exec_code fuel (do_while (fence_block start cache) (imm fence_size) r11) c)
  unfolding exec_code
  blocks-Sectioned c on_line close zeroed =
      let w = block_size in
      let a = start + c.r9 in
      let wide = sizes in
      let Inv : ℕ → Cpu → Type 0 = λ i d.
        Sectioned (c.r9 + i * w) (i * w) (repeated (block_events (suc p)) a w i c.history) c d in
      let each : (i : ℕ) (d : Cpu)
          → i < suc q
          → Inv i d
          → Ensures (Inv (suc i)) (exec_code fuel (fence_block start cache) d) =
        λ i d lt inv.
          let up : suc i * w ≡ i * w + w = suc-mul i w in
          let below : suc i * w ≤ suc q * w = mul-le-mul_right w (omega arith) in
          let lines : i * w % 64 ≡ 0 = mul-mod_64 i w (omega arith) in
          let here : start + d.r9 ≡ u64 (a + i * w) = omega (arith, inv.stored) in
          Ensures-weaken
            (Fencing (d.r9 + w) w (d.r11 + w) (start + d.r9 + w)
              (block_events (suc p) (start + d.r9) d.history) d)
            _ _
            (fence_block-Fencing start cache p fuel short long (omega (arith, wide.0)) enough
              start_at d (omega (arith, inv.stored)) (omega (arith, inv.in_section))
              (omega (arith, inv.stored)))
            λ e t. record {
              stored = omega (arith, t.stored, inv.stored);
              in_section = omega (arith, t.in_section, inv.in_section);
              clock_kept = t.clock_kept ∙ inv.clock_kept;
              reads_kept = t.reads_kept ∙ inv.reads_kept;
              traced =
                  t.traced
                  ∙ ap₂ (λ (x : ℕ) (l : List Event). block_events (suc p) x l) here inv.traced;
            } in
      counted-Ensures r11 (imm fence_size) 0 w q fence_size fuel Inv
        (exec_code fuel (fence_block start cache))
        (λ i d inv. (omega (arith, inv.in_section), refl)) each (omega arith) (omega arith)
        (omega (arith, wide.0)) enough' c
        (record {
          stored = omega (arith, zero-mul w);
          in_section = omega (arith, zeroed, zero-mul w);
          clock_kept = refl;
          reads_kept = refl;
          traced = refl;
        })

  section-Sectioned :
      (c : Cpu)
      → c.r9 % 64 ≡ 0
      → start + c.r9 + section_size < 2 ^ 60
      → Ensures
          (Sectioned
            (c.r9 + section_size)
            section_size
            (section_events (suc p) (suc q) (start + c.r9) c.history)
            c)
          (exec_code fuel section c)
  unfolding exec_code
  section-Sectioned c on_line close =
      let made : ℕ → List Event → List Event =
        λ x l. repeated (block_events (suc p)) (start + x) block_size (suc q) l in
      let Goal =
        Sectioned (c.r9 + section_size) section_size
          (section_events (suc p) (suc q) (start + c.r9) c.history) c in
      Ensures-bind (Sectioned c.r9 0 c.history c) Goal _ _ (begin_section c) λ d₁ s₁.
        Ensures-bind (Sectioned (d₁.r9 + section_size) section_size (made d₁.r9 d₁.history) d₁) Goal
          _ _
          (blocks-Sectioned d₁ (omega (arith, s₁.stored)) (omega (arith, s₁.stored)) s₁.in_section)
          λ d₂ s₂.
            Ensures-weaken (Sectioned d₂.r9 d₂.r11 (fenced sfence ∷ d₂.history) d₂) Goal _
              (end_section d₂)
              λ e t. record {
                stored = t.stored ∙ s₂.stored ∙ ap (λ (x : ℕ). x + section_size) s₁.stored;
                in_section = t.in_section ∙ s₂.in_section;
                clock_kept = t.clock_kept ∙ s₂.clock_kept ∙ s₁.clock_kept;
                reads_kept = t.reads_kept ∙ s₂.reads_kept ∙ s₁.reads_kept;
                traced =
                    t.traced
                    ∙ ap (λ (l : List Event). fenced sfence ∷ l)
                        (s₂.traced ∙ ap₂ made s₁.stored s₁.traced);
              }

  -- r9, the counter, and the history after `i` sections.
  abbrev Sections : Cpu → ℕ → Cpu → Type 0
  Sections c i d =
      (d.r9 ≡ i * section_size)
      × (d.history ≡ repeated (section_events (suc p) (suc q)) start section_size i c.history)

  pub sections_lem :
      (c : Cpu)
      → c.r9 ≡ 0
      → Ensures (Sections c (suc s)) (exec_code fuel (do_while section (imm size) r9) c)
  unfolding exec_code
  sections_lem c zeroed =
      let v = section_size in
      let wide = sizes in
      let each : (i : ℕ) (d : Cpu)
          → i < suc s
          → Sections c i d
          → Ensures (Sections c (suc i)) (exec_code fuel section d) =
        λ i d lt (at, traced).
          let up : suc i * v ≡ i * v + v = suc-mul i v in
          let below : suc i * v ≤ suc s * v = mul-le-mul_right v (omega arith) in
          let whole : v % 64 ≡ 0 = mul-mod_64 (suc q) block_size (omega arith) in
          let lines : i * v % 64 ≡ 0 = mul-mod_64 i v whole in
          let here : start + d.r9 ≡ u64 (start + i * v) = omega (arith, at) in
          Ensures-weaken
            (Sectioned (d.r9 + v) v (section_events (suc p) (suc q) (start + d.r9) d.history) d) _ _
            (section-Sectioned d (omega (arith, at)) (omega (arith, at)))
            λ e t. (
              omega (arith, t.stored, at),
              t.traced
                  ∙ ap₂ (λ (x : ℕ) (l : List Event). section_events (suc p) (suc q) x l) here
                      traced,
            ) in
      counted-Ensures r9 (imm size) 0 v s size fuel (Sections c) (exec_code fuel section)
        (λ i d inv. (omega (arith, inv.0), refl)) each (omega arith) (omega arith)
        (omega (arith, wide.1)) enough'' c (omega (arith, zeroed, zero-mul v), refl)
