-- ===== src/Memaccess/Chase.antt =====
-- The loops that chasing_storeclwb and chasing_loadnt of microbenchmarks/memaccess.cc have in common: one
-- goes from line to line along an index, the other from stride to stride.
use database_benchmarking_op.Prelude.{
  ℕ, zero, suc, ◌+◌, ◌*◌, ◌^◌, ◌≤◌, ◌<◌, List, [], ◌∷◌, ◌≡◌, refl, ap, ◌∙◌, arith,
}
use database_benchmarking_op.Machine.{
  r8, r9, r10, r11, r12, reg, imm, indexed, lea, xor_, Instr, Cpu, Event, le64, load_bytes, u64,
  step, exec, Code, run, ◌⨾◌, do_while, exec_code,
}
use database_benchmarking_op.Exec.Counting.{counted-Ensures}
use database_benchmarking_op.Exec.Ensures.{Ensures, Ensures-bind, Ensures-weaken}
use database_benchmarking_op.Chasing.Cycle.{walk}
use database_benchmarking_op.Memaccess.Pieces.{xor_self}
use database_benchmarking_op.Memaccess.Strides.{Strode}

-- What the first `n` lines that the chain `g` goes through leave in the history, latest first; `line` is
-- given the start of the lines and the number of one.
abbrev pub chain :
    (line : ℕ → ℕ → List Event → List Event) → (ℕ → ℕ) → ℕ → ℕ → List Event → List Event
chain line g zero a h = h
chain line g (suc n) a h = line a (walk g n) (chain line g n a h)

-- From `a` on, line `x` holds the number `g x` of the next, for each of `n` lines.
abbrev pub Linked : (ℕ → ℕ) → (n a : ℕ) → (ℕ → ℕ) → Type 0
Linked g n a m = (x : ℕ) → x < n → le64 (load_bytes (u64 (a + x * 64)) m) ≡ g x

-- A chain that begins at 0 stays among the first `n`.
pub walk-lt : (g : ℕ → ℕ) (n i : ℕ) → 0 < n → ((x : ℕ) → x < n → g x < n) → walk g i < n
walk-lt g n zero pos closed = pos
walk-lt g n (suc i) pos closed = closed (walk g i) (walk-lt g n i pos closed)

-- r10 and r12 are as given, and the history; what the outer loop uses is as it was.
pub record Chasing (acc x : ℕ) (h : List Event) (c d : Cpu) : Type 0 where
  pub r8_kept : d.r8 ≡ c.r8
  pub r9_kept : d.r9 ≡ c.r9
  pub r11_kept : d.r11 ≡ c.r11
  pub clock_kept : d.clock ≡ c.clock
  pub reads_kept : d.reads ≡ c.reads
  pub accessed : d.r10 ≡ acc
  pub next : d.r12 ≡ x
  pub traced : d.history ≡ h

Chasing-trans :
    {acc acc' x x' : ℕ} {h h' : List Event} {c d e : Cpu}
    → Chasing acc x h c d
    → Chasing acc' x' h' d e
    → Chasing acc' x' h' c e
Chasing-trans s t = record {
  r8_kept = t.r8_kept ∙ s.r8_kept;
  r9_kept = t.r9_kept ∙ s.r9_kept;
  r11_kept = t.r11_kept ∙ s.r11_kept;
  clock_kept = t.clock_kept ∙ s.clock_kept;
  reads_kept = t.reads_kept ∙ s.reads_kept;
  accessed = t.accessed;
  next = t.next;
  traced = t.traced;
}

enter-Chasing :
    (start : ℕ) (c : Cpu)
    → Ensures
        (λ d. Chasing 0 0 c.history (record c { r9 = u64 (start + c.r8) }) d × (d.mem ≡ c.mem))
        (exec
          (lea (indexed 0 (imm start) (reg r8)) r9 ∷ xor_ (reg r10) r10 ∷ xor_ (reg r12) r12 ∷ [])
          c)
unfolding exec step
enter-Chasing start c = (
  record {
    r8_kept = refl;
    r9_kept = omega arith;
    r11_kept = refl;
    clock_kept = refl;
    reads_kept = refl;
    accessed = xor_self c.r10;
    next = xor_self c.r12;
    traced = refl;
  },
  refl,
)

-- One stride: the lines by `body`, and the step to the next stride by `post`.
abbrev pub chase_round : List Instr → List Instr → ℕ → ℕ → Code
chase_round body post start size =
    run (lea (indexed 0 (imm start) (reg r8)) r9 ∷ xor_ (reg r10) r10 ∷ xor_ (reg r12) r12 ∷ [])
    ⨾ do_while (run body) (imm size) r10
    ⨾ run post

-- A body that makes one line of the chain, with `K` of the memory after each.
module _ (g : ℕ → ℕ) (line : ℕ → ℕ → List Event → List Event) (body : List Instr)
    (base p size fuel : ℕ) (K : ℕ → (ℕ → ℕ) → Type 0)
    (each : (i : ℕ) (c : Cpu)
      → i < suc p
      → c.r9 ≡ base
      → c.r12 ≡ walk g i
      → K i c.mem
      → Ensures
          (λ d.
            Chasing (u64 (c.r10 + 64)) (walk g (suc i)) (line base (walk g i) c.history) c d
            × K (suc i) d.mem)
          (exec body c))
    (short : p * 64 < size) (long : size ≤ suc p * 64) (small : size < 2 ^ 62)
    (enough : suc p ≤ fuel) where
  abbrev Chased : ℕ → Cpu → Cpu → Type 0
  Chased i c d = Chasing (i * 64) (walk g i) (chain line g i base c.history) c d × K i d.mem

  inner-Chasing :
      (c : Cpu)
      → c.r9 ≡ base
      → c.r10 ≡ 0
      → c.r12 ≡ 0
      → K 0 c.mem
      → Ensures (Chased (suc p) c) (exec_code fuel (do_while (run body) (imm size) r10) c)
  unfolding exec_code
  inner-Chasing c at zeroed zeroed' first =
      let goes : (i : ℕ) (d : Cpu)
          → i < suc p
          → Chased i c d
          → Ensures (Chased (suc i) c) (exec body d) =
        λ i d lt (inv, kept).
          Ensures-weaken
            (λ e.
              Chasing (u64 (d.r10 + 64)) (walk g (suc i)) (line base (walk g i) d.history) d e
              × K (suc i) e.mem)
            _ (exec body d) (each i d lt (inv.r9_kept ∙ at) inv.next kept)
            λ e (t, kept').
              let count : u64 (d.r10 + 64) ≡ suc i * 64 = omega (arith, inv.accessed) in
              (rw (count, inv.traced) at (Chasing-trans inv t), kept') in
      let start : Chasing 0 0 c.history c c = record {
        r8_kept = refl;
        r9_kept = refl;
        r11_kept = refl;
        clock_kept = refl;
        reads_kept = refl;
        accessed = zeroed;
        next = zeroed';
        traced = refl;
      } in
      counted-Ensures r10 (imm size) 0 64 p size fuel (λ i d. Chased i c d) (exec body)
        (λ i d (inv, kept). (omega (arith, inv.accessed), refl)) goes (omega arith) (omega arith)
        (omega arith) enough c (start, first)

  module _ (post : List Instr) (skip : ℕ)
      (leaves : (c : Cpu)
        → c.r11 + 1 < 2 ^ 64
        → Ensures
            (λ d. Strode (u64 (c.r8 + skip)) (suc c.r11) c.history c d × (d.mem ≡ c.mem))
            (exec post c)) where
    pub chase_round-Strode :
        (start : ℕ) (c : Cpu)
        → u64 (start + c.r8) ≡ base
        → c.r11 + 1 < 2 ^ 64
        → K 0 c.mem
        → Ensures
            (λ d.
              Strode (u64 (c.r8 + skip)) (suc c.r11) (chain line g (suc p) base c.history) c d
              × K (suc p) d.mem)
            (exec_code fuel (chase_round body post start size) c)
    unfolding exec_code
    chase_round-Strode start c at below first =
        let h = chain line g (suc p) base c.history in
        let Goal : Cpu → Type 0 =
          λ d. Strode (u64 (c.r8 + skip)) (suc c.r11) h c d × K (suc p) d.mem in
        let from : Cpu = record c { r9 = u64 (start + c.r8) } in
        Ensures-bind (λ d. Chasing 0 0 c.history from d × (d.mem ≡ c.mem)) Goal _ _
          (enter-Chasing start c)
          λ d₁ (s₁, same₁).
            Ensures-bind (Chased (suc p) d₁) Goal _ _
              (inner-Chasing d₁ (s₁.r9_kept ∙ at) s₁.accessed s₁.next (rw same₁ first))
              λ d₂ (s₂, kept).
                Ensures-weaken
                  (λ e. Strode (u64 (d₂.r8 + skip)) (suc d₂.r11) d₂.history d₂ e × (e.mem ≡ d₂.mem))
                  Goal _ (leaves d₂ (omega (arith, s₂.r11_kept, s₁.r11_kept)))
                  λ e (t, same). (
                    record {
                      offset = t.offset ∙ ap (λ (a : ℕ). u64 (a + skip)) (s₂.r8_kept ∙ s₁.r8_kept);
                      counter = t.counter ∙ ap suc (s₂.r11_kept ∙ s₁.r11_kept);
                      clock_kept = t.clock_kept ∙ s₂.clock_kept ∙ s₁.clock_kept;
                      reads_kept = t.reads_kept ∙ s₂.reads_kept ∙ s₁.reads_kept;
                      traced = t.traced ∙ s₂.traced ∙ ap (chain line g (suc p) base) s₁.traced;
                    },
                    rw same kept,
                  )

pub starts_chase :
    (fuel : ℕ) (c : Cpu)
    → Ensures
        (λ d. Strode 0 0 c.history c d × (d.mem ≡ c.mem))
        (exec_code fuel (run (xor_ (reg r8) r8 ∷ xor_ (reg r11) r11 ∷ [])) c)
unfolding exec_code exec step
starts_chase fuel c = (
  record {
    offset = xor_self c.r8;
    counter = xor_self c.r11;
    clock_kept = refl;
    reads_kept = refl;
    traced = refl;
  },
  refl,
)
