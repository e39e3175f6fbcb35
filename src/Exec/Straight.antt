-- ===== src/Exec/Straight.antt =====
-- Straight-line code: fences, and accesses and flushes at fixed offsets from rsi.
use database_benchmarking_op.Prelude.{
  ℕ, ◌+◌, ◌*◌, ◌%◌, List, [], ◌∷◌, Bool, true, false, ◌&&◌, ◌≡◌, refl, ap₂, ◌∙◌, arith, eq→==,
  false≢true, ◌==◌, and_parts,
}
use database_benchmarking_op.Machine.{
  Reg, rsi, rdx, Operand, reg, imm, Address, Instr, nop, fence, flush, mov_load, mov_store,
  vbroadcastsd, vmovdqa_load, vmovntdqa, vmovdqa_store, vmovnt_store, Cpu, Access, read, nt_read,
  write, nt_write, Event, access, flushed, fenced, u64, value_of, address_of, step, exec,
}
use database_benchmarking_op.Exec.Ensures.{Ensures, Ensures-bind, Ensures-weaken}

-- What no instruction of straight-line code changes.
pub record Frame (c d : Cpu) : Type 0 where
  pub same_rsi : d.rsi ≡ c.rsi
  pub same_r8 : d.r8 ≡ c.r8
  pub same_r9 : d.r9 ≡ c.r9
  pub same_clock : d.clock ≡ c.clock
  pub same_reads : d.reads ≡ c.reads

pub Frame-refl : (c : Cpu) → Frame c c
Frame-refl c = record {
  same_rsi = refl;
  same_r8 = refl;
  same_r9 = refl;
  same_clock = refl;
  same_reads = refl;
}

-- A change of vectors, memory, rdx or the history.
Frame-change :
    (c : Cpu) {v : ℕ → ℕ → ℕ} {m : ℕ → ℕ} {x : ℕ} {h : List Event}
    → Frame c (record c { vec = v; mem = m; rdx = x; history = h })
Frame-change c = record {
  same_rsi = refl;
  same_r8 = refl;
  same_r9 = refl;
  same_clock = refl;
  same_reads = refl;
}

pub Frame-trans : {c d e : Cpu} → Frame c d → Frame d e → Frame c e
Frame-trans f g = record {
  same_rsi = g.same_rsi ∙ f.same_rsi;
  same_r8 = g.same_r8 ∙ f.same_r8;
  same_r9 = g.same_r9 ∙ f.same_r9;
  same_clock = g.same_clock ∙ f.same_clock;
  same_reads = g.same_reads ∙ f.same_reads;
}

abbrev based_on_rsi : Operand → Operand → Bool
based_on_rsi (reg rsi) (imm i) = true
based_on_rsi _ _ = false

abbrev constant : Operand → ℕ
constant (imm i) = i
constant (reg r) = 0

abbrev offset : Address → ℕ
offset a = a.disp + constant a.index * a.scale

abbrev on_rsi : Address → Bool
on_rsi a = based_on_rsi a.base a.index

abbrev into_rdx : Reg → Bool
into_rdx rdx = true
into_rdx _ = false

abbrev half_line : ℕ → Address → Bool
half_line w a = w == 32 && (offset a % 32 == 0 && on_rsi a)

-- An instruction of straight-line code. A vector access is of 32 bytes at a multiple of 32.
abbrev pub plain : Instr → Bool
plain nop = true
plain (fence f) = true
plain (flush f a) = on_rsi a
plain (mov_load a d) = on_rsi a && into_rdx d
plain (mov_store s a) = on_rsi a
plain (vbroadcastsd n v) = true
plain (vmovdqa_load w a v) = half_line w a
plain (vmovntdqa w a v) = half_line w a
plain (vmovdqa_store w v a) = half_line w a
plain (vmovnt_store w v a) = half_line w a
plain _ = false

abbrev pub all_plain : List Instr → Bool
all_plain [] = true
all_plain (i ∷ is) = plain i && all_plain is

-- The history after the code, from its text and the value of rsi.
abbrev pub then_event : ℕ → Instr → List Event → List Event
then_event b (fence f) h = fenced f ∷ h
then_event b (flush f a) h = flushed f (u64 (b + offset a)) ∷ h
then_event b (mov_load a d) h = access read (u64 (b + offset a)) 8 ∷ h
then_event b (mov_store s a) h = access write (u64 (b + offset a)) 8 ∷ h
then_event b (vmovdqa_load w a v) h = access read (u64 (b + offset a)) w ∷ h
then_event b (vmovntdqa w a v) h = access nt_read (u64 (b + offset a)) w ∷ h
then_event b (vmovdqa_store w v a) h = access write (u64 (b + offset a)) w ∷ h
then_event b (vmovnt_store w v a) h = access nt_write (u64 (b + offset a)) w ∷ h
then_event b _ h = h

abbrev pub then_events : ℕ → List Instr → List Event → List Event
then_events b [] h = h
then_events b (i ∷ is) h = then_events b is (then_event b i h)

pub record Ran (h : List Event) (c d : Cpu) : Type 0 where
  pub frame : Frame c d
  pub traced : d.history ≡ h

based_value :
    (x y : Operand) (c : Cpu)
    → based_on_rsi x y ≡ true
    → (value_of x c ≡ c.rsi) × (value_of y c ≡ constant y)
based_value (reg rsi) (imm i) c h = (refl, refl)
based_value (reg rsi) (reg r) c h = absurd (cc)
based_value _ y c h = absurd (cc)

address-on_rsi : (a : Address) (c : Cpu) → on_rsi a ≡ true → address_of a c ≡ u64 (c.rsi + offset a)
address-on_rsi a c h =
    let (p, q) = based_value a.base a.index c h in ap₂ (λ x y. u64 (x + (a.disp + y * a.scale))) p q

half_line_parts :
    (w : ℕ) (a : Address)
    → half_line w a ≡ true
    → (w ≡ 32) × (offset a % 32 ≡ 0) × (on_rsi a ≡ true)
half_line_parts w a h = ground arith

-- A vector access of straight-line code does not fault.
aligned_half :
    (w : ℕ) (a : Address) (c : Cpu)
    → c.rsi % 64 ≡ 0
    → half_line w a ≡ true
    → (address_of a c % w == 0) ≡ true
aligned_half w a c m h =
    let (width, off, base) = half_line_parts w a h in
    rw (width, address-on_rsi a c base) (eq→== _ 0 (omega arith))

half_line_event :
    (k : Access) (w : ℕ) (a : Address) (c : Cpu)
    → half_line w a ≡ true
    → ◌≡◌ {A = List Event}
        (access k (address_of a c) w ∷ c.history)
        (access k (u64 (c.rsi + offset a)) w ∷ c.history)
half_line_event k w a c h = rw (address-on_rsi a c (half_line_parts w a h).2)

step-plain :
    (i : Instr) (c : Cpu)
    → c.rsi % 64 ≡ 0
    → plain i ≡ true
    → Ensures (Ran (then_event c.rsi i c.history) c) (step i c)
unfolding step
step-plain nop c m p = record { frame = Frame-refl c; traced = refl }
step-plain (fence f) c m p = record { frame = Frame-change c; traced = refl }
step-plain (flush f a) c m p = record { frame = Frame-change c; traced = rw (address-on_rsi a c p) }
step-plain (mov_load a rdx) c m p =
    let (base, _) = and_parts (on_rsi a) true p in
    record { frame = Frame-change c; traced = rw (address-on_rsi a c base) }
step-plain (mov_load a d) c m p = absurd (false≢true ((and_parts (on_rsi a) false p).1))
step-plain (mov_store s a) c m p = record {
  frame = Frame-change c;
  traced = rw (address-on_rsi a c p);
}
step-plain (vbroadcastsd n v) c m p = record { frame = Frame-change c; traced = refl }
step-plain (vmovdqa_load w a v) c m p =
    rw (aligned_half w a c m p)
      (record { frame = Frame-change c; traced = half_line_event read w a c p })
step-plain (vmovntdqa w a v) c m p =
    rw (aligned_half w a c m p)
      (record { frame = Frame-change c; traced = half_line_event nt_read w a c p })
step-plain (vmovdqa_store w v a) c m p =
    rw (aligned_half w a c m p)
      (record { frame = Frame-change c; traced = half_line_event write w a c p })
step-plain (vmovnt_store w v a) c m p =
    rw (aligned_half w a c m p)
      (record { frame = Frame-change c; traced = half_line_event nt_write w a c p })
step-plain _ c m p = absurd (false≢true p)

pub exec-plain :
    (is : List Instr) (c : Cpu)
    → c.rsi % 64 ≡ 0
    → all_plain is ≡ true
    → Ensures (Ran (then_events c.rsi is c.history) c) (exec is c)
unfolding exec
exec-plain [] c m p = record { frame = Frame-refl c; traced = refl }
exec-plain (i ∷ is) c m p =
    let (p₁, p₂) = and_parts (plain i) (all_plain is) p in
    Ensures-bind (Ran (then_event c.rsi i c.history) c)
      (Ran (then_events c.rsi (i ∷ is) c.history) c) (step i c) (exec is) (step-plain i c m p₁)
      λ d r.
        Ensures-weaken (Ran (then_events d.rsi is d.history) d)
          (Ran (then_events c.rsi (i ∷ is) c.history) c) (exec is d)
          (exec-plain is d (rw r.frame.same_rsi m) p₂)
          λ e r'. record {
            frame = Frame-trans r.frame r'.frame;
            traced = rw (r'.traced, r.frame.same_rsi, r.traced);
          }
