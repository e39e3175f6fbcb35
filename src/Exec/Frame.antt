-- ===== src/Exec/Frame.antt =====
-- What every instruction keeps: the bytes that the history does not show touched, and that bytes are
-- bytes.
use database_benchmarking_op.Prelude.{
  ℕ, ◌+◌, ◌%◌, ◌<◌, List, ◌&&◌, ltb, leb, ◌==◌, ◌≡◌, refl, ap, ◌∙◌, arith, Bool-cases, inl, inr,
  ◌⊎◌,
}
use native.Mathlib.Decide.{dec_lt}
use database_benchmarking_op.Machine.{
  Reg, Instr, nop, rdtscp, fence, flush, mov, movl, mov_load, mov_store, lea, add, xor_, and_, or_,
  andl, inc, neg, shl, shr, vbroadcastsd, movq_to_xmm, movq_load_xmm, movq_from_xmm, vmovdqa_load,
  vmovntdqa, vmovdqa_store, vmovnt_store, Cpu, Access, read, nt_read, write, nt_write, Event,
  access, note, put, put_vec, low_bytes, xmm_bytes, le64, value_of, address_of, byte_of,
  store_bytes, load_bytes, step, Code, exec_code,
}
use database_benchmarking_op.Exec.Vectors.{OnDone}
use database_benchmarking_op.Exec.Respects.{code_respects}
use database_benchmarking_op.Latency.Coverage.{inside, touches}

-- A byte has been touched more often, or as often and it is as it was.
abbrev pub Framed : Cpu → Cpu → Type 0
Framed c d =
    (x : ℕ)
    → (touches c.history x < touches d.history x)
      ⊎ ((touches d.history x ≡ touches c.history x) × (d.mem x ≡ c.mem x))

Framed-refl : (c : Cpu) → Framed c c
Framed-refl c x = inr (refl, refl)

Framed-trans : (c d e : Cpu) → Framed c d → Framed d e → Framed c e
Framed-trans c d e h k x = elim (h x) [
  | inl more ↦ elim (k x) [ inl again ↦ inl (omega arith) | inr (same, kept) ↦ inl (omega arith) ]
  | inr (same, kept) ↦ elim (k x) [
    | inl more ↦ inl (omega arith)
    | inr (same', kept') ↦ inr (same' ∙ same, kept' ∙ kept)
  ]
]

put-mem : (r : Reg) (v : ℕ) (c : Cpu) → (put r v c).mem ≡ c.mem
put-mem Reg.rsi v c = refl
put-mem r v c = refl

put-history : (r : Reg) (v : ℕ) (c : Cpu) → (put r v c).history ≡ c.history
put-history Reg.rsi v c = refl
put-history r v c = refl

put-Framed : (r : Reg) (v : ℕ) (c : Cpu) → Framed c (put r v c)
put-Framed Reg.rsi v c x = inr (refl, refl)
put-Framed r v c x = inr (refl, refl)

-- An access that leaves memory as it was, and one that stores.
read-Framed :
    (k : Access) (a w : ℕ) (c d : Cpu)
    → d.mem ≡ c.mem
    → d.history ≡ c.history
    → Framed c (note (access k a w) d)
unfolding touches
read-Framed k a w c d m h x = elim (dec_lt 0 (inside a w x)) [
  | yes pos ↦ inl (omega (arith, ap (λ (l : List Event). touches l x) h))
  | no zeroed ↦
      inr (omega (arith, ap (λ (l : List Event). touches l x) h), ap (λ (b : ℕ → ℕ). b x) m)
]

store-Framed :
    (k : Access) (a w : ℕ) (b : ℕ → ℕ) (c : Cpu)
    → Framed c (note (access k a w) (record c { mem = store_bytes a w b c.mem }))
unfolding touches
store-Framed k a w b c x = elim (Bool-cases (leb a x && ltb x (a + w))) [
  | inl within ↦ inl (rw within (omega arith))
  | inr outside ↦ inr (rw outside (omega arith), rw outside refl)
]

step-Framed : (i : Instr) (c : Cpu) → OnDone (Framed c) (step i c)
unfolding step touches
step-Framed nop c = λ x. inr (refl, refl)
step-Framed rdtscp c = λ x. inr (refl, refl)
step-Framed (fence f) c = λ x. inr (refl, refl)
step-Framed (flush f a) c = λ x. inr (refl, refl)
step-Framed (vbroadcastsd n u) c = λ x. inr (refl, refl)
step-Framed (movq_to_xmm s u) c = λ x. inr (refl, refl)
step-Framed (movq_load_xmm a u) c =
    read-Framed read (address_of a c) 8 c
      (put_vec u (xmm_bytes (load_bytes (address_of a c) c.mem) (c.vec u)) c) refl refl
step-Framed (mov_load a d) c =
    let v = le64 (load_bytes (address_of a c) c.mem) in
    read-Framed read (address_of a c) 8 c (put d v c) (put-mem d v c) (put-history d v c)
step-Framed (mov_store s a) c = store-Framed write (address_of a c) 8 (byte_of (value_of s c)) c
step-Framed (vmovdqa_load w a u) c = elim (Bool-cases (address_of a c % w == 0)) [
  | inl good ↦ rw good (
      read-Framed read (address_of a c) w c
        (put_vec u (low_bytes w (load_bytes (address_of a c) c.mem)) c) refl refl)
  | inr bad ↦ rw bad tt
]
step-Framed (vmovntdqa w a u) c = elim (Bool-cases (address_of a c % w == 0)) [
  | inl good ↦ rw good (
      read-Framed nt_read (address_of a c) w c
        (put_vec u (low_bytes w (load_bytes (address_of a c) c.mem)) c) refl refl)
  | inr bad ↦ rw bad tt
]
step-Framed (vmovdqa_store w u a) c = elim (Bool-cases (address_of a c % w == 0)) [
  | inl good ↦ rw good (store-Framed write (address_of a c) w (c.vec u) c)
  | inr bad ↦ rw bad tt
]
step-Framed (vmovnt_store w u a) c = elim (Bool-cases (address_of a c % w == 0)) [
  | inl good ↦ rw good (store-Framed nt_write (address_of a c) w (c.vec u) c)
  | inr bad ↦ rw bad tt
]
step-Framed (mov s d) c = put-Framed d _ c
step-Framed (movl s d) c = put-Framed d _ c
step-Framed (lea a d) c = put-Framed d _ c
step-Framed (add s d) c = put-Framed d _ c
step-Framed (xor_ s d) c = put-Framed d _ c
step-Framed (and_ s d) c = put-Framed d _ c
step-Framed (or_ s d) c = put-Framed d _ c
step-Framed (andl n d) c = put-Framed d _ c
step-Framed (inc d) c = put-Framed d _ c
step-Framed (neg d) c = put-Framed d _ c
step-Framed (shl k d) c = put-Framed d _ c
step-Framed (shr k d) c = put-Framed d _ c
step-Framed (movq_from_xmm u d) c = put-Framed d _ c

-- Code with loops changes no byte that its history does not show touched.
pub code-Framed : (fuel : ℕ) (code : Code) (c : Cpu) → OnDone (Framed c) (exec_code fuel code c)
code-Framed = code_respects Framed Framed-refl Framed-trans step-Framed
