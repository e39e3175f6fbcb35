-- ===== src/Exec/Bytes.antt =====
-- A memory and vector registers of bytes stay so.
use database_benchmarking_op.Prelude.{
  ℕ, ◌+◌, ◌-◌, ◌%◌, ◌&&◌, ltb, leb, ◌==◌, arith, if◌then◌else◌, Bool, Bool-cases, inl, inr,
}
use database_benchmarking_op.Machine.{
  Reg, Instr, nop, rdtscp, fence, flush, mov, movl, mov_load, mov_store, lea, add, xor_, and_, or_,
  andl, inc, neg, shl, shr, vbroadcastsd, movq_to_xmm, movq_load_xmm, movq_from_xmm, vmovdqa_load,
  vmovntdqa, vmovdqa_store, vmovnt_store, Cpu, put, put_vec, low_bytes, xmm_bytes, value_of,
  address_of, byte_of, store_bytes, load_bytes, step, Code, exec_code,
}
use database_benchmarking_op.Exec.Memory.{IsBytes}
use database_benchmarking_op.Exec.Vectors.{OnDone}
use database_benchmarking_op.Exec.Respects.{code_respects}

abbrev pub AllBytes : Cpu → Type 0
AllBytes c = IsBytes c.mem × ((v : ℕ) → IsBytes (c.vec v))

abbrev pub StayBytes : Cpu → Cpu → Type 0
StayBytes c d = AllBytes c → AllBytes d

choose-IsBytes :
    (p : ℕ → Bool) (b m : ℕ → ℕ) → IsBytes b → IsBytes m → IsBytes (λ x. if p x then b x else m x)
choose-IsBytes p b m hb hm x = elim (Bool-cases (p x)) [
  | inl yes_ ↦ rw yes_ (hb x)
  | inr no_ ↦ rw no_ (hm x)
]

store_bytes-IsBytes :
    (a w : ℕ) (b m : ℕ → ℕ) → IsBytes b → IsBytes m → IsBytes (store_bytes a w b m)
store_bytes-IsBytes a w b m hb hm =
    choose-IsBytes (λ x. leb a x && ltb x (a + w)) (λ x. b (x - a)) m (λ x. hb (x - a)) hm

pub byte_of-IsBytes : (v : ℕ) → IsBytes (byte_of v)
byte_of-IsBytes v i = omega arith

low_bytes-IsBytes : (w : ℕ) (b : ℕ → ℕ) → IsBytes b → IsBytes (low_bytes w b)
low_bytes-IsBytes w b h = choose-IsBytes (λ i. ltb i w) b (λ i. 0) h λ i. omega arith

xmm_bytes-IsBytes : (a b : ℕ → ℕ) → IsBytes a → IsBytes b → IsBytes (xmm_bytes a b)
xmm_bytes-IsBytes a b ha h =
    choose-IsBytes (λ i. ltb i 8) a (λ i. if ltb i 16 then 0 else b i) ha
      (choose-IsBytes (λ i. ltb i 16) (λ i. 0) b (λ i. omega arith) h)

put-StayBytes : (r : Reg) (v : ℕ) (c : Cpu) → StayBytes c (put r v c)
put-StayBytes Reg.rsi v c h = h
put-StayBytes r v c h = h

put_vec-StayBytes :
    (v : ℕ) (b : ℕ → ℕ) (c : Cpu) → (AllBytes c → IsBytes b) → StayBytes c (put_vec v b c)
put_vec-StayBytes v b c hb h = (
  h.0,
  λ i. elim (Bool-cases (leb v i && leb i v)) [
    | inl same ↦ rw same (hb h)
    | inr other ↦ rw other (h.1 i)
  ],
)

pub store-StayBytes :
    (a w : ℕ) (b : ℕ → ℕ) (c : Cpu)
    → (AllBytes c → IsBytes b)
    → StayBytes c (record c { mem = store_bytes a w b c.mem })
store-StayBytes a w b c hb h = (store_bytes-IsBytes a w b c.mem (hb h) h.0, h.1)

load-StayBytes :
    (a w v : ℕ) (c : Cpu) → StayBytes c (put_vec v (low_bytes w (load_bytes a c.mem)) c)
load-StayBytes a w v c =
    put_vec-StayBytes v (low_bytes w (load_bytes a c.mem)) c
      λ h. low_bytes-IsBytes w (load_bytes a c.mem) λ i. h.0 (a + i)

step-StayBytes : (i : Instr) (c : Cpu) → OnDone (StayBytes c) (step i c)
unfolding step
step-StayBytes nop c = λ h. h
step-StayBytes rdtscp c = λ h. h
step-StayBytes (fence f) c = λ h. h
step-StayBytes (flush f a) c = λ h. h
step-StayBytes (vbroadcastsd n v) c =
    put_vec-StayBytes v _ c
      λ h. low_bytes-IsBytes 32 (λ i. byte_of n (i % 8)) λ i. byte_of-IsBytes n (i % 8)
step-StayBytes (movq_to_xmm s v) c = put_vec-StayBytes v _ c λ h.
    xmm_bytes-IsBytes (byte_of (value_of s c)) (c.vec v) (byte_of-IsBytes (value_of s c)) (h.1 v)
step-StayBytes (movq_load_xmm a v) c =
    let b = load_bytes (address_of a c) c.mem in
    put_vec-StayBytes v _ c
      λ h. xmm_bytes-IsBytes b (c.vec v) (λ i. h.0 (address_of a c + i)) (h.1 v)
step-StayBytes (mov_store s a) c =
    store-StayBytes (address_of a c) 8 (byte_of (value_of s c)) c
      λ h. byte_of-IsBytes (value_of s c)
step-StayBytes (vmovdqa_load w a v) c = elim (Bool-cases (address_of a c % w == 0)) [
  | inl good ↦ rw good (load-StayBytes (address_of a c) w v c)
  | inr bad ↦ rw bad tt
]
step-StayBytes (vmovntdqa w a v) c = elim (Bool-cases (address_of a c % w == 0)) [
  | inl good ↦ rw good (load-StayBytes (address_of a c) w v c)
  | inr bad ↦ rw bad tt
]
step-StayBytes (vmovdqa_store w v a) c = elim (Bool-cases (address_of a c % w == 0)) [
  | inl good ↦ rw good (store-StayBytes (address_of a c) w (c.vec v) c (λ h. h.1 v))
  | inr bad ↦ rw bad tt
]
step-StayBytes (vmovnt_store w v a) c = elim (Bool-cases (address_of a c % w == 0)) [
  | inl good ↦ rw good (store-StayBytes (address_of a c) w (c.vec v) c (λ h. h.1 v))
  | inr bad ↦ rw bad tt
]
step-StayBytes (mov_load a d) c = put-StayBytes d _ c
step-StayBytes (mov s d) c = put-StayBytes d _ c
step-StayBytes (movl s d) c = put-StayBytes d _ c
step-StayBytes (lea a d) c = put-StayBytes d _ c
step-StayBytes (add s d) c = put-StayBytes d _ c
step-StayBytes (xor_ s d) c = put-StayBytes d _ c
step-StayBytes (and_ s d) c = put-StayBytes d _ c
step-StayBytes (or_ s d) c = put-StayBytes d _ c
step-StayBytes (andl n d) c = put-StayBytes d _ c
step-StayBytes (inc d) c = put-StayBytes d _ c
step-StayBytes (neg d) c = put-StayBytes d _ c
step-StayBytes (shl k d) c = put-StayBytes d _ c
step-StayBytes (shr k d) c = put-StayBytes d _ c
step-StayBytes (movq_from_xmm u d) c = put-StayBytes d _ c

-- Code with loops keeps a memory and vector registers of bytes.
pub code-StayBytes :
    (fuel : ℕ) (code : Code) (c : Cpu) → OnDone (StayBytes c) (exec_code fuel code c)
code-StayBytes = code_respects StayBytes (λ c h. h) (λ c d e f g h. g (f h)) step-StayBytes
