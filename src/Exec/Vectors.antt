-- ===== src/Exec/Vectors.antt =====
-- Which vector registers a program leaves as they were.
use database_benchmarking_op.Prelude.{
  ℕ, List, [], ◌∷◌, Bool, true, false, ◌&&◌, ◌==◌, Bool-cases, inl, inr, ◌≡◌, ◌≢◌, refl, sym, ap,
  ◌∙◌, arith, false≢true, and_parts, Option, none, some, ◌%◌,
}
use database_benchmarking_op.Machine.{
  Reg, Instr, vbroadcastsd, movq_to_xmm, movq_load_xmm, vmovdqa_load, vmovntdqa, nop, rdtscp, fence,
  flush, mov, movl, mov_load, mov_store, lea, add, xor_, and_, or_, andl, inc, neg, shl, shr,
  movq_from_xmm, vmovdqa_store, vmovnt_store, Cpu, put, put_vec, address_of, Outcome, done, fault,
  spin, ◌>>=◌, step, exec,
}
use database_benchmarking_op.Exec.Ensures.{Ensures}

-- `P` holds of the result, if there is one.
abbrev pub OnDone {ℓ} : {A : Type ℓ} → (A → Type 0) → Outcome A → Type 0
OnDone P (done a) = P a
OnDone P fault = Unit
OnDone P spin = Unit

pub OnDone-bind {ℓ κ} :
    {A : Type ℓ} {B : Type κ} (P : A → Type 0) (Q : B → Type 0) (o : Outcome A) (f : A → Outcome B)
    → OnDone P o
    → ((a : A) → P a → OnDone Q (f a))
    → OnDone Q (o >>= f)
OnDone-bind P Q (done a) f h k = k a h
OnDone-bind P Q fault f h k = tt
OnDone-bind P Q spin f h k = tt

pub Ensures-OnDone {ℓ} :
    {A : Type ℓ} (P Q : A → Type 0) (o : Outcome A) → Ensures P o → OnDone Q o → Ensures Q o
Ensures-OnDone P Q (done a) h k = k
Ensures-OnDone P Q fault h k = h
Ensures-OnDone P Q spin h k = h

-- The vector register that an instruction writes.
abbrev pub target : Instr → Option ℕ
target (vbroadcastsd n v) = some v
target (movq_to_xmm s v) = some v
target (movq_load_xmm a v) = some v
target (vmovdqa_load w a v) = some v
target (vmovntdqa w a v) = some v
target _ = none

put-vec : (r : Reg) (x : ℕ) (c : Cpu) → (put r x c).vec ≡ c.vec
put-vec Reg.rsi x c = refl
put-vec r x c = refl

put_vec_other : (u v : ℕ) (b : ℕ → ℕ) (c : Cpu) → u ≢ v → (put_vec u b c).vec v ≡ c.vec v
put_vec_other u v b c ne = ground arith

abbrev pub Keeps : ℕ → Cpu → Cpu → Type 0
Keeps v c d = d.vec v ≡ c.vec v

step-Keeps : (i : Instr) (v : ℕ) (c : Cpu) → target i ≢ some v → OnDone (Keeps v c) (step i c)
unfolding step
step-Keeps (vbroadcastsd n u) v c ne = put_vec_other u v _ c (λ e. ne (ap some e))
step-Keeps (movq_to_xmm s u) v c ne = put_vec_other u v _ c (λ e. ne (ap some e))
step-Keeps (movq_load_xmm a u) v c ne = put_vec_other u v _ c (λ e. ne (ap some e))
step-Keeps (vmovdqa_load w a u) v c ne = elim (Bool-cases (address_of a c % w == 0)) [
  | inl good ↦ rw good (put_vec_other u v _ c (λ e. ne (ap some e)))
  | inr bad ↦ rw bad tt
]
step-Keeps (vmovntdqa w a u) v c ne = elim (Bool-cases (address_of a c % w == 0)) [
  | inl good ↦ rw good (put_vec_other u v _ c (λ e. ne (ap some e)))
  | inr bad ↦ rw bad tt
]
step-Keeps (vmovdqa_store w u a) v c ne = elim (Bool-cases (address_of a c % w == 0)) [
  | inl good ↦ rw good (refl {a = c.vec v})
  | inr bad ↦ rw bad tt
]
step-Keeps (vmovnt_store w u a) v c ne = elim (Bool-cases (address_of a c % w == 0)) [
  | inl good ↦ rw good (refl {a = c.vec v})
  | inr bad ↦ rw bad tt
]
step-Keeps nop v c ne = refl
step-Keeps rdtscp v c ne = refl
step-Keeps (fence f) v c ne = refl
step-Keeps (flush f a) v c ne = refl
step-Keeps (mov_store s a) v c ne = refl
step-Keeps (mov s d) v c ne = ap (λ b. b v) (put-vec d _ c)
step-Keeps (movl s d) v c ne = ap (λ b. b v) (put-vec d _ c)
step-Keeps (mov_load a d) v c ne = ap (λ b. b v) (put-vec d _ c)
step-Keeps (lea a d) v c ne = ap (λ b. b v) (put-vec d _ c)
step-Keeps (add s d) v c ne = ap (λ b. b v) (put-vec d _ c)
step-Keeps (xor_ s d) v c ne = ap (λ b. b v) (put-vec d _ c)
step-Keeps (and_ s d) v c ne = ap (λ b. b v) (put-vec d _ c)
step-Keeps (or_ s d) v c ne = ap (λ b. b v) (put-vec d _ c)
step-Keeps (andl n d) v c ne = ap (λ b. b v) (put-vec d _ c)
step-Keeps (inc d) v c ne = ap (λ b. b v) (put-vec d _ c)
step-Keeps (neg d) v c ne = ap (λ b. b v) (put-vec d _ c)
step-Keeps (shl k d) v c ne = ap (λ b. b v) (put-vec d _ c)
step-Keeps (shr k d) v c ne = ap (λ b. b v) (put-vec d _ c)
step-Keeps (movq_from_xmm u d) v c ne = ap (λ b. b v) (put-vec d _ c)

abbrev allowed : (ℕ → Bool) → Option ℕ → Bool
allowed f none = true
allowed f (some v) = f v

OnDone-Keeps :
    (v : ℕ) (c d : Cpu) (o : Outcome Cpu)
    → OnDone (Keeps v d) o
    → d.vec v ≡ c.vec v
    → OnDone (Keeps v c) o
OnDone-Keeps v c d (done e) h same = h ∙ same
OnDone-Keeps v c d fault h same = tt
OnDone-Keeps v c d spin h same = tt

-- Whether every vector register that the program writes is one that `f` allows.
abbrev pub all_targets : (ℕ → Bool) → List Instr → Bool
all_targets f [] = true
all_targets f (i ∷ is) = allowed f (target i) && all_targets f is

pub exec-Keeps :
    (f : ℕ → Bool) (is : List Instr) (v : ℕ) (c : Cpu)
    → all_targets f is ≡ true
    → f v ≡ false
    → OnDone (Keeps v c) (exec is c)
unfolding exec
exec-Keeps f [] v c all other = refl
exec-Keeps f (i ∷ is) v c all other =
    let (first, rest) = and_parts (allowed f (target i)) (all_targets f is) all in
    let elsewhere : target i ≢ some v =
      λ e. false≢true (sym other ∙ sym (ap (allowed f) e) ∙ first) in
    OnDone-bind (Keeps v c) (Keeps v c) (step i c) (exec is) (step-Keeps i v c elsewhere) λ d same.
      let later = exec-Keeps f is v d rest other in OnDone-Keeps v c d (exec is d) later same
