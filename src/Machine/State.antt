-- ===== src/Machine/State.antt =====
-- The processor as the asm statements see it: registers, memory by the byte, the time-stamp counter,
-- and a history of the accesses, flushes and fences made, latest first.
use database_benchmarking_op.Prelude.{
  ℕ, ◌+◌, ◌-◌, ◌*◌, ◌/◌, ◌%◌, ◌^◌, List, ◌∷◌, ltb, leb, ◌&&◌, if◌then◌else◌,
}
use database_benchmarking_op.Machine.Isa.{
  Reg, rsi, rax, rdx, rcx, r8, r9, r10, r11, r12, t1, t2, Operand, reg, imm, Address, FlushOp,
  FenceOp,
}

pub data Access : Type 0 where
  read nt_read write nt_write : Access

pub data Event : Type 0 where
  access : Access → ℕ → ℕ → Event  -- kind, address, width in bytes
  flushed : FlushOp → ℕ → Event
  fenced : FenceOp → Event
  stamp : ℕ → Event  -- a reading of the time-stamp counter

-- `fault` is the exception that an unaligned vector access raises; `spin` is a loop that is still
-- running when the fuel of the model ends.
pub data Outcome {ℓ} (A : Type ℓ) : Type ℓ where
  done : A → Outcome A
  fault spin : Outcome A

infixl 5 ◌>>=◌
abbrev pub ◌>>=◌ {ℓ κ} : {A : Type ℓ} {B : Type κ} → Outcome A → (A → Outcome B) → Outcome B
done a >>= f = f a
fault >>= f = fault
spin >>= f = spin

-- General registers are 64-bit values; `vec i` holds the bytes of zmm i, lowest first.
-- `clock n` is what the n-th execution of rdtscp reads, and `aux` the
-- processor's id that it reads with it.
pub record Cpu : Type 0 where
  pub rsi : ℕ
  pub rax : ℕ
  pub rdx : ℕ
  pub rcx : ℕ
  pub r8 : ℕ
  pub r9 : ℕ
  pub r10 : ℕ
  pub r11 : ℕ
  pub r12 : ℕ
  pub t1 : ℕ
  pub t2 : ℕ
  pub vec : ℕ → ℕ → ℕ
  pub mem : ℕ → ℕ
  pub clock : ℕ → ℕ
  pub reads : ℕ
  pub aux : ℕ
  pub history : List Event

abbrev pub get : Reg → Cpu → ℕ
get rsi c = c.rsi
get rax c = c.rax
get rdx c = c.rdx
get rcx c = c.rcx
get r8 c = c.r8
get r9 c = c.r9
get r10 c = c.r10
get r11 c = c.r11
get r12 c = c.r12
get t1 c = c.t1
get t2 c = c.t2

abbrev pub put : Reg → ℕ → Cpu → Cpu
put rsi v c = record c { rsi = v }
put rax v c = record c { rax = v }
put rdx v c = record c { rdx = v }
put rcx v c = record c { rcx = v }
put r8 v c = record c { r8 = v }
put r9 v c = record c { r9 = v }
put r10 v c = record c { r10 = v }
put r11 v c = record c { r11 = v }
put r12 v c = record c { r12 = v }
put t1 v c = record c { t1 = v }
put t2 v c = record c { t2 = v }

abbrev pub u64 : ℕ → ℕ
u64 n = n % 2 ^ 64

abbrev pub value_of : Operand → Cpu → ℕ
value_of (reg r) c = get r c
value_of (imm n) c = n

abbrev pub address_of : Address → Cpu → ℕ
address_of a c = u64 (value_of a.base c + (a.disp + value_of a.index c * a.scale))

abbrev pub note : Event → Cpu → Cpu
note e c = record c { history = e ∷ c.history }

-- The eight bytes from index i of a byte sequence as a little-endian value, and back.
abbrev pub le64 : (ℕ → ℕ) → ℕ
le64 b =
    b 0
    + 2 ^ 8 * b 1
    + 2 ^ 16 * b 2
    + 2 ^ 24 * b 3
    + 2 ^ 32 * b 4
    + 2 ^ 40 * b 5
    + 2 ^ 48 * b 6
    + 2 ^ 56 * b 7

abbrev pub byte_of : ℕ → ℕ → ℕ
byte_of v i = v / 2 ^ (8 * i) % 2 ^ 8

-- The bytes `b` written to the `w` addresses from `a` on.
abbrev pub store_bytes : ℕ → ℕ → (ℕ → ℕ) → (ℕ → ℕ) → ℕ → ℕ
store_bytes a w b m x = if leb a x && ltb x (a + w) then b (x - a) else m x

abbrev pub load_bytes : ℕ → (ℕ → ℕ) → ℕ → ℕ
load_bytes a m i = m (a + i)

abbrev pub put_vec : ℕ → (ℕ → ℕ) → Cpu → Cpu
put_vec v b c = record c { vec = λ i. if leb v i && leb i v then b else c.vec i }
