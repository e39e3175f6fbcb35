-- ===== src/Machine/Step.antt =====
-- What one instruction, and a sequence of them, does.
use database_benchmarking_op.Prelude.{
  ℕ, ◌+◌, ◌-◌, ◌*◌, ◌/◌, ◌%◌, ◌^◌, bit_and, bit_or, bit_xor, List, [], ◌∷◌, ltb, ◌==◌,
  if◌then◌else◌,
}
use database_benchmarking_op.Machine.Isa.{
  Instr, nop, rdtscp, fence, flush, mov, movl, mov_load, mov_store, lea, add, xor_, and_, or_, andl,
  inc, neg, shl, shr, vbroadcastsd, movq_to_xmm, movq_load_xmm, movq_from_xmm, vmovdqa_load,
  vmovntdqa, vmovdqa_store, vmovnt_store,
}
use database_benchmarking_op.Machine.State.{
  Cpu, Outcome, done, fault, ◌>>=◌, read, nt_read, write, nt_write, access, flushed, fenced, stamp,
  get, put, u64, value_of, address_of, note, le64, byte_of, store_bytes, load_bytes, put_vec,
}

-- A vector access of `w` bytes at `a` raises an exception unless `a` is a multiple of `w`.
abbrev aligned : ℕ → ℕ → Outcome Cpu → Outcome Cpu
aligned w a next = if a % w == 0 then next else fault

-- A vector load clears the register's bytes above `w`.
abbrev pub low_bytes : ℕ → (ℕ → ℕ) → ℕ → ℕ
low_bytes w b i = if ltb i w then b i else 0

-- movq to xmm: eight bytes, eight zero bytes, and the upper bytes as they were.
abbrev pub xmm_bytes : (ℕ → ℕ) → (ℕ → ℕ) → ℕ → ℕ
xmm_bytes b old i = if ltb i 8 then b i else if ltb i 16 then 0 else old i

-- rdtscp: the counter to edx:eax. ecx gets the processor's id.
abbrev read_clock : Cpu → Cpu
read_clock c =
    let now = u64 (c.clock c.reads) in
    record c {
      rax = now % 2 ^ 32;
      rdx = now / 2 ^ 32;
      rcx = c.aux % 2 ^ 32;
      reads = c.reads + 1;
      history = stamp now ∷ c.history;
    }

unfoldable pub step : Instr → Cpu → Outcome Cpu
step nop c = done c
step rdtscp c = done (read_clock c)
step (fence f) c = done (note (fenced f) c)
step (flush f a) c = done (note (flushed f (address_of a c)) c)
step (mov s d) c = done (put d (value_of s c) c)
step (movl s d) c = done (put d (get s c % 2 ^ 32) c)
step (mov_load a d) c =
    let p = address_of a c in done (note (access read p 8) (put d (le64 (load_bytes p c.mem)) c))
step (mov_store s a) c =
    let p = address_of a c in
    done
      (note (access write p 8) (record c { mem = store_bytes p 8 (byte_of (value_of s c)) c.mem }))
step (lea a d) c = done (put d (address_of a c) c)
step (add s d) c = done (put d (u64 (get d c + value_of s c)) c)
step (xor_ s d) c = done (put d (bit_xor (value_of s c) (get d c)) c)
step (and_ s d) c = done (put d (bit_and (value_of s c) (get d c)) c)
step (or_ s d) c = done (put d (bit_or (value_of s c) (get d c)) c)
step (andl n d) c = done (put d (bit_and n (get d c % 2 ^ 32)) c)
step (inc d) c = done (put d (u64 (get d c + 1)) c)
step (neg d) c = done (put d (u64 (2 ^ 64 - get d c)) c)
step (shl k d) c = done (put d (u64 (get d c * 2 ^ k)) c)
step (shr k d) c = done (put d (get d c / 2 ^ k) c)
step (vbroadcastsd n v) c = done (put_vec v (low_bytes 32 (λ i. byte_of n (i % 8))) c)
step (movq_to_xmm s v) c = done (put_vec v (xmm_bytes (byte_of (value_of s c)) (c.vec v)) c)
step (movq_load_xmm a v) c =
    let p = address_of a c in
    done (note (access read p 8) (put_vec v (xmm_bytes (load_bytes p c.mem) (c.vec v)) c))
step (movq_from_xmm v d) c = done (put d (le64 (c.vec v)) c)
step (vmovdqa_load w a v) c =
    let p = address_of a c in
    aligned w p (done (note (access read p w) (put_vec v (low_bytes w (load_bytes p c.mem)) c)))
step (vmovntdqa w a v) c =
    let p = address_of a c in
    aligned w p (done (note (access nt_read p w) (put_vec v (low_bytes w (load_bytes p c.mem)) c)))
step (vmovdqa_store w v a) c =
    let p = address_of a c in
    aligned w p
      (done (note (access write p w) (record c { mem = store_bytes p w (c.vec v) c.mem })))
step (vmovnt_store w v a) c =
    let p = address_of a c in
    aligned w p
      (done (note (access nt_write p w) (record c { mem = store_bytes p w (c.vec v) c.mem })))

unfoldable pub exec : List Instr → Cpu → Outcome Cpu
exec [] c = done c
exec (i ∷ is) c = step i c >>= exec is
