-- ===== src/Tests/Pointers.antt =====
-- Examples of init_chasing_index and of the loops that follow the index.
use database_benchmarking_op.Prelude.{
  ℕ, ◌+◌, ◌*◌, ◌/◌, ◌%◌, zero, if◌then◌else◌, ◌==◌, suc, Option, some, ◌≡◌, inl, refl, arith,
}
use database_benchmarking_op.Chasing.Index
use database_benchmarking_op.Chasing.Index.{init_chasing_index}
use database_benchmarking_op.Chasing.Cycle.{IsCycle, OnReturn, init_chasing_index-IsCycle}
use database_benchmarking_op.Machine.{Cpu}
use database_benchmarking_op.Exec.Ensures.{Ensures}
use database_benchmarking_op.Latency.Coverage.{inside, touches}
use database_benchmarking_op.Machine.{u64, exec_code}
use database_benchmarking_op.Memaccess.Strides.{repeated, Strode}
use database_benchmarking_op.Memaccess.ChasingLoops.{chasing_storeclwb, chasing_loadnt}
use database_benchmarking_op.Memaccess.Chase.{chain}
use database_benchmarking_op.Memaccess.ChaseStore.{StridesLinked, chasing_storeclwb-StridesLinked}
use database_benchmarking_op.Memaccess.ChaseStoreLine.{store_line}
use database_benchmarking_op.Memaccess.ChaseTouches.{in_strides, chasing_touches}
use database_benchmarking_op.Memaccess.Linking.{Indexed}
use database_benchmarking_op.Machine.{◌⨾◌}
use database_benchmarking_op.Tests.Inputs.{cpu}

-- Draws that count upwards.
abbrev counting : ℕ → Option ℕ
counting k = some k

init_chasing_index-IsCycle_example : OnReturn (IsCycle 4) (init_chasing_index counting 9 4)
init_chasing_index-IsCycle_example = init_chasing_index-IsCycle counting 9 4 (omega arith)

-- The index of four entries that `counting` gives, at 1024 in memory.
abbrev ring : ℕ → ℕ
ring = Index.put (Index.put (Index.put (λ i. 0) 0 1) 1 2) 2 3

ring_returned : init_chasing_index counting 9 4 ≡ Index.returned ring
unfolding init_chasing_index Index.fill Index.pick Index.get_rand Index.retry
ring_returned = refl

ring-IsCycle : IsCycle 4 ring
ring-IsCycle = rw ring_returned at (init_chasing_index-IsCycle counting 9 4 (omega arith))

abbrev ring_cpu : Cpu
ring_cpu = record cpu { mem = λ a. if a % 8 == 0 then (a / 8 + 1) % 4 else 0 }

ring_cpu-Indexed : Indexed ring 4 1024 ring_cpu.mem
ring_cpu-Indexed zero small = refl
ring_cpu-Indexed (suc zero) small = refl
ring_cpu-Indexed (suc (suc zero)) small = refl
ring_cpu-Indexed (suc (suc (suc zero))) small = refl
ring_cpu-Indexed (suc (suc (suc (suc x)))) small = absurd (omega arith)

chasing_storeclwb-StridesLinked_example :
    Ensures
      (λ d.
        Strode
          (u64 (2 * 512))
          2
          (repeated (chain (store_line 1024) ring 4) 4096 512 2 ring_cpu.history)
          ring_cpu
          d
        × StridesLinked ring 4 4096 512 2 ring_cpu.mem 2 d.mem)
      (exec_code 10 (chasing_storeclwb 4096 256 512 2 1024) ring_cpu)
chasing_storeclwb-StridesLinked_example =
    chasing_storeclwb-StridesLinked ring 4 3 4096 256 512 2 1024 10 ring_cpu ring-IsCycle
      ring_cpu-Indexed refl (omega arith) (omega arith) (omega arith) (omega arith) (omega arith)
      (omega arith) (omega arith) refl refl (omega arith) (omega arith) (omega arith)
      (inl (omega arith))

chasing_touches_example :
    Ensures
      (λ d.
        StridesLinked ring 4 4096 512 2 ring_cpu.mem 2 d.mem
        × ((x : ℕ)
            → touches d.history x
              ≡ 2 * in_strides 4096 512 (4 * 64) 2 x
                + 2 * inside 1024 (4 * 8) x
                + touches ring_cpu.history x))
      (exec_code 10
        (chasing_storeclwb 4096 256 512 2 1024 ⨾ chasing_loadnt 4096 256 512 2 1024)
        ring_cpu)
chasing_touches_example =
    chasing_touches counting 9 ring 4 3 4096 256 512 2 1024 10 ring_cpu ring_returned
      ring_cpu-Indexed refl (omega arith) (omega arith) (omega arith) (omega arith) (omega arith)
      (omega arith) (omega arith) (omega arith) refl refl (omega arith) (omega arith) (omega arith)
      (inl (omega arith))
