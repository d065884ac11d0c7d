-- ===== src/Scheduler/Tests.antt =====
-- Runs of src/scheduler.rs on two CPUs, and the theorems about it at concrete states.
use pinx_kernel.Prelude.{
  true, Option, some, List, [], ◌∷◌, ℕ, ◌+◌, ◌-◌, ◌*◌, ◌≡◌, ◌≢◌, ◌⊎◌, refl, arith,
}
use pinx_kernel.Scheduler.{Sched, running, slot, pick, pick_from}
use mathlib.Core.Option
use pinx_kernel.Heap.{Heap, kmalloc, new_heap, kheap_start}
use pinx_kernel.Heap.Tiling.{Block, IsHeap}
use pinx_kernel.Scheduler.Spawn.{Spawned, spawn_user, kernel_stack_size, spawn_user-Spawned}
use pinx_kernel.Scheduler.Ops.{
  init_global, init_idles, fill_slot, unused_from, block_current_input, wake_input_waiters,
  schedule, publish, save_frame, choose, switch, resume,
}
use pinx_kernel.Scheduler.Invariant.{IsValid}
use pinx_kernel.Scheduler.Resume.{schedule-IsValid}
use pinx_kernel.Scheduler.Wake.{fill_slot-IsValid}
use pinx_kernel.Scheduler.System.{boot, start, later, spawns, yields, Reach-exclusive, init-IsValid}
use pinx_kernel.Scheduler.Race.{RunsTwice, parked_task-RunsTwice}
use pinx_kernel.Scheduler.Sleep.{wake_sleepers-block_current_until}
use pinx_kernel.Scheduler.Ops.{wake_sleepers, block_current_until}
use pinx_kernel.Scheduler.{ready, blocked}

-- Two CPUs, initialised.
abbrev booted : Sched
booted = init_global (λ c. 0x1000 + 0x1000 * c) (λ c. 0xf00 + 0x1000 * c) 2 boot

-- One task, not yet run.
abbrev one_task : Sched
one_task = (fill_slot booted 0x9000 0x8f00).1

-- CPU 0 runs it.
abbrev one_running : Sched
one_running = (schedule one_task 0 0x8000).1

one_running_current : (one_running.percpu 0).current ≡ slot 0
unfolding init_global init_idles fill_slot unused_from schedule publish save_frame choose switch
    resume pick pick_from
one_running_current = refl

-- A heap of 32 pages.
abbrev heap : Heap
unfolding new_heap
heap = new_heap 32 (λ _. record { size = 0; next = 0; free = 0; reserved = 0 })

abbrev one_block : List Block
one_block = record { size = 131040; free = true } ∷ []

heap-IsHeap : IsHeap heap one_block
unfolding heap
heap-IsHeap = record {
  tiles = (refl, refl, refl, refl);
  not_null = omega arith;
  start_aligned = refl;
  aligned = (refl, tt);
  merged = (refl, tt);
  fits = omega arith;
}

-- The slot and the kernel stack of the first program.
first_spawn :
    Option.map {B = Option ℕ × ℕ}
      (λ (r : Option ℕ × Heap × Sched). (r.0, (r.2.tasks 0).kstack))
      (spawn_user 2 (λ top _ _. top - 176) heap booted 0x400000 0x7FFF_0000)
    ≡ some (some 0, kheap_start + 32 + kernel_stack_size)
unfolding spawn_user kmalloc heap init_global init_idles fill_slot unused_from
first_spawn = refl

spawn_user-Spawned_example :
    Spawned heap one_block booted
      (λ top. top - 176)
      (spawn_user 2 (λ top _ _. top - 176) heap booted 0x400000 0x7FFF_0000)
spawn_user-Spawned_example =
    spawn_user-Spawned 2 (λ top _ _. top - 176) heap one_block booted 0x400000 0x7FFF_0000
      heap-IsHeap (omega arith)

schedule-IsValid_example : IsValid one_running
schedule-IsValid_example = schedule-IsValid one_task 0 0x8000 (
    fill_slot-IsValid booted 0x9000 0x8f00
      (init-IsValid (λ c. 0x1000 + 0x1000 * c) (λ c. 0xf00 + 0x1000 * c) 2))

Reach-exclusive_example :
    ((one_running.tasks 0).state ≡ running)
    × ((◌≡◌ {A = ℕ} 0 1) ⊎ ((one_running.percpu 1).current ≢ slot 0))
    × ((one_running.percpu 1).deferred ≢ slot 0)
Reach-exclusive_example =
    Reach-exclusive 0 1 0
      (later {s = one_task} {t = one_running}
        (later {s = booted} {t = one_task} start (spawns 0x9000 0x8f00 refl))
        (yields 0 0x8000 refl))
      one_running_current

other_cpu : (one_running.percpu 1).current ≢ slot 0
unfolding init_global init_idles fill_slot unused_from schedule publish save_frame choose switch
    resume pick pick_from
other_cpu e = cc

parked_task-RunsTwice_example :
    RunsTwice one_running (wake_input_waiters (block_current_input one_running 0)) 0 1 0 0x7000
parked_task-RunsTwice_example =
    parked_task-RunsTwice one_running 0 1 0 0x7000 (omega arith) (omega arith)
      (unfold init_global init_idles fill_slot unused_from schedule publish save_frame choose switch
          resume pick pick_from in
        refl)
      one_running_current other_cpu
      (unfold init_global init_idles fill_slot unused_from schedule publish save_frame choose switch
          resume pick pick_from in
        refl)
      (λ j l. absurd (omega arith))

wake_sleepers-block_current_until_example :
    (((wake_sleepers (block_current_until one_running 0 50) 60).tasks 0).state ≡ ready)
    × (((wake_input_waiters (block_current_until one_running 0 50)).tasks 0).state ≡ blocked)
    × (((wake_input_waiters (block_current_input one_running 0)).tasks 0).state ≡ ready)
    × (((wake_sleepers (block_current_input one_running 0) 60).tasks 0).state ≡ blocked)
wake_sleepers-block_current_until_example =
    wake_sleepers-block_current_until one_running 0 0 50 60 (omega arith) one_running_current
