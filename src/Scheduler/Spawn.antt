-- ===== src/Scheduler/Spawn.antt =====
-- `spawn_user` of src/scheduler.rs: a kernel stack from the heap of src/mm.rs, and a slot of the
-- task table.
use pinx_kernel.Prelude.{
  ℕ, ◌+◌, ◌%◌, ◌^◌, ◌<◌, ◌≡◌, ◌≢◌, refl, arith, Option, none, some, ◌==◌, false, if◌then◌else◌,
  List, All, update, bit_and, not64, add64, length,
}
use mathlib.Core.Path.{subst}
use pinx_kernel.Prelude.Masks.{and_high}
use pinx_kernel.Heap.{Heap, kmalloc, round_up}
use pinx_kernel.Heap.Tiling.{Block, Tiles, IsHeap, allocations-Held}
use pinx_kernel.Heap.Alloc.{Allocated, Small, refused, full, allocated, kmalloc-Allocated}
use pinx_kernel.Scheduler.{Sched, Task, unused, ready, user, max_tasks}
use pinx_kernel.Scheduler.Ops.{fill_slot}
use pinx_kernel.Scheduler.Wake.{Filled, filled, table_full, fill_slot-Filled}

abbrev pub kernel_stack_size : ℕ
kernel_stack_size = 0x10000

-- `spawn_user`, with the rounds that `kmalloc` may take and the place of the frame that
-- `build_user_frame` builds. `none` where `kmalloc` gives none.
unfoldable pub spawn_user :
    ℕ
    → ((top entry user_stack : ℕ) → ℕ)
    → Heap
    → Sched
    → (entry user_stack : ℕ) → Option (Option ℕ × Heap × Sched)
spawn_user fuel build_user_frame heap s entry user_stack =
    elim (kmalloc fuel heap kernel_stack_size) [
      | none ↦ none
      | some (stack, heap') ↦
          let top = bit_and (add64 stack kernel_stack_size) (not64 0xF) in
          let r = fill_slot s top (build_user_frame top entry user_stack) in
          if stack == 0 then some (none, heap', s) else some (r.0, heap', r.1)
    ]

-- The outcomes of `spawn_user` for a frame that depends on the top of the stack. Without a free
-- block of 64 KiB there is no task, and nothing changes. Otherwise a stack of that size has been
-- allocated; when no slot is unused there is no task, and the stack stays allocated; or an unused
-- slot is Ready for a user task on that stack, and no other part of the scheduler changes.
pub data Spawned (heap : Heap) (bs : List Block) (s : Sched) (frame : ℕ → ℕ)
    : Option (Option ℕ × Heap × Sched) → Type 0 where
  no_stack : All (Small kernel_stack_size) bs → Spawned heap bs s frame (some (none, heap, s))
  no_slot :
      (stack : ℕ) {heap' : Heap}
      → Allocated heap bs kernel_stack_size (some (stack, heap'))
      → stack ≢ 0
      → ((i : ℕ) → i < max_tasks → (s.tasks i).state ≢ unused)
      → Spawned heap bs s frame (some (none, heap', s))
  spawned :
      (stack i : ℕ) (t : Task) {heap' : Heap}
      → Allocated heap bs kernel_stack_size (some (stack, heap'))
      → stack ≢ 0
      → i < max_tasks
      → (s.tasks i).state ≡ unused
      → (t.state ≡ ready)
        × (t.kind ≡ user)
        × (t.kstack ≡ stack + kernel_stack_size)
        × (t.frame ≡ frame (stack + kernel_stack_size))
      → Spawned heap bs s frame (some (some i, heap', record s { tasks = update s.tasks i t }))

-- The top of a stack needs no rounding, and does not wrap.
top_lem :
    (stack : ℕ)
    → stack % 16 ≡ 0
    → stack + kernel_stack_size < 2 ^ 64
    → bit_and (add64 stack kernel_stack_size) (not64 0xF) ≡ stack + kernel_stack_size
top_lem stack al fits =
    let e : add64 stack kernel_stack_size ≡ stack + kernel_stack_size = omega arith in
    omega (arith, and_high 64 4 (add64 stack kernel_stack_size) (omega arith) (omega arith), e)

rounded_stack : round_up kernel_stack_size ≡ kernel_stack_size
unfolding round_up
rounded_stack = refl

module _ (heap : Heap) (bs : List Block) (s : Sched) (frame : ℕ → ℕ) where
  with_stack :
      (stack : ℕ) {heap' : Heap} {out : Option ℕ × Sched}
      → Allocated heap bs kernel_stack_size (some (stack, heap'))
      → stack ≢ 0
      → Filled s (stack + kernel_stack_size) (frame (stack + kernel_stack_size)) out
      → Spawned heap bs s frame (some (out.0, heap', out.1))
  with_stack stack a ne (table_full all) = no_slot stack a ne all
  with_stack stack a ne (filled i t p u h) = spawned stack i t a ne p u h

  from_heap :
      {out : Option (ℕ × Heap)}
      → Allocated heap bs kernel_stack_size out
      → Spawned heap bs s frame (elim out [
        | none ↦ none
        | some (stack, heap') ↦
            let top = bit_and (add64 stack kernel_stack_size) (not64 0xF) in
            let r = fill_slot s top (frame top) in
            if stack == 0 then some (none, heap', s) else some (r.0, heap', r.1)
      ])
  from_heap (refused r) = absurd (ground arith)
  from_heap (full pos low small) = no_stack (subst (λ n. All (Small n) bs) rounded_stack small)
  from_heap (allocated bs' before after ptr bytes {heap'} pos low v same sp old new up al le) =
      let tiles = subst (λ a. Tiles heap'.blocks a a bs') same v.tiles in
      let held =
        allocations-Held heap'.blocks heap.head heap.head bs' before after ptr bytes tiles new in
      let fits : ptr + kernel_stack_size < 2 ^ 64 = omega (arith, held.below, v.fits, same) in
      let some_stack : (ptr == 0) ≡ false = ground arith in
      rw (some_stack, top_lem ptr al fits)
        (with_stack ptr (allocated bs' before after ptr bytes pos low v same sp old new up al le)
          (λ z. omega arith)
          (fill_slot-Filled s (ptr + kernel_stack_size) (frame (ptr + kernel_stack_size))))

-- On a heap in order, with fuel for each of its blocks, `spawn_user` returns. With no free
-- block of 64 KiB it returns None and changes nothing. Otherwise a 16-byte aligned stack of 64 KiB
-- joins the live allocations; if all 64 slots are in use it returns None, changes no task, and the
-- stack stays allocated; or it returns a slot that was unused, which is now Ready for a user task on
-- the top of that stack, with the frame built there, and changes nothing else of the scheduler.
pub spawn_user-Spawned :
    (fuel : ℕ) (build_user_frame : (top entry user_stack : ℕ) → ℕ) (heap : Heap) (bs : List Block)
    (s : Sched) (entry user_stack : ℕ)
    → IsHeap heap bs
    → length bs < fuel
    → Spawned heap bs s
        (λ top. build_user_frame top entry user_stack)
        (spawn_user fuel build_user_frame heap s entry user_stack)
unfolding spawn_user
spawn_user-Spawned fuel build_user_frame heap bs s entry user_stack v enough =
    from_heap heap bs s (λ top. build_user_frame top entry user_stack)
      (kmalloc-Allocated fuel heap bs kernel_stack_size v enough)
