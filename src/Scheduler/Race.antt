-- ===== src/Scheduler/Race.antt =====
-- src/scheduler.rs drops RUNQ between parking the current task and `schedule`. What another CPU
-- can do in that gap.
use pinx_kernel.Prelude.{ℕ, ◌<◌, ◌≡◌, ◌≢◌, refl, sym, ap, ◌∙◌, arith, true, false, update, some}
use pinx_kernel.Scheduler.Sleep.{woken_waiter}
use pinx_kernel.Scheduler.{
  Sched, Task, null, slot, ready, running, blocked, ptr_eq, pick, max_tasks,
}
use pinx_kernel.Scheduler.Ops.{
  block_current_input, wake_input_waiters, schedule, publish, save_frame, choose, switch,
  wake_waiter,
}
use pinx_kernel.Scheduler.Chosen.{
  percpu-modify, initialized-modify, kernel_stack-modify, tasks-modify, state-save_frame,
  ptr_eq-false, pick_from-first, schedule_lem, switch_lem,
}

-- Slot `i` is current on CPU `c` and on CPU `d`, and runs: `d`, which was interrupted at `frame`,
-- resumes the frame that the task had saved before, on the task's kernel stack, while `c` has still
-- the kernel stack that it had.
pub record RunsTwice (s t : Sched) (c d i frame : ℕ) : Type 0 where
  pub on_c : ((schedule t d frame).1.percpu c).current ≡ slot i
  pub on_d : ((schedule t d frame).1.percpu d).current ≡ slot i
  pub runs : ((schedule t d frame).1.tasks i).state ≡ running
  pub resumes : (schedule t d frame).0 ≡ (s.tasks i).frame
  pub stack_d : (schedule t d frame).1.kernel_stack d ≡ (s.tasks i).kstack
  pub stack_c : (schedule t d frame).1.kernel_stack c ≡ s.kernel_stack c

module _ (s : Sched) (c i : ℕ) (low : i < max_tasks) (h : (s.percpu c).current ≡ slot i)
    (before : (j : ℕ) → j < i → ((s.tasks j).state ≢ ready) × ((s.tasks j).state ≢ blocked)) where
  woken : Sched
  woken = wake_input_waiters (block_current_input s c)

  parked :
      (block_current_input s c).tasks
      ≡ update s.tasks i (record (s.tasks i) { state = blocked; wake_tick = 0; wait_input = true })
  unfolding block_current_input
  parked = rw h refl

  woken_task :
      woken.tasks i ≡ record (s.tasks i) { state = ready; wake_tick = 0; wait_input = false }
  unfolding woken wake_waiter
  woken_task =
      woken_waiter (block_current_input s c) i low
      ∙ ap (λ f. wake_waiter (f i)) parked
      ∙ ground arith

  lower_task : (j : ℕ) → j < i → (woken.tasks j).state ≢ ready
  unfolding woken
  lower_task j l e =
      let same : (block_current_input s c).tasks j ≡ s.tasks j =
        ap (λ f. f j) parked ∙ ground arith in
      asleep (s.tasks j) (before j l) (
        ap (λ (t : Task). t.state)
          (ap wake_waiter (sym same) ∙ sym (woken_waiter (block_current_input s c) j (omega arith)))
        ∙ e)
    where
      asleep : (t : Task) → (t.state ≢ ready) × (t.state ≢ blocked) → (wake_waiter t).state ≢ ready
      asleep t h e = unfold wake_waiter in ground (arith, h.0, h.1)

  percpu-woken : woken.percpu ≡ s.percpu
  unfolding woken wake_input_waiters block_current_input
  percpu-woken = percpu-modify s _ _

  initialized-woken : woken.initialized ≡ s.initialized
  unfolding woken wake_input_waiters block_current_input
  initialized-woken = initialized-modify s _ _

  kernel_stack-woken : woken.kernel_stack ≡ s.kernel_stack
  unfolding woken wake_input_waiters block_current_input
  kernel_stack-woken = kernel_stack-modify s _ _

  module _ (d frame : ℕ) (ne : c ≢ d) (elsewhere : (s.percpu d).current ≢ slot i)
      (settled : (s.percpu d).deferred ≡ null) where
    saved : Sched
    saved = save_frame woken d frame

    published : publish woken d ≡ woken
    unfolding publish
    published = rw (percpu-woken, settled) refl

    away : ptr_eq (slot i) (woken.percpu d).current ≡ false
    away =
        ap (λ f. ptr_eq (slot i) (f d).current) percpu-woken
        ∙ ptr_eq-false i (s.percpu d).current elsewhere

    saved_task : saved.tasks i ≡ woken.tasks i
    unfolding saved save_frame
    saved_task = tasks-modify woken (woken.percpu d).current _ i away

    percpu-saved : saved.percpu ≡ woken.percpu
    unfolding saved save_frame
    percpu-saved = percpu-modify woken _ _

    kernel_stack-saved : saved.kernel_stack ≡ s.kernel_stack
    unfolding saved save_frame
    kernel_stack-saved = kernel_stack-modify woken _ _ ∙ kernel_stack-woken

    saved_state : (j : ℕ) → (saved.tasks j).state ≡ (woken.tasks j).state
    unfolding saved save_frame
    saved_state j = state-save_frame woken (woken.percpu d).current frame j

    still_away : ptr_eq (slot i) (saved.percpu d).current ≡ false
    still_away = ap (λ f. ptr_eq (slot i) (f d).current) percpu-saved ∙ away

    picked : pick saved (saved.percpu d).current ≡ slot i
    unfolding pick
    picked =
        pick_from-first saved (saved.percpu d).current i 64 0 (omega arith) low
          (saved_state i ∙ ap (λ (t : Task). t.state) woken_task) still_away
          (λ j l e. lower_task j l (sym (saved_state j) ∙ e))

    chosen : choose saved d ≡ some (slot i)
    unfolding choose
    chosen = rw picked refl

    scheduled :
        s.initialized ≡ true
        → schedule woken d frame ≡ ((saved.tasks i).frame, switch saved d (slot i))
    unfolding saved
    scheduled on =
        schedule_lem woken d i frame (initialized-woken ∙ on)
          (ap (λ t. choose (save_frame t d frame) d) published ∙ chosen)
        ∙ ap
            (λ t.
              (((save_frame t d frame).tasks i).frame, switch (save_frame t d frame) d (slot i)))
            published

-- CPU `c` parks its current task, slot `i`, for input, and lets go of RUNQ; before it reaches
-- `schedule`, the waiters are woken and CPU `d` runs `schedule`, with no task to publish and none
-- in a lower slot that is Ready or Blocked. Then `d` takes the task: it is current on both CPUs, `d`
-- resumes the frame that the task had saved before, and `d` has the task's kernel stack while
-- `c` keeps the kernel stack that it had.
pub parked_task-RunsTwice :
    (s : Sched) (c d i frame : ℕ)
    → c ≢ d
    → i < max_tasks
    → s.initialized ≡ true
    → (s.percpu c).current ≡ slot i
    → (s.percpu d).current ≢ slot i
    → (s.percpu d).deferred ≡ null
    → ((j : ℕ) → j < i → ((s.tasks j).state ≢ ready) × ((s.tasks j).state ≢ blocked))
    → RunsTwice s (wake_input_waiters (block_current_input s c)) c d i frame
unfolding woken
parked_task-RunsTwice s c d i frame ne low on h elsewhere settled before =
    let run = scheduled s c i low h before d frame ne elsewhere settled on in
    let w = saved s c i low h before d frame ne elsewhere settled in
    let (here, there, runs, own, kept) =
      switch_lem w c d i ne (still_away s c i low h before d frame ne elsewhere settled) in
    let task =
      saved_task s c i low h before d frame ne elsewhere settled ∙ woken_task s c i low h before in
    record {
      on_c =
          ap (λ r. (r.1.percpu c).current) run
          ∙ there
          ∙ ap (λ f. (f c).current)
              (percpu-saved s c i low h before d frame ne elsewhere settled
                ∙ percpu-woken s c i low h before)
          ∙ h;
      on_d = ap (λ r. (r.1.percpu d).current) run ∙ here;
      runs = ap (λ r. (r.1.tasks i).state) run ∙ runs;
      resumes = ap (λ r. r.0) run ∙ ap (λ (t : Task). t.frame) task;
      stack_d = ap (λ r. r.1.kernel_stack d) run ∙ own ∙ ap (λ (t : Task). t.kstack) task;
      stack_c =
          ap (λ r. r.1.kernel_stack c) run
          ∙ kept
          ∙ ap (λ f. f c) (kernel_stack-saved s c i low h before d frame ne elsewhere settled);
    }
