-- ===== src/Scheduler/Chosen.antt =====
-- A `schedule` of src/scheduler.rs that takes a slot of the table: the scan of `pick`, the switch,
-- and what they leave alone.
use pinx_kernel.Prelude.{
  ℕ, zero, suc, ◌+◌, ◌<◌, ◌≤◌, ◌≡◌, ◌≢◌, refl, ap, arith, true, false, not, ◌&&◌, ◌==◌, Bool-cases,
  inl, inr, if◌then◌else◌, some,
}
use mathlib.Core.Path.{subst}
use pinx_kernel.Scheduler.{
  Sched, Task, TaskPtr, TaskState, null, slot, idle_slot, modify, ready, running, state_eq, ptr_eq,
  pick_from,
}
use pinx_kernel.Scheduler.Ops.{schedule, publish, save_frame, choose, switch, resume}

pub percpu-modify : (s : Sched) (p : TaskPtr) (f : Task → Task) → (modify s p f).percpu ≡ s.percpu
percpu-modify s null f = refl
percpu-modify s (slot i) f = refl
percpu-modify s (idle_slot c) f = refl

pub initialized-modify :
    (s : Sched) (p : TaskPtr) (f : Task → Task) → (modify s p f).initialized ≡ s.initialized
initialized-modify s null f = refl
initialized-modify s (slot i) f = refl
initialized-modify s (idle_slot c) f = refl

pub kernel_stack-modify :
    (s : Sched) (p : TaskPtr) (f : Task → Task) → (modify s p f).kernel_stack ≡ s.kernel_stack
kernel_stack-modify s null f = refl
kernel_stack-modify s (slot i) f = refl
kernel_stack-modify s (idle_slot c) f = refl

-- A slot other than the one that is modified.
pub tasks-modify :
    (s : Sched) (p : TaskPtr) (f : Task → Task) (i : ℕ)
    → ptr_eq (slot i) p ≡ false
    → (modify s p f).tasks i ≡ s.tasks i
tasks-modify s null f i ne = refl
tasks-modify s (slot j) f i ne = ground arith
tasks-modify s (idle_slot c) f i ne = refl

pub state-save_frame :
    (s : Sched) (p : TaskPtr) (frame j : ℕ)
    → ((modify s p (λ t. record t { frame = frame })).tasks j).state ≡ (s.tasks j).state
state-save_frame s null frame j = refl
state-save_frame s (slot k) frame j = ground (arith, ap s.tasks {x = k} {y = j})
state-save_frame s (idle_slot c) frame j = refl

pub ptr_eq-false : (i : ℕ) (p : TaskPtr) → p ≢ slot i → ptr_eq (slot i) p ≡ false
ptr_eq-false i null ne = refl
ptr_eq-false i (slot j) ne = elim (Bool-cases (i == j)) [
  | inl e ↦ absurd (ne (ap slot (ground arith)))
  | inr e ↦ e
]
ptr_eq-false i (idle_slot c) ne = refl

-- The scan of `pick` stops at slot `i`, when none before it is Ready.
pub pick_from-first :
    (s : Sched) (cur : TaskPtr) (i left k : ℕ)
    → k ≤ i
    → i < k + left
    → (s.tasks i).state ≡ ready
    → ptr_eq (slot i) cur ≡ false
    → ((j : ℕ) → j < i → (s.tasks j).state ≢ ready)
    → pick_from s cur left k ≡ slot i
unfolding pick_from
pick_from-first s cur i zero k l h r ne before = absurd (omega arith)
pick_from-first s cur i (suc left) k l h r ne before = elim (Bool-cases (k == i)) [
  | inl e ↦
      let here : i ≡ k = ground arith in
      let go : (k : ℕ)
          → i ≡ k
          → (if state_eq (s.tasks k).state ready && not (ptr_eq (slot k) cur)
              then slot k
              else pick_from s cur left (k + 1))
            ≡ slot i =
        λ k e.
          subst
            (λ k.
              (if state_eq (s.tasks k).state ready && not (ptr_eq (slot k) cur)
                then slot k
                else pick_from s cur left (k + 1))
              ≡ slot i)
            e (rw (r, ne) refl) in
      go k here
  | inr e ↦
      let other : state_eq (s.tasks k).state ready ≡ false =
        not_ready (s.tasks k).state (before k (ground arith)) in
      rw other (pick_from-first s cur i left (k + 1) (ground arith) (omega arith) r ne before)
]
  where
    not_ready : (t : TaskState) → t ≢ ready → state_eq t ready ≡ false
    not_ready t ne = elim (Bool-cases (state_eq t ready)) [
      | inl y ↦ absurd (ne (ground arith))
      | inr n ↦ n
    ]

-- `schedule` when it chooses slot `i`.
pub schedule_lem :
    (t : Sched) (d i frame : ℕ)
    → t.initialized ≡ true
    → choose (save_frame (publish t d) d frame) d ≡ some (slot i)
    → schedule t d frame ≡ (
      ((save_frame (publish t d) d frame).tasks i).frame,
      switch (save_frame (publish t d) d frame) d (slot i),
    )
unfolding schedule resume
schedule_lem t d i frame on e = ground arith

-- What `switch` to slot `i` does to the CPU that makes it, and to another.
pub switch_lem :
    (w : Sched) (c d i : ℕ)
    → c ≢ d
    → ptr_eq (slot i) (w.percpu d).current ≡ false
    → (((switch w d (slot i)).percpu d).current ≡ slot i)
      × (((switch w d (slot i)).percpu c).current ≡ (w.percpu c).current)
      × (((switch w d (slot i)).tasks i).state ≡ running)
      × ((switch w d (slot i)).kernel_stack d ≡ (w.tasks i).kstack)
      × ((switch w d (slot i)).kernel_stack c ≡ w.kernel_stack c)
unfolding switch
switch_lem w c d i ne away =
    rw away (ground arith, ground arith, ground arith, ground arith, ground arith)
