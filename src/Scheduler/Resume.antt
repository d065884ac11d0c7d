-- ===== src/Scheduler/Resume.antt =====
-- The choice that `schedule` of src/scheduler.rs makes, and the switch to it.
use pinx_kernel.Prelude.{
  ℕ, ◌≡◌, ◌≢◌, refl, ap, ◌∙◌, arith, true, false, not, ◌&&◌, if◌then◌else◌, if_elim, update,
  Bool-cases, inl, inr, Option, none, some, Option-cases,
}
use pinx_kernel.Scheduler.{
  Sched, Task, TaskPtr, ready, running, null, slot, idle_slot, state_eq, is_user, ptr_eq, is_null,
  deref, modify, pick,
}
use pinx_kernel.Scheduler.Ops.{publish, save_frame, choose, switch, schedule, resume}
use mathlib.Core.Path.{subst}
use pinx_kernel.Scheduler.Invariant.{
  Between, IsValid, IsValid-Between, Picked, nobody, somebody, pick-Picked,
}
use pinx_kernel.Scheduler.Switch.{Published, TaskPtr-cases, publish-Published, save_frame-Published}

-- What `choose` returns: the early return, when the current task is none of the table; the current
-- task, still running; a ready task; or a task outside the table.
data Chosen (s : Sched) (cpu : ℕ) : Option TaskPtr → Type 0 where
  early : ((i : ℕ) → (s.percpu cpu).current ≢ slot i) → Chosen s cpu none
  keep :
      (p : TaskPtr)
      → p ≡ (s.percpu cpu).current
      → ((i : ℕ) → p ≡ slot i → (s.tasks i).state ≡ running)
      → Chosen s cpu (some p)
  take :
      (j : ℕ)
      → (s.tasks j).state ≡ ready
      → ptr_eq (slot j) (s.percpu cpu).current ≡ false
      → Chosen s cpu (some (slot j))
  rest : Chosen s cpu (some (idle_slot cpu))

module _ (s : Sched) (cpu : ℕ) (p : Published cpu s) where
  open p use {between as b, none_deferred}

  abbrev cur : TaskPtr
  cur = (s.percpu cpu).current

  waiting :
      {next : TaskPtr}
      → Picked s cur next
      → is_null next ≡ true
      → Chosen s cpu (
          if not (is_null cur) && is_user (deref s cur).kind && state_eq (deref s cur).state running
          then some cur
          else if not (is_null cur) && not (is_user (deref s cur).kind)
          then none
          else some (idle_slot cpu))
  waiting q h =
      if_elim (Chosen s cpu)
        (not (is_null cur) && is_user (deref s cur).kind && state_eq (deref s cur).state running)
        (λ t. keep cur refl (λ i e. runs i e (ap (deref s) e) t))
        (λ _.
          if_elim (Chosen s cpu) (not (is_null cur) && not (is_user (deref s cur).kind))
            (λ t. early (λ i e. outside i e (ap (deref s) e) t)) (λ _. rest))
    where
      runs :
          (i : ℕ)
          → cur ≡ slot i
          → deref s cur ≡ s.tasks i
          → (not (is_null cur)
              && is_user (deref s cur).kind
              && state_eq (deref s cur).state running)
            ≡ true
          → (s.tasks i).state ≡ running
      runs i e d t = ground arith

      outside :
          (i : ℕ)
          → cur ≡ slot i
          → deref s cur ≡ s.tasks i
          → (not (is_null cur) && not (is_user (deref s cur).kind)) ≡ true
          → ⊥
      outside i e d t = ground (arith, b.current_known i e, b.user_tasks i)

  choose-Chosen : Chosen s cpu (choose s cpu)
  unfolding choose
  choose-Chosen =
      if_elim (Chosen s cpu) (is_null (pick s cur)) (waiting (pick-Picked s cur))
        (λ t. picked (pick-Picked s cur) t)
    where
      picked :
          {next : TaskPtr} → Picked s cur next → is_null next ≡ false → Chosen s cpu (some next)
      picked nobody t = cc
      picked (somebody j r ne) t = take j r ne

  module _ (j : ℕ) (d : TaskPtr) (is_ready : (s.tasks j).state ≡ ready)
      (ne : ptr_eq (slot j) cur ≡ false)
      (left : (i : ℕ) → d ≡ slot i → (cur ≡ slot i) × ((s.tasks i).state ≡ running)) where
    abbrev taken : (ℕ → ℕ) → Task → Sched
    taken stacks t = record s {
      tasks = update s.tasks j t;
      percpu = update s.percpu cpu (record { current = slot j; deferred = d });
      kernel_stack = stacks;
    }

    taken-IsValid :
        (stacks : ℕ → ℕ) (t : Task)
        → t.state ≡ running
        → t.kind ≡ (s.tasks j).kind
        → IsValid (taken stacks t)
    taken-IsValid stacks t r k =
        IsValid-Between cpu (taken stacks t)
          (record {
            current_running = λ c i n h. ground (arith, b.current_running c i);
            current_known = λ i h. ground arith;
            deferred_running = λ c i h. ground (arith, b.deferred_running c i, left i);
            current_alone = λ x y i u v.
                ground (arith, b.current_alone x y i, b.current_running x i, b.current_running y i);
            deferred_alone = λ x y i u v.
                ground (arith, b.deferred_alone x y i, left i, b.apart cpu x i, b.apart cpu y i);
            apart = λ x y i u v. ground (
              arith,
              b.apart x y i,
              left i,
              b.deferred_running y i,
              b.current_alone x cpu i,
              b.current_running x i,
            );
            user_tasks = λ i h. ground (arith, b.user_tasks i, b.user_tasks j);
          })
          (λ i h. ground arith)

  -- What the switch leaves deferred: the task it switches away from, if that runs.
  abbrev leaves : TaskPtr
  leaves =
      if not (is_null cur) && is_user (deref s cur).kind && state_eq (deref s cur).state running
      then cur
      else (s.percpu cpu).deferred

  leaves_running : (i : ℕ) → leaves ≡ slot i → (cur ≡ slot i) × ((s.tasks i).state ≡ running)
  leaves_running i =
      if_elim (λ d. d ≡ slot i → (cur ≡ slot i) × ((s.tasks i).state ≡ running))
        (not (is_null cur) && is_user (deref s cur).kind && state_eq (deref s cur).state running)
        (λ t e. (e, running_there e (ap (deref s) e) t)) (λ _ e. cc (none_deferred))
    where
      running_there :
          cur ≡ slot i
          → deref s cur ≡ s.tasks i
          → (not (is_null cur)
              && is_user (deref s cur).kind
              && state_eq (deref s cur).state running)
            ≡ true
          → (s.tasks i).state ≡ running
      running_there e d t = ground arith

  ptr_eq_self : (q : TaskPtr) → ptr_eq q q ≡ true
  ptr_eq_self null = refl
  ptr_eq_self (slot i) = ground arith
  ptr_eq_self (idle_slot c) = ground arith

  -- Resuming the current task.
  kept-IsValid :
      ((i : ℕ) → cur ≡ slot i → (s.tasks i).state ≡ running)
      → IsValid (modify s cur (λ t. record t { state = running; cpu = cpu }))
  kept-IsValid runs = elim (TaskPtr-cases cur) [
    | inl e ↦ rw e (IsValid-Between cpu s b runs)
    | inr (inl (j, e)) ↦ rw e (again j e)
    | inr (inr (d, e)) ↦ rw e (outside d)
  ]
    where
      again :
          (j : ℕ)
          → cur ≡ slot j
          → IsValid (modify s (slot j) (λ t. record t { state = running; cpu = cpu }))
      again j e =
          IsValid-Between cpu (modify s (slot j) (λ t. record t { state = running; cpu = cpu }))
            (record {
              current_running = λ c i n h. ground (arith, b.current_running c i);
              current_known = λ i h. ground (arith, b.current_known i);
              deferred_running = λ c i h. ground (arith, b.deferred_running c i);
              current_alone = b.current_alone;
              deferred_alone = b.deferred_alone;
              apart = b.apart;
              user_tasks = λ i h. ground (
                arith,
                b.user_tasks i,
                b.current_known i,
                ap s.tasks {x = j} {y = i},
                runs j e,
                b.user_tasks j,
              );
            })
            (λ i h. ground (arith, runs i))

      outside :
          (d : ℕ) → IsValid (modify s (idle_slot d) (λ t. record t { state = running; cpu = cpu }))
      outside d =
          IsValid-Between cpu
            (modify s (idle_slot d) (λ t. record t { state = running; cpu = cpu }))
            (record {
              current_running = b.current_running;
              current_known = b.current_known;
              deferred_running = b.deferred_running;
              current_alone = b.current_alone;
              deferred_alone = b.deferred_alone;
              apart = b.apart;
              user_tasks = b.user_tasks;
            })
            runs

  -- Falling back to the idle task.
  module _ (d : TaskPtr)
      (left : (i : ℕ) → d ≡ slot i → (cur ≡ slot i) × ((s.tasks i).state ≡ running)) where
    abbrev idled : (ℕ → Task) → (ℕ → ℕ) → Sched
    idled idles stacks = record s {
      idles = idles;
      percpu = update s.percpu cpu (record { current = idle_slot cpu; deferred = d });
      kernel_stack = stacks;
    }

    idled-IsValid : (idles : ℕ → Task) (stacks : ℕ → ℕ) → IsValid (idled idles stacks)
    idled-IsValid idles stacks =
        IsValid-Between cpu (idled idles stacks)
          (record {
            current_running = λ c i n h. ground (arith, b.current_running c i);
            current_known = λ i h. ground arith;
            deferred_running = λ c i h. ground (arith, b.deferred_running c i, left i);
            current_alone = λ x y i u v. ground (arith, b.current_alone x y i);
            deferred_alone = λ x y i u v.
                ground (arith, b.deferred_alone x y i, left i, b.apart cpu x i, b.apart cpu y i);
            apart = λ x y i u v. ground (arith, b.apart x y i, left i, b.current_alone x cpu i);
            user_tasks = λ i h. b.user_tasks i h;
          })
          (λ i h. ground arith)

  abbrev outcome : ℕ → Option TaskPtr → ℕ × Sched
  outcome frame none = (frame, s)
  outcome frame (some next) = ((deref s next).frame, switch s cpu next)

  switch-IsValid : (frame : ℕ) {o : Option TaskPtr} → Chosen s cpu o → IsValid (outcome frame o).1
  unfolding switch
  switch-IsValid frame (early none_here) = IsValid-Between cpu s b (λ i h. absurd (none_here i h))
  switch-IsValid frame (keep q e runs) =
      rw (e, ptr_eq_self cur) (kept-IsValid (λ i h. runs i (e ∙ h)))
  switch-IsValid frame (take j r ne) =
      rw ne (taken-IsValid j leaves r ne leaves_running _ _ refl refl)
  switch-IsValid frame rest = elim (Bool-cases (ptr_eq (idle_slot cpu) cur)) [
    | inl same ↦ rw same (idled_again same)
    | inr other ↦ rw other (idled-IsValid leaves leaves_running _ _)
  ]
    where
      idled_again :
          ptr_eq (idle_slot cpu) cur ≡ true
          → IsValid (modify s (idle_slot cpu) (λ t. record t { state = running; cpu = cpu }))
      idled_again same =
          IsValid-Between cpu
            (modify s (idle_slot cpu) (λ t. record t { state = running; cpu = cpu }))
            (record {
              current_running = b.current_running;
              current_known = b.current_known;
              deferred_running = b.deferred_running;
              current_alone = b.current_alone;
              deferred_alone = b.deferred_alone;
              apart = b.apart;
              user_tasks = b.user_tasks;
            })
            (λ i h. absurd (ground arith))

  resume-IsValid : (frame : ℕ) → IsValid (resume s cpu frame).1
  unfolding resume
  resume-IsValid frame = elim (Option-cases (choose s cpu)) [
    | inl e ↦
        rw (e, resume)
          (subst (λ o. IsValid (outcome frame o).1) e (switch-IsValid frame choose-Chosen))
    | inr (q, e) ↦
        rw (e, resume)
          (subst (λ o. IsValid (outcome frame o).1) e (switch-IsValid frame choose-Chosen))
  ]

-- From a state in which only `cpu` may have changed its current task's state, `schedule` on `cpu`
-- restores the invariant.
pub schedule-Between :
    (s : Sched) (cpu frame : ℕ)
    → s.initialized ≡ true
    → Between cpu s
    → IsValid (schedule s cpu frame).1
unfolding schedule
schedule-Between s cpu frame on b =
    if_elim (λ (out : ℕ × Sched). IsValid out.1) (not s.initialized) (λ off. cc)
      (λ _.
        resume-IsValid (save_frame (publish s cpu) cpu frame) cpu
          (save_frame-Published cpu (publish s cpu) frame (publish-Published cpu s b)) frame)

-- `schedule` keeps the invariant, whichever CPU calls it and before initialisation too.
pub schedule-IsValid : (s : Sched) (cpu frame : ℕ) → IsValid s → IsValid (schedule s cpu frame).1
unfolding schedule
schedule-IsValid s cpu frame v =
    if_elim (λ (out : ℕ × Sched). IsValid out.1) (not s.initialized) (λ off. v)
      (λ _.
        resume-IsValid (save_frame (publish s cpu) cpu frame) cpu
          (save_frame-Published cpu (publish s cpu) frame (publish-Published cpu s (v.at cpu)))
          frame)
