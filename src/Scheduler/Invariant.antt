-- ===== src/Scheduler/Invariant.antt =====
-- Who may hold a task of src/scheduler.rs: the CPU that runs it, or the one that left it last.
use pinx_kernel.Prelude.{
  ℕ, zero, suc, ◌+◌, ◌≡◌, ◌≢◌, ap, ◌∙◌, arith, Bool, true, false, not, ◌&&◌, ◌==◌, if_elim,
  Bool-cases, inl, inr,
}
use pinx_kernel.Scheduler.{
  Sched, TaskPtr, TaskState, unused, ready, running, user, null, slot, state_eq, ptr_eq, pick,
  pick_from, max_tasks,
}

-- `cpu` may stand between a change of its current task's state and the next `schedule`; at every
-- other CPU the current task runs. A slot is current on one CPU, or deferred by one, and not both.
pub record Between (cpu : ℕ) (s : Sched) : Type 0 where
  pub current_running :
      (c i : ℕ) → c ≢ cpu → (s.percpu c).current ≡ slot i → (s.tasks i).state ≡ running
  pub current_known : (i : ℕ) → (s.percpu cpu).current ≡ slot i → (s.tasks i).state ≢ unused
  pub deferred_running : (c i : ℕ) → (s.percpu c).deferred ≡ slot i → (s.tasks i).state ≡ running
  pub current_alone :
      (c d i : ℕ) → (s.percpu c).current ≡ slot i → (s.percpu d).current ≡ slot i → c ≡ d
  pub deferred_alone :
      (c d i : ℕ) → (s.percpu c).deferred ≡ slot i → (s.percpu d).deferred ≡ slot i → c ≡ d
  pub apart : (c d i : ℕ) → (s.percpu c).current ≡ slot i → (s.percpu d).deferred ≢ slot i
  pub user_tasks : (i : ℕ) → (s.tasks i).state ≢ unused → (s.tasks i).kind ≡ user

-- The invariant between operations: every current task of the table is Running.
pub record IsValid (s : Sched) : Type 0 where
  pub at : (cpu : ℕ) → Between cpu s
  pub runs : (c i : ℕ) → (s.percpu c).current ≡ slot i → (s.tasks i).state ≡ running

pub IsValid-Between :
    (cpu : ℕ) (s : Sched)
    → Between cpu s
    → ((i : ℕ) → (s.percpu cpu).current ≡ slot i → (s.tasks i).state ≡ running)
    → IsValid s
IsValid-Between cpu s b r = record {
  at = λ c. record {
    current_running = λ d i _. all d i;
    current_known = λ i h. ground (arith, all c i);
    deferred_running = b.deferred_running;
    current_alone = b.current_alone;
    deferred_alone = b.deferred_alone;
    apart = b.apart;
    user_tasks = b.user_tasks;
  };
  runs = all;
}
  where
    all : (c i : ℕ) → (s.percpu c).current ≡ slot i → (s.tasks i).state ≡ running
    all c i h = elim (Bool-cases (c == cpu)) [
      | inl e ↦ let same : cpu ≡ c = ground arith in r i (ap (λ d. (s.percpu d).current) same ∙ h)
      | inr e ↦ b.current_running c i (ground arith) h
    ]

-- What `pick` returns: null, or a ready slot other than the current one.
pub data Picked (s : Sched) (cur : TaskPtr) : TaskPtr → Type 0 where
  nobody : Picked s cur null
  somebody :
      (j : ℕ) → (s.tasks j).state ≡ ready → ptr_eq (slot j) cur ≡ false → Picked s cur (slot j)

state_eq-eq : (a b : TaskState) → state_eq a b ≡ true → a ≡ b
state_eq-eq a b h = ground arith

and_true : (a b : Bool) → (a && not b) ≡ true → (a ≡ true) × (b ≡ false)
and_true a b h = ground arith

pick_from-Picked : (s : Sched) (cur : TaskPtr) (left i : ℕ) → Picked s cur (pick_from s cur left i)
unfolding pick_from
pick_from-Picked s cur zero i = nobody
pick_from-Picked s cur (suc left) i =
    if_elim (Picked s cur) (state_eq (s.tasks i).state ready && not (ptr_eq (slot i) cur))
      (λ t.
        let both = and_true (state_eq (s.tasks i).state ready) (ptr_eq (slot i) cur) t in
        somebody i (state_eq-eq (s.tasks i).state ready both.0) both.1)
      (λ _. pick_from-Picked s cur left (i + 1))

pub pick-Picked : (s : Sched) (cur : TaskPtr) → Picked s cur (pick s cur)
unfolding pick
pick-Picked s cur = pick_from-Picked s cur max_tasks 0
