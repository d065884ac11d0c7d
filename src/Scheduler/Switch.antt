-- ===== src/Scheduler/Switch.antt =====
-- `schedule` of src/scheduler.rs, part by part, keeps every task of the table on one CPU.
use pinx_kernel.Prelude.{ℕ, ◌≡◌, refl, ap, arith, update, inl, inr, ◌⊎◌}
use pinx_kernel.Scheduler.{Sched, Task, TaskPtr, ready, null, slot, idle_slot, modify}
use pinx_kernel.Scheduler.Ops.{publish, save_frame}
use pinx_kernel.Scheduler.Invariant.{Between}

module _ (s : Sched) (cpu j : ℕ) (b : Between cpu s) (was : (s.percpu cpu).deferred ≡ slot j) where
  abbrev after : Sched
  after = record s {
    tasks = update s.tasks j (record (s.tasks j) { state = ready });
    percpu = update s.percpu cpu (record (s.percpu cpu) { deferred = null });
  }

  published : Between cpu after
  published = record {
    current_running = λ c i ne h. ground (arith, b.current_running c i, b.apart c cpu i);
    current_known = λ i h. ground (arith, b.current_known i);
    deferred_running = λ c i h. ground (arith, b.deferred_running c i, b.deferred_alone c cpu i);
    current_alone = λ c d i p q. ground (arith, b.current_alone c d i);
    deferred_alone = λ c d i p q. ground (arith, b.deferred_alone c d i);
    apart = λ c d i p q. ground (arith, b.apart c d i);
    user_tasks = λ i h. ground (arith, b.user_tasks i, b.user_tasks j, b.deferred_running cpu j);
  }

-- A state whose pointers and table are those of `s`, but for `cpu`'s deferred pointer, now null.
module _ (s : Sched) (cpu : ℕ) (b : Between cpu s) where
  abbrev cleared : (ℕ → Task) → Sched
  cleared idles = record s {
    idles = idles;
    percpu = update s.percpu cpu (record (s.percpu cpu) { deferred = null });
  }

  cleared-Between : (idles : ℕ → Task) → Between cpu (cleared idles)
  cleared-Between idles = record {
    current_running = λ c i ne h. ground (arith, b.current_running c i);
    current_known = λ i h. ground (arith, b.current_known i);
    deferred_running = λ c i h. ground (arith, b.deferred_running c i);
    current_alone = λ c d i p q. ground (arith, b.current_alone c d i);
    deferred_alone = λ c d i p q. ground (arith, b.deferred_alone c d i);
    apart = λ c d i p q. ground (arith, b.apart c d i);
    user_tasks = λ i h. ground (arith, b.user_tasks i);
  }

pub TaskPtr-cases :
    (p : TaskPtr) → (p ≡ null) ⊎ ((i : ℕ) × (p ≡ slot i)) ⊎ ((c : ℕ) × (p ≡ idle_slot c))
TaskPtr-cases null = inl refl
TaskPtr-cases (slot i) = inr (inl (i, refl))
TaskPtr-cases (idle_slot c) = inr (inr (c, refl))

-- What `publish` establishes.
pub record Published (cpu : ℕ) (s : Sched) : Type 0 where
  pub between : Between cpu s
  pub none_deferred : (s.percpu cpu).deferred ≡ null

pub publish-Published : (cpu : ℕ) (s : Sched) → Between cpu s → Published cpu (publish s cpu)
unfolding publish
publish-Published cpu s b = elim (TaskPtr-cases (s.percpu cpu).deferred) [
  | inl e ↦ rw e (record { between = b; none_deferred = e })
  | inr (inl (j, e)) ↦
      rw e (record { between = published s cpu j b e; none_deferred = ground arith })
  | inr (inr (d, e)) ↦
      rw e (record { between = cleared-Between s cpu b _; none_deferred = ground arith })
]

-- A change of a task's saved frame alone.
pub save_frame-Published :
    (cpu : ℕ) (s : Sched) (frame : ℕ) → Published cpu s → Published cpu (save_frame s cpu frame)
unfolding save_frame
save_frame-Published cpu s frame p = elim (TaskPtr-cases (s.percpu cpu).current) [
  | inl e ↦ rw e p
  | inr (inl (j, e)) ↦ rw e (record { between = framed j; none_deferred = p.none_deferred })
  | inr (inr (d, e)) ↦ rw e (record { between = idled d; none_deferred = p.none_deferred })
]
  where
    open p use {between as b}

    framed : (j : ℕ) → Between cpu (modify s (slot j) (λ t. record t { frame = frame }))
    framed j = record {
      current_running =
          λ c i ne h. ground (arith, b.current_running c i, ap s.tasks {x = j} {y = i});
      current_known = λ i h. ground (arith, b.current_known i, ap s.tasks {x = j} {y = i});
      deferred_running =
          λ c i h. ground (arith, b.deferred_running c i, ap s.tasks {x = j} {y = i});
      current_alone = b.current_alone;
      deferred_alone = b.deferred_alone;
      apart = b.apart;
      user_tasks = λ i h. ground (arith, b.user_tasks i, ap s.tasks {x = j} {y = i});
    }

    idled : (d : ℕ) → Between cpu (modify s (idle_slot d) (λ t. record t { frame = frame }))
    idled d = record {
      current_running = b.current_running;
      current_known = b.current_known;
      deferred_running = b.deferred_running;
      current_alone = b.current_alone;
      deferred_alone = b.deferred_alone;
      apart = b.apart;
      user_tasks = b.user_tasks;
    }
