-- ===== src/Scheduler/Wake.antt =====
-- The operations of src/scheduler.rs that change task states: block, exit, wake, spawn.
use pinx_kernel.Prelude.{
  ℕ, zero, suc, ◌+◌, ◌≤◌, ◌<◌, ◌≡◌, ◌≢◌, refl, ap, ◌∙◌, arith, false, not, ◌&&◌, ◌==◌, leb, ltb,
  if◌then◌else◌, if_elim, update, Bool-cases, inl, inr, Option, none, some, Option-cases,
}
use mathlib.Core.Path.{subst}
use pinx_kernel.Scheduler.{
  Sched, Task, unused, ready, running, user, slot, state_eq, modify, max_tasks,
}
use pinx_kernel.Scheduler.Ops.{
  mark_current_dead, block_current_until, block_current_input, wake_sleeper, wake_waiter, for_tasks,
  wake_sleepers, wake_input_waiters, unused_from, fill_slot,
}
use pinx_kernel.Scheduler.Invariant.{Between, IsValid, IsValid-Between}
use pinx_kernel.Scheduler.Switch.{TaskPtr-cases}

-- A new state for the current task of `cpu`, other than Unused, leaves `cpu` between.
park :
    (s : Sched) (cpu : ℕ) (f : Task → Task)
    → ((t : Task) → ((f t).state ≢ unused) × ((f t).kind ≡ t.kind))
    → IsValid s
    → Between cpu (modify s (s.percpu cpu).current f)
park s cpu f keeps v = elim (TaskPtr-cases (s.percpu cpu).current) [
  | inl e ↦ rw e (v.at cpu)
  | inr (inl (j, e)) ↦ rw e (parked j e)
  | inr (inr (d, e)) ↦ rw e (record {
    current_running = b.current_running;
    current_known = b.current_known;
    deferred_running = b.deferred_running;
    current_alone = b.current_alone;
    deferred_alone = b.deferred_alone;
    apart = b.apart;
    user_tasks = b.user_tasks;
  })
]
  where
    b : Between cpu s
    b = v.at cpu

    parked : (j : ℕ) → (s.percpu cpu).current ≡ slot j → Between cpu (modify s (slot j) f)
    parked j e = record {
      current_running = λ c i n h. ground (arith, b.current_running c i, b.current_alone c cpu i);
      current_known = λ i h. ground (arith, (keeps (s.tasks j)).0, b.current_known i);
      deferred_running = λ c i h. ground (arith, b.deferred_running c i, b.apart cpu c i);
      current_alone = b.current_alone;
      deferred_alone = b.deferred_alone;
      apart = b.apart;
      user_tasks = λ i h. ground (
        arith,
        b.user_tasks i,
        ap s.tasks {x = j} {y = i},
        (keeps (s.tasks j)).1,
        b.user_tasks j,
        b.current_known j,
      );
    }

pub mark_current_dead-Between :
    (s : Sched) (cpu : ℕ) → IsValid s → Between cpu (mark_current_dead s cpu)
unfolding mark_current_dead
mark_current_dead-Between s cpu = park s cpu _ (λ t. (cc, refl))

pub block_current_until-Between :
    (s : Sched) (cpu tick : ℕ) → IsValid s → Between cpu (block_current_until s cpu tick)
unfolding block_current_until
block_current_until-Between s cpu tick = park s cpu _ (λ t. (cc, refl))

pub block_current_input-Between :
    (s : Sched) (cpu : ℕ) → IsValid s → Between cpu (block_current_input s cpu)
unfolding block_current_input
block_current_input-Between s cpu = park s cpu _ (λ t. (cc, refl))

-- What a loop over the table does at each slot.
pub for_tasks_lem :
    (f : Task → Task) (left i : ℕ) (tasks : ℕ → Task) (j : ℕ)
    → for_tasks f left i tasks j ≡ (if leb i j && ltb j (i + left) then f (tasks j) else tasks j)
unfolding for_tasks
for_tasks_lem f zero i tasks j = ground arith
for_tasks_lem f (suc left) i tasks j =
    ground (
      arith,
      for_tasks_lem f left (i + 1) (update tasks i (f (tasks i))) j,
      ap tasks {x = i} {y = j},
    )

-- A table in which running tasks still run, and used slots are user tasks, keeps the invariant.
retask :
    (s : Sched) (tasks : ℕ → Task)
    → ((j : ℕ) → (s.tasks j).state ≡ running → (tasks j).state ≡ running)
    → ((j : ℕ) → (tasks j).state ≢ unused → (tasks j).kind ≡ user)
    → IsValid s
    → IsValid (record s { tasks = tasks })
retask s tasks still users v =
    IsValid-Between 0 (record s { tasks = tasks })
      (record {
        current_running = λ c i n h. still i (v.runs c i h);
        current_known = λ i h. ground (arith, still i (v.runs 0 i h));
        deferred_running = λ c i h. still i (b.deferred_running c i h);
        current_alone = b.current_alone;
        deferred_alone = b.deferred_alone;
        apart = b.apart;
        user_tasks = users;
      })
      (λ i h. still i (v.runs 0 i h))
  where
    b : Between 0 s
    b = v.at 0

wake_sleeper_keeps :
    (now : ℕ) (t : Task)
    → (t.state ≡ running → (wake_sleeper now t).state ≡ running)
      × ((wake_sleeper now t).kind ≡ t.kind)
      × ((wake_sleeper now t).state ≢ unused → t.state ≢ unused)
unfolding wake_sleeper
wake_sleeper_keeps now t = (λ h. ground arith, ground arith, λ h e. ground arith)

wake_waiter_keeps :
    (t : Task)
    → (t.state ≡ running → (wake_waiter t).state ≡ running)
      × ((wake_waiter t).kind ≡ t.kind)
      × ((wake_waiter t).state ≢ unused → t.state ≢ unused)
unfolding wake_waiter
wake_waiter_keeps t = (λ h. ground arith, ground arith, λ h e. ground arith)

for_tasks-IsValid :
    (f : Task → Task) (s : Sched)
    → ((t : Task)
        → (t.state ≡ running → (f t).state ≡ running)
          × ((f t).kind ≡ t.kind)
          × ((f t).state ≢ unused → t.state ≢ unused))
    → IsValid s
    → IsValid (record s { tasks = for_tasks f max_tasks 0 s.tasks })
for_tasks-IsValid f s keeps v =
    retask s (for_tasks f max_tasks 0 s.tasks)
      (λ j h. rw (for_tasks_lem f max_tasks 0 s.tasks j) (
        if_elim (λ (t : Task). t.state ≡ running) (leb 0 j && ltb j 64)
          (λ _. (keeps (s.tasks j)).0 h) (λ _. h)))
      (λ j. rw (for_tasks_lem f max_tasks 0 s.tasks j) (
        if_elim (λ (t : Task). t.state ≢ unused → t.kind ≡ user) (leb 0 j && ltb j 64)
          (λ _ h. (keeps (s.tasks j)).1 ∙ b.user_tasks j ((keeps (s.tasks j)).2 h))
          (λ _ h. b.user_tasks j h)))
      v
  where
    b : Between 0 s
    b = v.at 0

pub wake_sleepers-IsValid : (s : Sched) (now : ℕ) → IsValid s → IsValid (wake_sleepers s now)
unfolding wake_sleepers
wake_sleepers-IsValid s now v = for_tasks-IsValid (wake_sleeper now) s (wake_sleeper_keeps now) v

pub wake_input_waiters-IsValid : (s : Sched) → IsValid s → IsValid (wake_input_waiters s)
unfolding wake_input_waiters
wake_input_waiters-IsValid s v = for_tasks-IsValid wake_waiter s wake_waiter_keeps v

-- The first unused slot, or the absence of one.
data Slot (s : Sched) (lo hi : ℕ) : Option ℕ → Type 0 where
  first : (i : ℕ) → i < hi → (s.tasks i).state ≡ unused → Slot s lo hi (some i)
  full : ((i : ℕ) → lo ≤ i → i < hi → (s.tasks i).state ≢ unused) → Slot s lo hi none

unused_from-Slot :
    (s : Sched) (left lo hi : ℕ) → lo + left ≡ hi → Slot s lo hi (unused_from s left lo)
unfolding unused_from
unused_from-Slot s zero lo hi e = full (λ i p q. absurd (omega arith))
unused_from-Slot s (suc left) lo hi e =
    if_elim (Slot s lo hi) (not (state_eq (s.tasks lo).state unused))
      (λ t. later (ground arith) (unused_from-Slot s left (lo + 1) hi (omega arith)))
      (λ t. first lo (omega arith) (ground arith))
  where
    later : (s.tasks lo).state ≢ unused → {o : Option ℕ} → Slot s (lo + 1) hi o → Slot s lo hi o
    later ne (first i p u) = first i p u
    later ne (full all) = full (λ i p q. elim (Bool-cases (lo == i)) [
      | inl here ↦ let same : lo ≡ i = ground arith in ground (arith, ap s.tasks same)
      | inr on ↦ all i (ground arith) q
    ])

-- The outcome of filling a slot: one that was unused is Ready for a user task with the given stack
-- and frame, and nothing else changes; or every slot is in use, and nothing changes.
pub data Filled (s : Sched) (top frame : ℕ) : Option ℕ × Sched → Type 0 where
  filled :
      (i : ℕ) (t : Task)
      → i < max_tasks
      → (s.tasks i).state ≡ unused
      → (t.state ≡ ready) × (t.kind ≡ user) × (t.kstack ≡ top) × (t.frame ≡ frame)
      → Filled s top frame (some i, record s { tasks = update s.tasks i t })
  table_full : ((i : ℕ) → i < max_tasks → (s.tasks i).state ≢ unused) → Filled s top frame (none, s)

-- What the part of `spawn_user` under RUNQ does.
pub fill_slot-Filled : (s : Sched) (top frame : ℕ) → Filled s top frame (fill_slot s top frame)
unfolding fill_slot
fill_slot-Filled s top frame = elim (Option-cases (unused_from s max_tasks 0)) [
  | inl e ↦ rw (e, fill_slot) (table_full (none_left (subst (Slot s 0 64) e slot_of)))
  | inr (i, e) ↦ rw (e, fill_slot) (taken i (subst (Slot s 0 64) e slot_of))
]
  where
    slot_of : Slot s 0 64 (unused_from s 64 0)
    slot_of = unused_from-Slot s 64 0 64 (omega arith)

    none_left : Slot s 0 64 none → (i : ℕ) → i < max_tasks → (s.tasks i).state ≢ unused
    none_left (full all) i h = all i (omega arith) h

    taken :
        (i : ℕ)
        → Slot s 0 64 (some i)
        → Filled s top frame (
          some i,
          record s {
            tasks = update s.tasks i (record {
              state = ready;
              kind = user;
              cpu = 0;
              kstack = top;
              frame = frame;
              wake_tick = 0;
              wait_input = false;
            });
          },
        )
    taken i (first _ p u) = filled i _ p u (refl, refl, refl, refl)

pub fill_slot-IsValid : (s : Sched) (top frame : ℕ) → IsValid s → IsValid (fill_slot s top frame).1
fill_slot-IsValid s top frame v = keep (fill_slot-Filled s top frame)
  where
    b : Between 0 s
    b = v.at 0

    keep : {out : Option ℕ × Sched} → Filled s top frame out → IsValid out.1
    keep (table_full all) = v
    keep (filled i t p u h) =
        retask s (update s.tasks i t) (λ j r. ground (arith, ap s.tasks {x = i} {y = j}))
          (λ j r. ground (arith, b.user_tasks j)) v
