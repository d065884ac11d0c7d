-- ===== src/Syscall/Dispatch.antt =====
-- `dispatch` of src/syscall.rs.
use pinx_kernel.Prelude.{ℕ, not, ◌&&◌, ◌==◌, Option, none, some, if◌then◌else◌, add64}
use pinx_kernel.Prelude.Run.{Run, ret, ◌>>=◌}
use pinx_kernel.Scheduler.Ops.{
  mark_current_dead, block_current_until, block_current_input, schedule,
}
use pinx_kernel.User.Spawn.{Machine}
use pinx_kernel.Syscall.{Kernel, einval, sys_write, sys_mmap}
use pinx_kernel.Syscall.Screen.{Framebuffer, sys_fb_map}
use pinx_kernel.Syscall.Events.{sys_event_read}
use pinx_kernel.Syscall.Spawn.{sys_spawn}

-- The registers of an `InterruptFrame` that system calls use.
pub record Frame : Type 0 where
  pub rax : ℕ
  pub rdi : ℕ
  pub rsi : ℕ
  pub rdx : ℕ

-- The environment of a call: the CPU, where the frame lies, `apic::uptime_ms()`, the screen, and
-- what starting a program needs.
pub record Env : Type 0 where
  pub cpu : ℕ
  pub frame : ℕ
  pub uptime_ms : ℕ
  pub screen : Framebuffer
  pub machine : Machine

-- What a call leaves: the address of the frame to resume, the registers of the frame that it came
-- in on, and the statics.
abbrev pub Outcome : Type 0
Outcome = ℕ × Frame × Kernel

-- `f.rax = value; frame`.
abbrev pub return_value : Env → Frame → ℕ × Kernel → Run Outcome
return_value env f (value, k) = ret (env.frame, record f { rax = value }, k)

-- `f.rax = 0` where the call sets it, and `scheduler::schedule(frame)`.
abbrev pub reschedule : Env → Frame → Kernel → Run Outcome
reschedule env f k =
    let (next, s) = schedule k.sched env.cpu env.frame in ret (next, f, record k { sched = s })

-- The arm of SYS_EVENT_READ, after the read.
unfoldable pub after_read : Env → Frame → Option ℕ × Kernel → Run Outcome
after_read env f (none, k) = return_value env f (einval, k)
after_read env f (some count, k) =
    if count == 0 && not (f.rdx == 0)
    then reschedule env (record f { rax = 0 })
        (record k { sched = block_current_input k.sched env.cpu })
    else return_value env f (count, k)

-- The arm of SYS_SLEEP.
unfoldable pub sys_sleep : Env → Frame → Kernel → Run Outcome
sys_sleep env f k =
    if f.rdi == 0
    then reschedule env (record f { rax = 0 }) k
    else reschedule env (record f { rax = 0 })
        (record k { sched = block_current_until k.sched env.cpu (add64 env.uptime_ms f.rdi) })

unfoldable pub dispatch : Env → Frame → Kernel → Run Outcome
unfolding sys_write sys_spawn sys_fb_map sys_event_read after_read sys_mmap sys_sleep
dispatch env f k =
    if f.rax == 0
    then sys_write k f.rdi f.rsi f.rdx >>= return_value env f
    else if f.rax == 1
    then reschedule env f (record k { sched = mark_current_dead k.sched env.cpu })
    else if f.rax == 2
    then reschedule env (record f { rax = 0 }) k
    else if f.rax == 3
    then sys_spawn env.machine k f.rdi f.rsi >>= return_value env f
    else if f.rax == 4
    then sys_fb_map env.screen k f.rdi >>= return_value env f
    else if f.rax == 5
    then sys_event_read k f.rdi f.rsi >>= after_read env f
    else if f.rax == 6
    then sys_mmap k f.rdi >>= return_value env f
    else if f.rax == 7
    then sys_sleep env f k
    else return_value env f (einval, k)
