-- ===== src/Syscall/Events.antt =====
-- `sys_event_read` of src/syscall.rs.
use pinx_kernel.Prelude.{
  ℕ, zero, suc, ◌+◌, ◌*◌, ◌^◌, not, ◌==◌, leb, Option, none, some, if◌then◌else◌, List, ◌++◌,
}
use pinx_kernel.Prelude.Run.{Run, ret, ◌>>=◌}
use pinx_kernel.Prelude.Bytes.{to_le}
use pinx_kernel.Keyboard.{Keyboard, input, has_input, key_none}
use pinx_kernel.User.{Memory}
use pinx_kernel.Syscall.{Kernel, user_range_valid, store}

-- `PinxEvent`, four words of 32 bits.
abbrev pub event_size : ℕ
event_size = 16

abbrev pub event_key : ℕ
event_key = 1

abbrev pub event_bytes : ℕ → List ℕ
event_bytes code = to_le 4 event_key ++ to_le 4 code ++ to_le 4 1 ++ to_le 4 0

-- The loop of `sys_event_read` over the events left, from `count` on.
unfoldable pub read_events :
    ℕ → Memory → Keyboard → (buffer count : ℕ) → Run (ℕ × Memory × Keyboard)
unfolding store to_le
read_events zero m kb buffer count = ret (count, m, kb)
read_events (suc left) m kb buffer count =
    let (code, kb') = input kb in
    if not (has_input kb)
    then ret (count, m, kb)
    else if code == key_none
    then ret (count, m, kb')
    else do
      m' ← store m (buffer + count * event_size) (event_bytes code)
      read_events left m' kb' buffer (count + 1)

-- `sys_event_read`; `none` is `Err(())`.
unfoldable pub sys_event_read : Kernel → (buffer max_events : ℕ) → Run (Option ℕ × Kernel)
unfolding read_events user_range_valid
sys_event_read k buffer max_events =
    if max_events == 0
    then ret (some 0, k)
    else if leb (2 ^ 64) (max_events * event_size)
    then ret (none, k)
    else if not (user_range_valid k.memory.vmm buffer (max_events * event_size))
    then ret (none, k)
    else do
      (count, m, kb) ← read_events max_events k.memory k.keyboard buffer 0
      ret (some count, record k { memory = m; keyboard = kb })
