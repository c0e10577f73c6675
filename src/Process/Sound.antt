-- ===== src/Process/Sound.antt =====
-- Every system call of kernel/process.c keeps the invariant of the process table.
use xbks.Prelude.{◌<◌, length}
use xbks.Process.Types.{SyscallFrame, Hardware, Kernel, int_max}
use xbks.Process.Dispatch.{
  Call, read, write, open_file, openat, close, lseek, access, getdents64, brk, getcwd, uname,
  getpid, getppid, getid, vfork, execve, wait4, exit, sched_yield, unknown, call_of_number,
  run_call, syscall_dispatch,
}
use xbks.Process.Life.{Outcome, returns, halts, syscall_execve}
use xbks.Process.Invariant.{IsSound, SameCore, SameCore-IsSound}
use xbks.Process.Calls
use xbks.Process.Positions
use xbks.Process.Images.{Leaves, SameCore-syscall_brk, SameCore-syscall_execve}
use xbks.Process.Lifecycle.{syscall_vfork-IsSound, syscall_exit-IsSound, syscall_wait4-IsSound}

module _ {H : Type 0} (hw : Hardware H) where
  -- The current process is in the table.
  pub current_in_table : (k : Kernel H) → IsSound k → k.current < length k.processes
  current_in_table k s = rw s.slots s.current_in

  keeps : (k k' : Kernel H) → IsSound k → SameCore k k' → IsSound k'
  keeps k k' s c = SameCore-IsSound k k' c s

  keeps_outcome :
      (k : Kernel H) (o : Outcome H) → IsSound k → Leaves (SameCore k) o → Leaves IsSound o
  keeps_outcome k (returns v f k') s c = SameCore-IsSound k k' c s
  keeps_outcome k (halts k') s c = tt

  pub run_call-IsSound :
      (call : Call) (k : Kernel H) (f : SyscallFrame)
      → IsSound k
      → k.next_pid < int_max
      → Leaves IsSound (run_call hw call k f)
  unfolding run_call
  run_call-IsSound read k f s room =
      keeps k _ s (Calls.SameCore-syscall_read hw k f.rdi f.rsi f.rdx (current_in_table k s))
  run_call-IsSound write k f s room =
      keeps k _ s (Calls.SameCore-syscall_write hw k f.rdi f.rsi f.rdx)
  run_call-IsSound open_file k f s room =
      keeps k _ s (Calls.SameCore-syscall_open hw k f.rdi (current_in_table k s))
  run_call-IsSound openat k f s room =
      keeps k _ s (Calls.SameCore-syscall_open hw k f.rsi (current_in_table k s))
  run_call-IsSound close k f s room =
      keeps k _ s (Positions.SameCore-syscall_close hw k f.rdi (current_in_table k s))
  run_call-IsSound lseek k f s room =
      keeps k _ s (Positions.SameCore-syscall_lseek hw k f.rdi f.rsi f.rdx (current_in_table k s))
  run_call-IsSound access k f s room = keeps k _ s (Positions.SameCore-syscall_access hw k _)
  run_call-IsSound getdents64 k f s room =
      keeps k _ s
        (Positions.SameCore-syscall_getdents64 hw k f.rdi f.rsi f.rdx (current_in_table k s))
  run_call-IsSound brk k f s room =
      keeps k _ s (SameCore-syscall_brk k f.rdi (current_in_table k s))
  run_call-IsSound getcwd k f s room =
      keeps k _ s (Positions.SameCore-syscall_getcwd hw k f.rdi f.rsi)
  run_call-IsSound uname k f s room = keeps k _ s (Positions.SameCore-syscall_uname hw k f.rdi)
  run_call-IsSound getpid k f s room = s
  run_call-IsSound getppid k f s room = s
  run_call-IsSound getid k f s room = s
  run_call-IsSound vfork k f s room = syscall_vfork-IsSound hw k f s room
  run_call-IsSound execve k f s room =
      keeps_outcome k (syscall_execve hw k f) s
        (SameCore-syscall_execve hw k f (current_in_table k s))
  run_call-IsSound wait4 k f s room = syscall_wait4-IsSound hw k f.rdi f.rsi s
  run_call-IsSound exit k f s room = syscall_exit-IsSound hw k f f.rdi s
  run_call-IsSound sched_yield k f s room = s
  run_call-IsSound unknown k f s room = s

  -- From a kernel whose process table is sound and whose next pid is below INT_MAX, any system
  -- call with any registers either halts the processor or returns to a kernel whose table is
  -- sound.
  pub dispatch-IsSound :
      (k : Kernel H) (frame : SyscallFrame)
      → IsSound k
      → k.next_pid < int_max
      → Leaves IsSound (syscall_dispatch hw k frame)
  unfolding syscall_dispatch
  dispatch-IsSound k frame s room = run_call-IsSound (call_of_number frame.rax) k frame s room
