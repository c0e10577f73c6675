-- ===== src/Process/Dispatch.antt =====
-- `xbks_process_syscall_dispatch` of kernel/process.c, the body of `xbks_syscall_dispatch`.
use xbks.Prelude.{ℕ, ◌-◌, ◌||◌, ◌==◌, if◌then◌else◌}
use xbks.Process.Types.{SyscallFrame, Hardware, Kernel, u64_mod, int_to_u64, current_process}
use xbks.Process.User.{negative_errno}
use xbks.Process.Files.{
  enosys, syscall_read, syscall_write, syscall_open, syscall_close, syscall_lseek, syscall_access,
  syscall_getdents64, syscall_getcwd, syscall_uname,
}
use xbks.Process.Life.{
  Outcome, returns, syscall_brk, syscall_wait4, syscall_exit, syscall_vfork, syscall_execve,
}

-- The calls, by their numbers in include/xbks/uapi/syscall.h.
pub data Call : Type 0 where
  read write open_file openat close lseek access getdents64 brk getcwd uname getpid getppid getid
        vfork execve wait4 exit sched_yield unknown :
      Call

unfoldable pub call_of_number : ℕ → Call
call_of_number n =
    if n == 0
    then read
    else if n == 1
    then write
    else if n == 2
    then open_file
    else if n == 257
    then openat
    else if n == 3
    then close
    else if n == 8
    then lseek
    else if (n == 21) || (n == 269)
    then access
    else if n == 217
    then getdents64
    else if n == 12
    then brk
    else if n == 79
    then getcwd
    else if n == 63
    then uname
    else if (n == 39) || (n == 186)
    then getpid
    else if n == 110
    then getppid
    else if (n == 102) || (n == 104) || (n == 107) || (n == 108)
    then getid
    else if n == 58
    then vfork
    else if n == 59
    then execve
    else if n == 61
    then wait4
    else if (n == 60) || (n == 231)
    then exit
    else if n == 24
    then sched_yield
    else unknown

-- AT_FDCWD as a register holds it.
abbrev pub at_fdcwd : ℕ
at_fdcwd = u64_mod - 100

module _ {H : Type 0} (hw : Hardware H) where
  abbrev pub keep_frame : SyscallFrame → ℕ × Kernel H → Outcome H
  keep_frame frame (value, k) = returns value frame k

  unfoldable pub run_call : Call → Kernel H → SyscallFrame → Outcome H
  run_call read k f = keep_frame f (syscall_read hw k f.rdi f.rsi f.rdx)
  run_call write k f = keep_frame f (syscall_write hw k f.rdi f.rsi f.rdx)
  run_call open_file k f = keep_frame f (syscall_open hw k f.rdi)
  run_call openat k f = keep_frame f (syscall_open hw k f.rsi)
  run_call close k f = keep_frame f (syscall_close k f.rdi)
  run_call lseek k f = keep_frame f (syscall_lseek k f.rdi f.rsi f.rdx)
  run_call access k f =
      keep_frame f (syscall_access hw k (if f.rdi == at_fdcwd then f.rsi else f.rdi))
  run_call getdents64 k f = keep_frame f (syscall_getdents64 hw k f.rdi f.rsi f.rdx)
  run_call brk k f = keep_frame f (syscall_brk k f.rdi)
  run_call getcwd k f = keep_frame f (syscall_getcwd hw k f.rdi f.rsi)
  run_call uname k f = keep_frame f (syscall_uname hw k f.rdi)
  run_call getpid k f = returns (int_to_u64 (current_process k).pid) f k
  run_call getppid k f = returns (int_to_u64 (current_process k).ppid) f k
  run_call getid k f = returns 0 f k
  run_call vfork k f = syscall_vfork hw k f
  run_call execve k f = syscall_execve hw k f
  run_call wait4 k f = keep_frame f (syscall_wait4 hw k f.rdi f.rsi)
  run_call exit k f = syscall_exit hw k f f.rdi
  run_call sched_yield k f = returns 0 f k
  run_call unknown k f = returns (negative_errno enosys) f k

  unfoldable pub syscall_dispatch : Kernel H → SyscallFrame → Outcome H
  syscall_dispatch k frame = run_call (call_of_number frame.rax) k frame
