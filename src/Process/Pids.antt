-- ===== src/Process/Pids.antt =====
-- The pids that the system calls of kernel/process.c take.
use xbks.Prelude.{
  ℕ, ◌+◌, ◌*◌, ◌≤◌, inl, inr, false, not, ◌&&◌, Bool-cases, Option-cases, ◌==◌, if◌then◌else◌,
  arith,
}
use xbks.Mm.Spaces.{create_kernel_mapped_pml4, clone_user_space}
use xbks.Process.Types.{SyscallFrame, Hardware, Kernel, process_at, current_process}
use xbks.Process.User.{user_top, user_range_is_valid, le_bytes}
use xbks.Process.Table.{first_unused, allocate_process}
use xbks.Process.Dispatch.{
  Call, read, write, open_file, openat, close, lseek, access, getdents64, brk, getcwd, uname,
  getpid, getppid, getid, vfork, execve, wait4, exit, sched_yield, unknown, call_of_number,
  run_call, syscall_dispatch,
}
use xbks.Process.Life.{
  Outcome, returns, halts, first_child, reap, syscall_wait4, syscall_exit, syscall_vfork,
  syscall_execve,
}
use xbks.Process.Invariant.{IsSound, SameCore}
use xbks.Process.Calls
use xbks.Process.Positions
use xbks.Process.Images.{Leaves, SameCore-syscall_brk, SameCore-syscall_execve}
use xbks.Process.Lifecycle.{stored_frame}
use xbks.Process.Sound.{current_in_table}

-- The pids that a call may take.
abbrev pub pids_of : Call → ℕ
pids_of vfork = 1
pids_of _ = 0

-- The next pid has grown by at most a number.
abbrev pub HasTaken : {H : Type 0} → Kernel H → ℕ → Kernel H → Type 0
HasTaken k n k' = k'.next_pid ≤ k.next_pid + n

module _ {H : Type 0} (hw : Hardware H) where
  vfork-HasTaken :
      (k : Kernel H) (frame : SyscallFrame) → Leaves (HasTaken k 1) (syscall_vfork hw k frame)
  unfolding syscall_vfork allocate_process
  vfork-HasTaken k frame = elim (Option-cases (first_unused k.processes 0)) [
    | inl full ↦ rw (full, syscall_vfork, allocate_process) (omega arith)
    | inr (i, found) ↦
        let (cr3, m₁) = create_kernel_mapped_pml4 k.mm in
        let copy =
          (if cr3 == 0
            then (false, m₁)
            else clone_user_space m₁ (current_process k).cr3 cr3 user_top) in
        rw (found, syscall_vfork, allocate_process)
          (elim (Bool-cases copy.0) [
            | inl done ↦ rw done (omega arith)
            | inr failed ↦ rw failed (omega arith)
          ])
  ]

  exit-HasTaken :
      (k : Kernel H) (frame : SyscallFrame) (status : ℕ)
      → Leaves (HasTaken k 0) (syscall_exit hw k frame status)
  unfolding syscall_exit
  exit-HasTaken k frame status = elim (Option-cases (current_process k).vfork_parent) [
    | inl none_waits ↦ rw (none_waits, syscall_exit) tt
    | inr (p, link) ↦ rw (link, syscall_exit) (omega arith)
  ]

  reap-HasTaken :
      (k : Kernel H) (i status_address : ℕ) → HasTaken k 0 (reap hw k i status_address).1
  unfolding reap
  reap-HasTaken k i status_address =
      elim (Bool-cases (not (status_address == 0) && not (user_range_is_valid status_address 4))) [
        | inl fault ↦ rw fault (omega arith)
        | inr fine ↦
            let (ps, c, n) =
              stored_frame hw k status_address (le_bytes 4 ((process_at k i).exit_status * 256))
                (not (status_address == 0)) in
            rw fine (omega (arith, n))
      ]

  wait4-HasTaken :
      (k : Kernel H) (pid status_address : ℕ)
      → HasTaken k 0 (syscall_wait4 hw k pid status_address).1
  unfolding syscall_wait4
  wait4-HasTaken k pid status_address = elim (Option-cases (first_child k pid k.processes 0)) [
    | inl childless ↦ rw (childless, syscall_wait4) (omega arith)
    | inr (i, found) ↦ rw (found, syscall_wait4) (reap-HasTaken k i status_address)
  ]

  same : (k k' : Kernel H) → SameCore k k' → HasTaken k 0 k'
  same k k' c = omega (arith, c.next_pid)

  same_outcome : (k : Kernel H) (o : Outcome H) → Leaves (SameCore k) o → Leaves (HasTaken k 0) o
  same_outcome k (returns v f k') c = same k k' c
  same_outcome k (halts k') c = tt

  run_call-HasTaken :
      (call : Call) (k : Kernel H) (f : SyscallFrame)
      → IsSound k
      → Leaves (HasTaken k (pids_of call)) (run_call hw call k f)
  unfolding run_call
  run_call-HasTaken read k f s =
      same k _ (Calls.SameCore-syscall_read hw k f.rdi f.rsi f.rdx (current_in_table hw k s))
  run_call-HasTaken write k f s = same k _ (Calls.SameCore-syscall_write hw k f.rdi f.rsi f.rdx)
  run_call-HasTaken open_file k f s =
      same k _ (Calls.SameCore-syscall_open hw k f.rdi (current_in_table hw k s))
  run_call-HasTaken openat k f s =
      same k _ (Calls.SameCore-syscall_open hw k f.rsi (current_in_table hw k s))
  run_call-HasTaken close k f s =
      same k _ (Positions.SameCore-syscall_close hw k f.rdi (current_in_table hw k s))
  run_call-HasTaken lseek k f s =
      same k _ (Positions.SameCore-syscall_lseek hw k f.rdi f.rsi f.rdx (current_in_table hw k s))
  run_call-HasTaken access k f s = same k _ (Positions.SameCore-syscall_access hw k _)
  run_call-HasTaken getdents64 k f s =
      same k _
        (Positions.SameCore-syscall_getdents64 hw k f.rdi f.rsi f.rdx (current_in_table hw k s))
  run_call-HasTaken brk k f s = same k _ (SameCore-syscall_brk k f.rdi (current_in_table hw k s))
  run_call-HasTaken getcwd k f s = same k _ (Positions.SameCore-syscall_getcwd hw k f.rdi f.rsi)
  run_call-HasTaken uname k f s = same k _ (Positions.SameCore-syscall_uname hw k f.rdi)
  run_call-HasTaken getpid k f s = omega arith
  run_call-HasTaken getppid k f s = omega arith
  run_call-HasTaken getid k f s = omega arith
  run_call-HasTaken vfork k f s = vfork-HasTaken k f
  run_call-HasTaken execve k f s =
      same_outcome k (syscall_execve hw k f)
        (SameCore-syscall_execve hw k f (current_in_table hw k s))
  run_call-HasTaken wait4 k f s = wait4-HasTaken k f.rdi f.rsi
  run_call-HasTaken exit k f s = exit-HasTaken k f f.rdi
  run_call-HasTaken sched_yield k f s = omega arith
  run_call-HasTaken unknown k f s = omega arith

  pub dispatch-HasTaken :
      (k : Kernel H) (frame : SyscallFrame)
      → IsSound k
      → Leaves (HasTaken k (pids_of (call_of_number frame.rax))) (syscall_dispatch hw k frame)
  unfolding syscall_dispatch
  dispatch-HasTaken k frame s = run_call-HasTaken (call_of_number frame.rax) k frame s
