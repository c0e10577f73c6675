-- ===== src/Process/Table.antt =====
-- The process table and the descriptor tables of kernel/process.c.
use xbks.Prelude.{
  ℕ, ◌+◌, ◌%◌, ◌^◌, Option, none, some, List, [], ◌∷◌, set, drop, if◌then◌else◌, Bool, true, false,
}
use xbks.Process.Types.{
  Process, ProcessFd, Kernel, unused, running, fd_none, fd_stdin, fd_stdout, fd_stderr,
  ProcessState, FdType, zero_process, zero_fd, put_process,
}

abbrev pub is_unused : ProcessState → Bool
is_unused unused = true
is_unused _ = false

abbrev pub is_none : FdType → Bool
is_none fd_none = true
is_none _ = false

-- The index of the first unused slot, from index `i` on.
unfoldable pub first_unused : List Process → ℕ → Option ℕ
first_unused [] i = none
first_unused (p ∷ ps) i = if is_unused p.state then some i else first_unused ps (i + 1)

-- A slot as `allocate_process` fills it.
unfoldable pub new_process : ℕ → Process
new_process pid = record zero_process {
  pid = pid;
  state = running;
  fds =
      set
        (set (set zero_process.fds 0 (record zero_fd { kind = fd_stdin })) 1
          (record zero_fd { kind = fd_stdout }))
        2 (record zero_fd { kind = fd_stderr });
}

-- The increment of an `int` at INT_MAX, which C leaves undefined, wraps around as on the processor.
unfoldable pub allocate_process : {H : Type 0} → Kernel H → Option (ℕ × Kernel H)
allocate_process k = elim (first_unused k.processes 0) [
  | none ↦ none
  | some i ↦ some (
    i,
    put_process (record k { next_pid = (k.next_pid + 1) % 2 ^ 32 }) i (new_process k.next_pid),
  )
]

unfoldable pub first_free_fd : List ProcessFd → ℕ → Option ℕ
first_free_fd [] i = none
first_free_fd (x ∷ xs) i = if is_none x.kind then some i else first_free_fd xs (i + 1)

-- `allocate_fd`: the loop starts at descriptor 3.
unfoldable pub allocate_fd : Process → Option ℕ
allocate_fd p = first_free_fd (drop 3 p.fds) 3
