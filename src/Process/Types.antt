-- ===== src/Process/Types.antt =====
-- The data of kernel/process.c, and the machine that it runs on.
use xbks.Prelude.{
  ℕ, ◌+◌, ◌-◌, ◌^◌, Bool, false, Option, none, List, [], set, get_or, replicate, ltb, if◌then◌else◌,
}
use xbks.Mm.Frames.{Mm}
use xbks.Ramdisk.Tar.{Ramdisk, RamdiskFile}

abbrev pub max_processes : ℕ
max_processes = 16

abbrev pub max_fds : ℕ
max_fds = 16

abbrev pub u64_mod : ℕ
u64_mod = 2 ^ 64

-- `INT_MAX`
abbrev pub int_max : ℕ
int_max = 2 ^ 31 - 1

-- An `int` is its 32 bits; as a `uint64_t` its sign bit is repeated.
unfoldable pub int_to_u64 : ℕ → ℕ
int_to_u64 n = if ltb n (2 ^ 31) then n else n + (2 ^ 64 - 2 ^ 32)

pub data ProcessState : Type 0 where
  unused running blocked zombie : ProcessState

pub data FdType : Type 0 where
  fd_none fd_stdin fd_stdout fd_stderr fd_file fd_dir : FdType

pub record ProcessFd : Type 0 where
  pub kind : FdType
  pub file : RamdiskFile
  pub offset : ℕ

-- `struct xbks_syscall_frame`
pub record SyscallFrame : Type 0 where
  pub r15 : ℕ
  pub r14 : ℕ
  pub r13 : ℕ
  pub r12 : ℕ
  pub r11 : ℕ
  pub r10 : ℕ
  pub r9 : ℕ
  pub r8 : ℕ
  pub rbp : ℕ
  pub rdi : ℕ
  pub rsi : ℕ
  pub rdx : ℕ
  pub rcx : ℕ
  pub rbx : ℕ
  pub rax : ℕ
  pub user_rflags : ℕ
  pub user_rip : ℕ
  pub user_rsp : ℕ

-- A pointer to a process is its index in the table; `pid` and `ppid` are 32 bits.
pub record Process : Type 0 where
  pub pid : ℕ
  pub ppid : ℕ
  pub state : ProcessState
  pub cr3 : ℕ
  pub entry : ℕ
  pub stack : ℕ
  pub brk : ℕ
  pub exit_status : ℕ
  pub parent : Option ℕ
  pub vfork_parent : Option ℕ
  pub saved_parent_frame : SyscallFrame
  pub fds : List ProcessFd

-- What memset to zero leaves.
abbrev pub zero_file : RamdiskFile
zero_file = record { path = []; contents = none; size = 0; directory = false; executable = false }

abbrev pub zero_fd : ProcessFd
zero_fd = record { kind = fd_none; file = zero_file; offset = 0 }

abbrev pub zero_frame : SyscallFrame
zero_frame = record {
  r15 = 0;
  r14 = 0;
  r13 = 0;
  r12 = 0;
  r11 = 0;
  r10 = 0;
  r9 = 0;
  r8 = 0;
  rbp = 0;
  rdi = 0;
  rsi = 0;
  rdx = 0;
  rcx = 0;
  rbx = 0;
  rax = 0;
  user_rflags = 0;
  user_rip = 0;
  user_rsp = 0;
}

abbrev pub zero_process : Process
zero_process = record {
  pid = 0;
  ppid = 0;
  state = unused;
  cr3 = 0;
  entry = 0;
  stack = 0;
  brk = 0;
  exit_status = 0;
  parent = none;
  vfork_parent = none;
  saved_parent_frame = zero_frame;
  fds = replicate max_fds zero_fd;
}

-- The processor and the devices, with a state `H` of their own: the bytes that the current address
-- space shows at the user's addresses, CR3, the keyboard and the console. `set_shift_pressed`
-- is a store to the static variable of drivers/keyboard.c.
pub record Hardware (H : Type 0) : Type 0 where
  pub peek : H → Mm → ℕ → ℕ
  pub poke : H → Mm → ℕ → ℕ → Mm
  pub write_cr3 : H → ℕ → H
  pub set_shift_pressed : H → Bool → H
  pub read_key : H → ℕ × H
  pub console_write : H → List ℕ → H

-- The static variables of process.c and ramdisk.c, with the memory and the machine. The next pid is
-- an `int`, as its 32 bits.
pub record Kernel (H : Type 0) : Type 0 where
  pub processes : List Process
  pub current : ℕ
  pub next_pid : ℕ
  pub mm : Mm
  pub ramdisk : Ramdisk
  pub machine : H

abbrev pub fd_at : Process → ℕ → ProcessFd
fd_at p fd = get_or p.fds fd zero_fd

module _ {H : Type 0} where
  abbrev pub process_at : Kernel H → ℕ → Process
  process_at k i = get_or k.processes i zero_process

  abbrev pub put_process : Kernel H → ℕ → Process → Kernel H
  put_process k i p = record k { processes = set k.processes i p }

  -- `*current_process`
  abbrev pub current_process : Kernel H → Process
  current_process k = process_at k k.current

  abbrev pub put_fd : Kernel H → ℕ → ProcessFd → Kernel H
  put_fd k fd x =
      put_process k k.current
        (record (current_process k) { fds = set (current_process k).fds fd x })
