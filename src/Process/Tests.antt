-- ===== src/Process/Tests.antt =====
-- Concrete runs of the theorems on kernel/process.c.
use xbks.Prelude.{
  ℕ, ◌+◌, ◌≡◌, ◌≤◌, ◌↔◌, ◌⊎◌, ◌<◌, refl, true, false, none, some, List, [], ◌∷◌, ◌++◌, ◌*◌, ◌-◌,
  replicate, get_or, arith,
}
use xbks.Mm.Frames.{Mm}
use xbks.Ramdisk.Files.{no_ramdisk}
use xbks.Ramdisk.Tar.{Ramdisk, RamdiskFile, slice}
use xbks.Elf.Headers.{Ehdr, phdr_size, phdr_at}
use xbks.Elf.Image
use xbks.Process.Types.{
  fd_stdin, fd_stdout, fd_stderr, fd_file, running, zombie, Process, ProcessFd, SyscallFrame,
  Hardware, Kernel, zero_process, zero_fd, zero_file, zero_frame, fd_at,
}
use xbks.Process.User.{negative_errno, user_range_is_valid}
use xbks.Process.Table.{is_none, allocate_fd}
use xbks.Process.Files.{ebadf, syscall_read, syscall_close}
use xbks.Process.Load.{load_segments, validate_elf, load_elf_into_process}
use xbks.Process.Life.{start_init, syscall_wait4}
use xbks.Process.Dispatch.{syscall_dispatch}
use xbks.Process.Invariant.{IsSound}
use xbks.Process.Images.{Leaves}
use xbks.Process.Sound.{dispatch-IsSound}
use xbks.Process.Reach.{
  start, called, user_ran, IsStarted, start_init-IsStarted, reachable-IsSound, alone-IsSound,
}
use xbks.Process.Descriptors.{
  HasMoved, user_range_is_valid_iff, allocate_fd_lem, syscall_read_lem, close_twice,
}
use xbks.Process.Segments.{
  IsTaken, load_elf_into_process-IsTaken, segment_before, map_and_write, wrapped_segment,
}
use xbks.Process.Waiting

-- A machine whose state is the value of CR3; every key is an `a`.
abbrev machine : Hardware ℕ
machine = record {
  peek = λ h m a. 0;
  poke = λ h m a b. m;
  write_cr3 = λ h cr3. cr3;
  set_shift_pressed = λ h shift. h;
  read_key = λ h. (97, h);
  console_write = λ h s. h;
}

-- A memory with no frame left.
abbrev full_memory : Mm
full_memory = record {
  hhdm_offset = 0;
  kernel_cr3 = 0;
  free_frames = 0;
  free_frame_count = 0;
  words = λ a. 0;
}

abbrev console_fds : List ProcessFd
console_fds =
    record zero_fd { kind = fd_stdin }
    ∷ record zero_fd { kind = fd_stdout }
    ∷ record zero_fd { kind = fd_stderr }
    ∷ record zero_fd {
      kind = fd_file;
      file = record zero_file { contents = some 0; size = 10 };
      offset = 4;
    }
    ∷ replicate 12 zero_fd

abbrev first_process : Process
first_process = record zero_process { pid = 1; state = running; fds = console_fds }

abbrev one_process : Kernel ℕ
one_process = record {
  processes = first_process ∷ replicate 15 zero_process;
  current = 0;
  next_pid = 2;
  mm = full_memory;
  ramdisk = no_ramdisk;
  machine = 0;
}

one_process-IsSound : IsSound one_process
one_process-IsSound =
    alone-IsSound one_process first_process refl refl refl (omega arith) refl
      (record { count = refl; input = refl; output = refl; error = refl })

abbrev vfork_frame : SyscallFrame
vfork_frame = record zero_frame { rax = 58 }

-- A vfork that finds no memory takes a pid all the same.
vfork_fails :
    syscall_dispatch machine one_process vfork_frame
    ≡ xbks.Process.Life.returns
        (negative_errno 12)
        vfork_frame
        (record one_process { next_pid = 3 })
unfolding syscall_dispatch xbks.Process.Dispatch.run_call xbks.Process.Dispatch.call_of_number
    xbks.Process.Life.syscall_vfork xbks.Process.Table.allocate_process
    xbks.Process.Table.first_unused xbks.Mm.Spaces.create_kernel_mapped_pml4
    xbks.Mm.Frames.alloc_frame
vfork_fails = refl

reachable-IsSound_example : IsSound (record one_process { next_pid = 3; machine = 7 })
unfolding xbks.Process.Dispatch.call_of_number
reachable-IsSound_example =
    reachable-IsSound machine one_process (record one_process { next_pid = 3; machine = 7 }) 1
      one_process-IsSound (omega arith)
      (user_ran full_memory 7
        (called vfork_frame vfork_frame (negative_errno 12) start vfork_fails))

dispatch-IsSound_example : Leaves IsSound (syscall_dispatch machine one_process vfork_frame)
dispatch-IsSound_example =
    dispatch-IsSound machine one_process vfork_frame one_process-IsSound (omega arith)

abbrev booted : Kernel ℕ
booted = record one_process { processes = replicate 16 zero_process; next_pid = 1 }

start_init-IsStarted_example : IsStarted (start_init machine booted none)
start_init-IsStarted_example = start_init-IsStarted machine booted none refl (omega arith)

-- A table with a zombie in slot 1 that is the first process's child.
abbrev with_zombie : Kernel ℕ
with_zombie = record one_process {
  processes =
      first_process
      ∷ record zero_process { pid = 2; state = zombie; exit_status = 3; parent = some 0 }
      ∷ replicate 14 zero_process;
  next_pid = 3;
}

syscall_wait4_ends_example :
    Waiting.WaitEnd with_zombie 2
      (syscall_wait4 machine with_zombie 2 0).0
      (syscall_wait4 machine with_zombie 2 0).1
syscall_wait4_ends_example = Waiting.syscall_wait4_ends machine with_zombie 2 0

buffer_valid : user_range_is_valid 0x20000 100 ≡ true
unfolding user_range_is_valid
buffer_valid = refl

syscall_read_lem_example :
    ((syscall_read machine one_process 3 0x20000 100).0 ≡ 6)
    × HasMoved one_process (syscall_read machine one_process 3 0x20000 100).1 3 6
syscall_read_lem_example =
    syscall_read_lem machine one_process 3 0x20000 100 (omega arith) refl (omega arith) refl
      (omega arith) buffer_valid

closes : (syscall_close one_process 3).0 ≡ 0
unfolding syscall_close
closes = refl

close_twice_example : (syscall_close (syscall_close one_process 3).1 3).0 ≡ negative_errno ebadf
close_twice_example = close_twice one_process 3 (omega arith) refl closes

allocates : allocate_fd first_process ≡ some 4
unfolding allocate_fd xbks.Process.Table.first_free_fd
allocates = refl

allocate_fd_lem_example :
    (3 ≤ 4)
    × (4 < 16)
    × (is_none (fd_at first_process 4).kind ≡ true)
    × ((j : ℕ) → 3 ≤ j → j < 4 → is_none (fd_at first_process j).kind ≡ false)
allocate_fd_lem_example = allocate_fd_lem first_process 4 allocates

-- A file of one program header, for an empty segment at 0x400000.
abbrev program_bytes : List ℕ
program_bytes =
    (0x7f ∷ b'E' ∷ b'L' ∷ b'F' ∷ 2 ∷ 1 ∷ replicate 10 0)
    ++ (2 ∷ 0 ∷ 62 ∷ 0 ∷ 1 ∷ 0 ∷ 0 ∷ 0 ∷ [])
    ++ (0 ∷ 0 ∷ 0x40 ∷ replicate 5 0)
    ++ (64 ∷ replicate 15 0)
    ++ (0 ∷ 0 ∷ 0 ∷ 0 ∷ 64 ∷ 0 ∷ 56 ∷ 0 ∷ 1 ∷ 0 ∷ replicate 6 0)
    ++ (1 ∷ 0 ∷ 0 ∷ 0 ∷ 5 ∷ 0 ∷ 0 ∷ 0 ∷ [])
    ++ replicate 8 0
    ++ (0 ∷ 0 ∷ 0x40 ∷ replicate 5 0)
    ++ replicate 32 0

abbrev program_archive : Ramdisk
program_archive = record { bytes = λ a. get_or program_bytes a 0; size = 120; available = true }

abbrev program_file : RamdiskFile
program_file = record {
  path = [];
  contents = some 0;
  size = 120;
  directory = false;
  executable = true;
}

program_loads :
    (load_elf_into_process program_archive full_memory zero_process program_file).0 ≡ true
unfolding load_elf_into_process validate_elf xbks.Elf.Headers.bad_ident xbks.Process.Load.bad_header
    xbks.Elf.Headers.ehdr_at load_segments phdr_at xbks.Process.Load.bad_segment
    xbks.Process.Memory.map_user_range xbks.Process.Memory.map_pages xbks.Mm.Frames.align_down
    xbks.Mm.Frames.align_up xbks.Process.Memory.write_process_memory
    xbks.Process.Memory.write_chunks xbks.Process.Load.read_bytes
program_loads = refl

load_elf_into_process-IsTaken_example :
    (at : ℕ) × (h : Ehdr) × (validate_elf program_archive program_file ≡ some (at, h))
    × ((i : ℕ)
        → i < h.phnum
        → (phdr_at program_archive.bytes (at + h.phoff + i * phdr_size)).kind ≡ 1
        → IsTaken (phdr_at program_archive.bytes (at + h.phoff + i * phdr_size)) 120)
load_elf_into_process-IsTaken_example =
    load_elf_into_process-IsTaken program_archive full_memory zero_process program_file
      program_loads

-- The program header of a segment whose 16 bytes stand in front of the file.
abbrev wrapped_bytes : List ℕ
wrapped_bytes =
    (1 ∷ 0 ∷ 0 ∷ 0 ∷ 5 ∷ 0 ∷ 0 ∷ 0 ∷ [])
    ++ (0xf0 ∷ replicate 7 0xff)
    ++ (0 ∷ 0 ∷ 1 ∷ replicate 5 0)
    ++ replicate 8 0
    ++ (16 ∷ replicate 7 0)
    ++ (16 ∷ replicate 15 0)

wrapped_header : phdr_at (λ a. get_or wrapped_bytes a 0) 0 ≡ segment_before 16
unfolding phdr_at
wrapped_header = refl

wrapped_segment_example :
    (load_segments 1 full_memory 0 (λ a. get_or wrapped_bytes a 0) 200 0 100
      ≡ map_and_write full_memory 0
          (segment_before 16)
          (slice (λ a. get_or wrapped_bytes a 0) (200 - 16) 16))
    × (Image.scan_segments 1 (λ a. get_or wrapped_bytes a 0) 0 100 Image.no_span ≡ none)
wrapped_segment_example =
    wrapped_segment 16 full_memory 0 (λ a. get_or wrapped_bytes a 0) 200 0 100 (omega arith)
      (omega arith) (omega arith) (omega arith) wrapped_header

user_range_is_valid_iff_example :
    (user_range_is_valid 0x20000 100 ≡ true)
    ↔ ((◌≡◌ {A = ℕ} 100 0) ⊎ ((0x10000 ≤ 0x20000) × (0x20000 + 100 ≤ 0x0000800000000000)))
user_range_is_valid_iff_example = user_range_is_valid_iff 0x20000 100
