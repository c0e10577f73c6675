-- ===== src/Process/Life.antt =====
-- Processes in kernel/process.c: memory, execve, vfork, wait4 and exit, and the start of the first.
use xbks.Prelude.{
  ℕ, ◌+◌, ◌-◌, ◌*◌, Bool, true, false, not, ◌&&◌, ◌||◌, Option, none, some, List, [], ◌∷◌, ltb, leb,
  ◌==◌, if◌then◌else◌,
}
use xbks.CString.{codes}
use Prim.Native.Nat.{bit_and}
use xbks.Ramdisk.Files
use xbks.Ramdisk.Files.{LimineFile}
use xbks.Mm.Frames.{page_size, align_up}
use xbks.Mm.Tables.{page_writable}
use xbks.Mm.Spaces.{create_kernel_mapped_pml4, clone_user_space, destroy_user_space}
use xbks.Process.Types.{
  ProcessState, running, blocked, zombie, Process, SyscallFrame, Hardware, Kernel, u64_mod,
  int_to_u64, zero_process, process_at, put_process, current_process,
}
use xbks.Process.User.{
  user_top, negative_errno, user_range_is_valid, max_string, le_bytes, store_user, copy_user_string,
  copy_user_string_array,
}
use xbks.Drivers.Keyboard.{keyboard_init}
use xbks.Process.Table.{allocate_process}
use xbks.Process.Memory.{map_pages, page_rounds}
use xbks.Process.Load.{load_program}
use xbks.Process.Files.{enoexec, efault, echild, eagain, enomem}

abbrev pub brk_top : ℕ
brk_top = 0x10000000

abbrev pub is_zombie : ProcessState → Bool
is_zombie zombie = true
is_zombie _ = false

abbrev pub points_to : Option ℕ → ℕ → Bool
points_to none i = false
points_to (some p) i = p == i

-- What a call leaves: the value for `rax`, the frame and the kernel, or a processor that is halted.
pub data Outcome (H : Type 0) : Type 0 where
  returns : ℕ → SyscallFrame → Kernel H → Outcome H
  halts : Kernel H → Outcome H

module _ {H : Type 0} where
  unfoldable pub syscall_brk : Kernel H → ℕ → ℕ × Kernel H
  syscall_brk k requested =
      let p = current_process k in
      if (requested == 0) || ltb requested p.brk || leb brk_top requested
      then (p.brk, k)
      else let (done, m) =
          map_pages (page_rounds (requested - p.brk)) k.mm p.cr3 (align_up p.brk page_size)
            (align_up requested page_size) page_writable in
        if done
        then (requested, put_process (record k { mm = m }) k.current (record p { brk = requested }))
        else (p.brk, record k { mm = m })

  -- Whether `wait4` takes the process in a slot.
  abbrev pub can_reap : Kernel H → ℕ → Process → Bool
  can_reap k pid child =
      is_zombie child.state
      && points_to child.parent k.current
      && ((pid == u64_mod - 1) || (pid == int_to_u64 child.pid))

  unfoldable pub first_child : Kernel H → ℕ → List Process → ℕ → Option ℕ
  first_child k pid [] i = none
  first_child k pid (p ∷ ps) i = if can_reap k pid p then some i else first_child k pid ps (i + 1)

module _ {H : Type 0} (hw : Hardware H) where
  -- The calls of `syscall_wait4` once the child is found.
  unfoldable pub reap : Kernel H → ℕ → ℕ → ℕ × Kernel H
  reap k i status_address =
      let child = process_at k i in
      if not (status_address == 0) && not (user_range_is_valid status_address 4)
      then (negative_errno efault, k)
      else let k₁ =
          (if not (status_address == 0)
            then store_user hw k status_address (le_bytes 4 (child.exit_status * 256))
            else k) in
        let k₂ = record k₁ { mm = destroy_user_space k₁.mm child.cr3 user_top } in
        (int_to_u64 child.pid, put_process k₂ i zero_process)

  unfoldable pub syscall_wait4 : Kernel H → ℕ → ℕ → ℕ × Kernel H
  syscall_wait4 k pid status_address = elim (first_child k pid k.processes 0) [
    | none ↦ (negative_errno echild, k)
    | some i ↦ reap k i status_address
  ]

  unfoldable pub syscall_exit : Kernel H → SyscallFrame → ℕ → Outcome H
  syscall_exit k frame status =
      let p = record (current_process k) { exit_status = bit_and status 0xff; state = zombie } in
      let k₁ = put_process k k.current p in
      elim p.vfork_parent [
        | none ↦ halts k₁
        | some i ↦
            let parent = process_at k₁ i in
            returns (int_to_u64 p.pid) (record p.saved_parent_frame { rax = int_to_u64 p.pid })
              (record (put_process k₁ i (record parent { state = running })) {
                current = i;
                machine = hw.write_cr3 k₁.machine parent.cr3;
              })
      ]

  -- The child of `syscall_vfork` once its address space is copied.
  abbrev pub vfork_child : Process → ℕ → Process → ℕ → SyscallFrame → Process
  vfork_child parent at child cr3 frame = record child {
    ppid = parent.pid;
    parent = some at;
    vfork_parent = some at;
    cr3 = cr3;
    entry = parent.entry;
    stack = parent.stack;
    brk = parent.brk;
    saved_parent_frame = record frame { rax = int_to_u64 child.pid };
    fds = parent.fds;
  }

  unfoldable pub syscall_vfork : Kernel H → SyscallFrame → Outcome H
  syscall_vfork k frame = elim (allocate_process k) [
    | none ↦ returns (negative_errno eagain) frame k
    | some (i, k₁) ↦
        let (cr3, m₁) = create_kernel_mapped_pml4 k₁.mm in
        let (copied, m₂) =
          (if cr3 == 0
            then (false, m₁)
            else clone_user_space m₁ (current_process k).cr3 cr3 user_top) in
        let parent = current_process k₁ in
        let k₂ =
          put_process (record k₁ { mm = m₂ }) i
            (vfork_child parent k.current (process_at k₁ i) cr3 frame) in
        let k₃ = put_process k₂ k.current (record parent { state = blocked }) in
        let m₃ = (if cr3 == 0 then m₂ else destroy_user_space m₂ cr3 user_top) in
        if copied
        then returns 0 frame (record k₃ { current = i; machine = hw.write_cr3 k₃.machine cr3 })
        else returns (negative_errno enomem) frame
            (put_process (record k₁ { mm = m₃ }) i zero_process)
  ]

  -- `syscall_execve` once its strings are copied.
  unfoldable pub exec_program :
      Kernel H → SyscallFrame → List ℕ → List (List ℕ) → List (List ℕ) → Outcome H
  exec_program k frame path argv envp =
      let p = current_process k in
      let (loaded, n, m) = load_program k.ramdisk k.mm (record p { cr3 = 0 }) path argv envp in
      let p' = record p { cr3 = n.cr3; entry = n.entry; stack = n.stack; brk = n.brk } in
      let k' = put_process k k.current p' in
      if loaded
      then returns 0 (record frame { user_rip = n.entry; user_rsp = n.stack })
          (record k' {
            mm = destroy_user_space m p.cr3 user_top;
            machine = hw.write_cr3 k.machine n.cr3;
          })
      else returns (negative_errno enoexec) frame (record k { mm = m })

  unfoldable pub syscall_execve : Kernel H → SyscallFrame → Outcome H
  syscall_execve k frame = elim (copy_user_string hw max_string k frame.rdi) [
    | none ↦ returns (negative_errno efault) frame k
    | some path ↦ elim (copy_user_string_array hw 31 k frame.rsi) [
      | none ↦ returns (negative_errno efault) frame k
      | some argv ↦ elim (copy_user_string_array hw 31 k frame.rdx) [
        | none ↦ returns (negative_errno efault) frame k
        | some envp ↦ exec_program k frame path argv envp
      ]
    ]
  ]

  -- `xbks_process_start_init`, up to the jump to the user's entry: `none` where it returns false.
  unfoldable pub start_init : Kernel H → Option (List (Option LimineFile)) → Bool × Kernel H
  start_init k modules =
      let k₁ = record k { ramdisk = Files.init modules } in
      if not k₁.ramdisk.available then (false, k₁) else elim (allocate_process k₁) [
        | none ↦ (false, k₁)
        | some (i, k₂) ↦
            let (loaded, p, m) =
              load_program k₂.ramdisk k₂.mm (process_at k₂ i) (codes "/bin/xsh") (codes "xsh" ∷ [])
                (codes "PATH=/bin:/sbin:/usr/bin" ∷ []) in
            if loaded
            then (
              true,
              record (put_process (record k₂ { mm = m }) i p) {
                current = i;
                machine = hw.write_cr3 (hw.set_shift_pressed k₂.machine keyboard_init) p.cr3;
              },
            )
            else (false, put_process (record k₂ { mm = m }) i zero_process)
      ]
