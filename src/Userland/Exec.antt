-- ===== src/Userland/Exec.antt =====
-- `user_api_exec` and `xbks_userland_start` of kernel/userland.c. The code of a program is not in the
-- repository's kernel: it is a parameter, which gives for an entry point and the arguments what the
-- program does next: it changes the memory and, where it reads the keyboard, the shift state; it looks
-- at the memory, calls `exec`, or returns.
use xbks.Prelude.{
  ℕ, zero, suc, Bool, true, false, not, Option, none, some, List, [], ◌∷◌, if◌then◌else◌,
}
use xbks.CString.{Mem, codes}
use xbks.Ramdisk.Tar.{Ramdisk, RamdiskFile}
use xbks.Ramdisk.Files.{LimineFile}
use xbks.Ramdisk.Files
use xbks.Elf.Image.{load_image}
use xbks.Drivers.Keyboard.{keyboard_init}
use xbks.Process.User.{negative_errno}
use xbks.Process.Files.{enoent, enoexec, efault, eisdir}

abbrev pub eacces : ℕ
eacces = 13

abbrev pub ebusy : ℕ
ebusy = 16

-- The memory, the shift state of the keyboard and the flag `command_running`.
pub record Userland : Type 0 where
  pub memory : Mem
  pub shift_pressed : Bool
  pub command_running : Bool

-- The arguments of an `exec`: the path, whether `argc` is negative, and `argv`, `none` for null.
pub record ExecCall : Type 0 where
  pub path : Option (List ℕ)
  pub negative_argc : Bool
  pub argv : Option (List (List ℕ))

-- What a program does.
pub data Program : Type 0 where
  exits : ℕ → Program
  stores : (Mem → Bool → Mem × Bool) → Program → Program
  loads : (Mem → Program) → Program
  execs : ExecCall → (ℕ → Program) → Program

-- The programs, the archive and the two arenas.
pub record Machine : Type 0 where
  pub program_at : ℕ → List (List ℕ) → Program
  pub ramdisk : Ramdisk
  pub cmd_base : ℕ
  pub cmd_size : ℕ
  pub xsh_base : ℕ
  pub xsh_size : ℕ

-- A program with what its calls of `exec` do.
unfoldable pub run_program :
    (ExecCall → Userland → Option (ℕ × Userland)) → Program → Userland → Option (ℕ × Userland)
run_program exec (exits status) u = some (status, u)
run_program exec (stores change program) u =
    let (memory, shift_pressed) = change u.memory u.shift_pressed in
    run_program exec program (record u { memory = memory; shift_pressed = shift_pressed })
run_program exec (loads next) u = run_program exec (next u.memory) u
run_program exec (execs call next) u = elim (exec call u) [
  | none ↦ none
  | some (status, u') ↦ run_program exec (next status) u'
]

-- `run_loaded_image`, with how a program is run.
unfoldable pub run_loaded_image :
    Machine
    → (Program → Userland → Option (ℕ × Userland))
    → RamdiskFile
    → (base size : ℕ) → List (List ℕ)
    → Userland
    → Option (ℕ × Userland)
run_loaded_image machine run file base size argv u =
    if file.directory
    then some (negative_errno eisdir, u)
    else if not file.executable
    then some (negative_errno eacces, u)
    else elim (load_image machine.ramdisk file base size u.memory) [
      | none ↦ some (negative_errno enoexec, u)
      | some (image, memory) ↦
          run (machine.program_at image.entry argv) (record u { memory = memory })
    ]

abbrev pub no_longer_running : Option (ℕ × Userland) → Option (ℕ × Userland)
no_longer_running none = none
no_longer_running (some (status, u)) = some (status, record u { command_running = false })

-- What `user_api_exec` does with a path and the arguments.
unfoldable pub exec_path :
    Machine
    → (Program → Userland → Option (ℕ × Userland))
    → List ℕ
    → List (List ℕ)
    → Userland
    → Option (ℕ × Userland)
exec_path machine run path argv u =
    if u.command_running
    then some (negative_errno ebusy, u)
    else elim (Files.find machine.ramdisk path) [
      | none ↦ some (negative_errno enoent, u)
      | some file ↦ no_longer_running (
          run_loaded_image machine run file machine.cmd_base machine.cmd_size argv
            (record u { command_running = true }))
    ]

unfoldable pub exec_with :
    Machine
    → (Program → Userland → Option (ℕ × Userland))
    → ExecCall
    → Userland
    → Option (ℕ × Userland)
exec_with machine run call u = elim call.path [
  | none ↦ some (negative_errno efault, u)
  | some path ↦ if call.negative_argc then some (negative_errno efault, u) else elim call.argv [
    | none ↦ some (negative_errno efault, u)
    | some argv ↦ exec_path machine run path argv u
  ]
]

-- `user_api_exec`, with a bound on how deep calls nest; `none` beyond it.
unfoldable pub user_api_exec : Machine → (depth : ℕ) → ExecCall → Userland → Option (ℕ × Userland)
user_api_exec machine zero call u = exec_with machine (λ program u'. none) call u
user_api_exec machine (suc depth) call u =
    exec_with machine (run_program (user_api_exec machine depth)) call u

-- How `xbks_userland_start` ends.
pub data Started : Type 0 where
  no_boot_info no_ramdisk no_shell bad_shell : Started
  shell_returned : ℕ → Userland → Started

-- `xbks_userland_start` after `xbks_ramdisk_init`.
unfoldable pub start_shell : Machine → (depth : ℕ) → Userland → Option Started
start_shell machine depth u = elim (Files.find machine.ramdisk (codes "/bin/xsh")) [
  | none ↦ some no_shell
  | some file ↦ elim (load_image machine.ramdisk file machine.xsh_base machine.xsh_size u.memory) [
    | none ↦ some bad_shell
    | some (image, memory) ↦
        elim (run_program (user_api_exec machine depth)
          (machine.program_at image.entry (codes "xsh" ∷ []))
          (record u { memory = memory; shift_pressed = keyboard_init })) [
            | none ↦ none
            | some (status, u') ↦ some (shell_returned status u')
          ]
  ]
]

-- `xbks_userland_start`: the boot information is there or not, and it lists the modules.
unfoldable pub userland_start :
    Machine → (depth : ℕ) → Option (Option (List (Option LimineFile))) → Userland → Option Started
userland_start machine depth none u = some no_boot_info
userland_start machine depth (some modules) u =
    let ramdisk = Files.init modules in
    if not ramdisk.available
    then some no_ramdisk
    else start_shell (record machine { ramdisk = ramdisk }) depth u
