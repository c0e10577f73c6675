-- ===== src/Shell/Defined.antt =====
-- Every round of the shell of kernel/shell.c is defined: each directive of a command's message has its
-- argument.
use xbks.Prelude.{
  ℕ, ◌+◌, ◌≡◌, refl, inl, inr, ◌&&◌, Bool-cases, Option-cases, Option, none, some, List, [], ◌∷◌,
  set, ◌==◌, ltb, leb,
}
use xbks.CString.{codes, char_at, strcmp, is_zero}
use xbks.Format.Printf.{Argument, long_word, vsnprintf, format_loop}
use xbks.Drivers.Console.{Output, log_printf}
use xbks.Shell.Commands.{
  Console, BootInfo, Ran, returned, halted, Handler, help_handler, info_handler, memmap_handler,
  clear_handler, reboot_handler, ShellCommand, commands, log_info, bootloader_of, cmdline_of,
  command_info, command_memmap, run_handler, find_command, run_command,
}
use xbks.Shell.Line.{
  ShellLine, Round, goes_on, stops, after_command, finish_line, shell_round, and_on, rounds,
}

abbrev pub IsDefined {ℓ} : {A : Type ℓ} → Option A → Type ℓ
IsDefined {A = A} o = (a : A) × (o ≡ some a)

log_info-IsDefined :
    (console : Console) (a b : List ℕ)
    → IsDefined (
        log_info console
          (codes "bootloader: %s %s")
          (Argument.text (some a) ∷ Argument.text (some b) ∷ []))
unfolding log_printf vsnprintf format_loop
log_info-IsDefined console a b = (_, refl)

cmdline-IsDefined :
    (console : Console) (a : List ℕ)
    → IsDefined (log_info console (codes "cmdline: %s") (Argument.text (some a) ∷ []))
unfolding log_printf vsnprintf format_loop
cmdline-IsDefined console a = (_, refl)

memmap-IsDefined :
    (console : Console) (w : ℕ)
    → IsDefined (log_info console (codes "memory map has %llu entries") (long_word w ∷ []))
unfolding log_printf vsnprintf format_loop
memmap-IsDefined console w = (_, refl)

run_handler-IsDefined :
    (console : Console) (boot_info : BootInfo) (handler : Handler)
    → IsDefined (run_handler console boot_info handler)
unfolding command_info command_memmap
run_handler-IsDefined console boot_info help_handler = (_, refl)
run_handler-IsDefined console boot_info clear_handler = (_, refl)
run_handler-IsDefined console boot_info reboot_handler = (_, refl)
run_handler-IsDefined console boot_info info_handler =
    let (name, version) = bootloader_of boot_info in
    let (a, e) = log_info-IsDefined console name version in
    let (b, e') = cmdline-IsDefined console (cmdline_of boot_info) in
    rw (command_info, e, e') (_, refl)
run_handler-IsDefined console boot_info memmap_handler = elim (Option-cases boot_info.memmap) [
  | inl e ↦ rw (command_memmap, e) (_, refl)
  | inr (count, e) ↦
      let (a, e') = memmap-IsDefined console count in rw (command_memmap, e, e') (_, refl)
]

find_command-IsDefined :
    (console : Console) (boot_info : BootInfo) (name : List ℕ) (commands : List ShellCommand)
    → IsDefined (find_command console boot_info name commands)
unfolding find_command
find_command-IsDefined console boot_info name [] = (_, refl)
find_command-IsDefined console boot_info name (command ∷ rest) =
    elim (Bool-cases (is_zero (strcmp name command.name))) [
      | inl e ↦ rw e (run_handler-IsDefined console boot_info command.handler)
      | inr e ↦ rw e (find_command-IsDefined console boot_info name rest)
    ]

run_command-IsDefined :
    (console : Console) (boot_info : BootInfo) (name : List ℕ)
    → IsDefined (run_command console boot_info name)
unfolding run_command
run_command-IsDefined console boot_info name = elim (Bool-cases (char_at name == 0)) [
  | inl e ↦ rw e (_, refl)
  | inr e ↦ rw e (find_command-IsDefined console boot_info name commands)
]

after_command-IsDefined :
    {S : Type 0} (console : Console) (ran : Option Ran) (next : S)
    → IsDefined ran
    → IsDefined (after_command console ran next)
after_command-IsDefined console none next (a, e) = absurd cc
after_command-IsDefined console (some (returned out)) next h = (_, refl)
after_command-IsDefined console (some (halted out)) next h = (_, refl)

shell_round-IsDefined :
    (console : Console) (boot_info : BootInfo) (shell : ShellLine) (ch : ℕ)
    → IsDefined (shell_round console boot_info shell ch)
unfolding shell_round finish_line
shell_round-IsDefined console boot_info shell ch = elim (Bool-cases (ch == 10)) [
  | inl e ↦
      let terminated = set shell.line shell.line_length 0 in
      rw e (
        after_command-IsDefined console (run_command console boot_info terminated)
          (record { line = terminated; line_length = 0 })
          (run_command-IsDefined console boot_info terminated))
  | inr e₁ ↦ elim (Bool-cases (ch == 8)) [
    | inl e ↦ elim (Bool-cases (shell.line_length == 0)) [
      | inl none_left ↦ rw (e₁, e, none_left) (_, refl)
      | inr some_left ↦ rw (e₁, e, some_left) (_, refl)
    ]
    | inr e₂ ↦ elim (Bool-cases (leb 32 ch && leb ch 126 && ltb (shell.line_length + 1) 128)) [
      | inl ok ↦ rw (e₁, e₂, ok) (_, refl)
      | inr not_ok ↦ rw (e₁, e₂, not_ok) (_, refl)
    ]
  ]
]

and_on-IsDefined :
    {S : Type 0} (a : Option (Round S)) (f : S → Option (List Output))
    → IsDefined a
    → ((s : S) → IsDefined (f s))
    → IsDefined (and_on a f)
unfolding and_on
and_on-IsDefined none f (a, e) h = absurd cc
and_on-IsDefined (some (stops out)) f d h = (_, refl)
and_on-IsDefined (some (goes_on out next)) f d h =
    let (more, e) = h next in rw (and_on, e) (_, refl)

-- From any state of its line the shell handles any row of characters to their end or to a command
-- that halts: each directive in a message of a command has an argument of its kind and size, and
-- no format is read past its end.
pub shell-IsDefined :
    (console : Console) (boot_info : BootInfo) (shell : ShellLine) (keys : List ℕ)
    → IsDefined (rounds (shell_round console boot_info) shell keys)
unfolding rounds
shell-IsDefined console boot_info shell [] = (_, refl)
shell-IsDefined console boot_info shell (ch ∷ keys) =
    and_on-IsDefined (shell_round console boot_info shell ch)
      (λ next. rounds (shell_round console boot_info) next keys)
      (shell_round-IsDefined console boot_info shell ch)
      (λ next. shell-IsDefined console boot_info next keys)
