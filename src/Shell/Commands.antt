-- ===== src/Shell/Commands.antt =====
-- The commands of kernel/shell.c. A call gives what it sends to the devices, and whether it returns:
-- the reboot does not. `none` stands for a format and arguments that do not agree.
use xbks.Prelude.{ℕ, Bool, Option, none, some, List, [], ◌∷◌, ◌++◌, ◌==◌, if◌then◌else◌}
use xbks.CString.{codes, char_at, strcmp, is_zero}
use xbks.CString.Text.{text}
use xbks.Format.Printf.{Argument, long_word}
use xbks.Drivers.Console.{Output, out_port, console_write, info, log_printf}

-- What the shell reads of `struct xbks_boot_info`: the loader's name and version, the command line,
-- the number of memory map entries; `none` for a null pointer.
pub record BootInfo : Type 0 where
  pub bootloader : Option (List ℕ × List ℕ)
  pub cmdline : Option (Option (List ℕ))
  pub memmap : Option ℕ

-- How a call ends.
pub data Ran : Type 0 where
  returned halted : List Output → Ran

-- The console and the stack below a call.
pub record Console : Type 0 where
  pub tty_available : Bool
  pub stack : ℕ → ℕ

abbrev pub say : Console → List ℕ → List Output
say console string = console_write console.tty_available string

pub data Handler : Type 0 where
  help_handler info_handler memmap_handler clear_handler reboot_handler : Handler

-- `struct shell_command`
pub record ShellCommand : Type 0 where
  pub name : List ℕ
  pub summary : List ℕ
  pub handler : Handler

abbrev pub commands : List ShellCommand
commands =
    record { name = codes "help"; summary = codes "list built-in commands"; handler = help_handler }
    ∷ record {
      name = codes "info";
      summary = codes "print boot protocol state";
      handler = info_handler;
    }
    ∷ record {
      name = codes "memmap";
      summary = codes "print memory map summary";
      handler = memmap_handler;
    }
    ∷ record { name = codes "clear"; summary = codes "clear the terminal"; handler = clear_handler }
    ∷ record {
      name = codes "reboot";
      summary = codes "reset through the PS/2 controller";
      handler = reboot_handler;
    }
    ∷ []

unfoldable pub write_prompt : Console → List Output
write_prompt console = say console (codes "xbks> ")

-- The loop of `command_help`.
unfoldable pub help_lines : Console → List ShellCommand → List Output
help_lines console [] = []
help_lines console (command ∷ rest) =
    say console (codes "  ")
    ++ (say console command.name
        ++ (say console (codes " - ")
            ++ (say console command.summary
                ++ (say console (codes "\n") ++ help_lines console rest))))

unfoldable pub command_help : Console → List Output
command_help console = say console (codes "built-in commands:\n") ++ help_lines console commands

abbrev pub log_info : Console → List ℕ → List Argument → Option (List Output)
log_info console fmt args = log_printf console.tty_available console.stack info fmt args

abbrev pub then_returned : Option (List Output) → Option (List Output) → Option Ran
then_returned none second = none
then_returned (some first) none = none
then_returned (some first) (some second) = some (returned (first ++ second))

abbrev pub bootloader_of : BootInfo → List ℕ × List ℕ
bootloader_of boot_info = elim boot_info.bootloader [
  | none ↦ (codes "(unknown)", codes "(unknown)")
  | some bootloader ↦ bootloader
]

abbrev pub cmdline_of : BootInfo → List ℕ
cmdline_of boot_info = elim boot_info.cmdline [
  | none ↦ []
  | some cmdline ↦ elim cmdline [ none ↦ [] | some text ↦ text ]
]

unfoldable pub command_info : Console → BootInfo → Option Ran
command_info console boot_info =
    let (name, version) = bootloader_of boot_info in
    then_returned
      (log_info console (codes "bootloader: %s %s")
        (Argument.text (some name) ∷ Argument.text (some version) ∷ []))
      (log_info console (codes "cmdline: %s") (Argument.text (some (cmdline_of boot_info)) ∷ []))

unfoldable pub command_memmap : Console → BootInfo → Option Ran
command_memmap console boot_info = elim boot_info.memmap [
  | none ↦ some (returned (say console (codes "memory map unavailable\n")))
  | some entry_count ↦
      then_returned
        (log_info console (codes "memory map has %llu entries") (long_word entry_count ∷ []))
        (some [])
]

-- "\x1b[2J\x1b[H"
unfoldable pub command_clear : Console → List Output
command_clear console = say console (27 ∷ codes "[2J" ++ (27 ∷ codes "[H"))

-- The reset goes to the keyboard controller once it is ready; the processor then halts for good.
unfoldable pub command_reboot : Console → List Output
command_reboot console = say console (codes "rebooting...\n") ++ (out_port 0x64 0xfe ∷ [])

abbrev pub run_handler : Console → BootInfo → Handler → Option Ran
run_handler console boot_info help_handler = some (returned (command_help console))
run_handler console boot_info info_handler = command_info console boot_info
run_handler console boot_info memmap_handler = command_memmap console boot_info
run_handler console boot_info clear_handler = some (returned (command_clear console))
run_handler console boot_info reboot_handler = some (halted (command_reboot console))

-- The loop of `run_command`, and what follows it.
unfoldable pub find_command : Console → BootInfo → List ℕ → List ShellCommand → Option Ran
find_command console boot_info name [] = some (
    returned (
      say console (codes "unknown command: ")
      ++ (say console (text name) ++ say console (codes "\n"))))
find_command console boot_info name (command ∷ rest) =
    let others = find_command console boot_info name rest in
    if is_zero (strcmp name command.name)
    then run_handler console boot_info command.handler
    else others

-- `run_command` of the string at a buffer.
unfoldable pub run_command : Console → BootInfo → List ℕ → Option Ran
run_command console boot_info name =
    if char_at name == 0 then some (returned []) else find_command console boot_info name commands
