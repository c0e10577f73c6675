-- ===== src/Shell/Tests.antt =====
-- Concrete runs of the theorems on kernel/shell.c.
use xbks.Prelude.{ℕ, ◌≡◌, refl, true, none, some, List, [], ◌∷◌, replicate}
use xbks.Shell.Commands.{Console, BootInfo}
use xbks.Shell.Line.{shell_round, rounds}
use xbks.Shell.Editing.{edit_round, shell_run-edits}
use xbks.Shell.Defined.{IsDefined, shell-IsDefined}

abbrev sample_console : Console
sample_console = record { tty_available = true; stack = λ i. 0 }

abbrev sample_boot : BootInfo
sample_boot = record { bootloader = none; cmdline = none; memmap = some 12 }

-- "hx", a backspace, "elp", a line feed.
abbrev sample_keys : List ℕ
sample_keys = 104 ∷ 120 ∷ 8 ∷ 101 ∷ 108 ∷ 112 ∷ 10 ∷ []

abbrev empty_line : List ℕ
empty_line = replicate 128 0

shell_run-edits_example :
    rounds
      (shell_round sample_console sample_boot)
      (record { line = empty_line; line_length = 0 })
      sample_keys
    ≡ rounds (edit_round sample_console sample_boot) [] sample_keys
shell_run-edits_example = shell_run-edits sample_console sample_boot empty_line sample_keys refl

shell-IsDefined_example : IsDefined (
    rounds
      (shell_round sample_console sample_boot)
      (record { line = empty_line; line_length = 0 })
      sample_keys)
shell-IsDefined_example =
    shell-IsDefined sample_console sample_boot (record { line = empty_line; line_length = 0 })
      sample_keys
