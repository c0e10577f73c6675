-- ===== src/Shell/Line.antt =====
-- The line of `xbks_shell_run` of kernel/shell.c: what each character does to it.
use xbks.Prelude.{
  ℕ, ◌+◌, ◌-◌, ◌&&◌, Option, none, some, List, [], ◌∷◌, ◌++◌, ◌==◌, ltb, leb, set, if◌then◌else◌,
}
use xbks.CString.{codes}
use xbks.Drivers.Console.{Output}
use xbks.Shell.Commands.{Console, BootInfo, Ran, returned, halted, say, write_prompt, run_command}

-- `char line[128]` and `line_length`.
pub record ShellLine : Type 0 where
  pub line : List ℕ
  pub line_length : ℕ

-- What the round of one character sends, and the state for the next one unless the machine halts.
pub data Round (S : Type 0) : Type 0 where
  goes_on : List Output → S → Round S
  stops : List Output → Round S

-- A command between the line feed and the next prompt.
abbrev pub after_command : {S : Type 0} → Console → Option Ran → S → Option (Round S)
after_command console none next = none
after_command console (some (returned out)) next =
    some (goes_on (say console (codes "\n") ++ (out ++ write_prompt console)) next)
after_command console (some (halted out)) next = some (stops (say console (codes "\n") ++ out))

-- The round of a line feed.
unfoldable pub finish_line : Console → BootInfo → ShellLine → Option (Round ShellLine)
finish_line console boot_info shell =
    let terminated = set shell.line shell.line_length 0 in
    after_command console (run_command console boot_info terminated)
      (record { line = terminated; line_length = 0 })

-- One round of the loop.
unfoldable pub shell_round : Console → BootInfo → ShellLine → ℕ → Option (Round ShellLine)
shell_round console boot_info shell ch =
    if ch == 10
    then finish_line console boot_info shell
    else if ch == 8
    then if shell.line_length == 0
      then some (goes_on [] shell)
      else some (
          goes_on (say console (8 ∷ 32 ∷ 8 ∷ []))
            (record shell { line_length = shell.line_length - 1 }))
    else if leb 32 ch && leb ch 126 && ltb (shell.line_length + 1) 128
    then some (
        goes_on (say console (ch ∷ [])) (record {
          line = set shell.line shell.line_length ch;
          line_length = shell.line_length + 1;
        }))
    else some (goes_on [] shell)

-- A round's output, and the output of the rounds after it.
unfoldable pub and_on :
    {S : Type 0} → Option (Round S) → (S → Option (List Output)) → Option (List Output)
and_on none rest = none
and_on (some (stops out)) rest = some out
and_on (some (goes_on out next)) rest = elim (rest next) [
  | none ↦ none
  | some more ↦ some (out ++ more)
]

-- The rounds of a row of characters: what the devices get, up to a halt.
unfoldable pub rounds :
    {S : Type 0} → (S → ℕ → Option (Round S)) → S → List ℕ → Option (List Output)
rounds step s [] = some []
rounds step s (ch ∷ chs) = and_on (step s ch) λ next. rounds step next chs

-- `xbks_shell_run` on the characters that the keyboard gives.
unfoldable pub shell_run : Console → BootInfo → List ℕ → List ℕ → Option (List Output)
shell_run console boot_info line keys =
    elim (rounds (shell_round console boot_info) (record { line = line; line_length = 0 }) keys) [
      | none ↦ none
      | some out ↦ some (
          say console (codes "\nxbks early shell\n")
          ++ (say console (codes "type 'help' for commands\n") ++ (write_prompt console ++ out)))
    ]
