-- ===== src/Shell/Editing.antt =====
-- The line buffer of kernel/shell.c does what an editor of a text of at most 127 characters does.
use xbks.Prelude.{
  ℕ, suc, ◌+◌, ◌-◌, ◌<◌, ◌≡◌, ◌≢◌, refl, ap, sym, ◌∙◌, inl, inr, true, false, ◌&&◌, Bool-cases,
  Option, none, some, List, [], ◌∷◌, ◌++◌, All, length, length-append, length-set, take,
  length-take, set, ◌==◌, ltb, leb, if◌then◌else◌, arith,
}
use xbks.CString.Text.{text}
use xbks.Drivers.Console.{Output}
use xbks.Drivers.Log.{All-take}
use xbks.Shell.Commands.{Console, BootInfo, Ran, returned, halted, say, run_command}
use xbks.Shell.Buffer.{run_command-text, text_whole, text-set, take-set, take-take, All-append}
use xbks.Shell.Line.{
  ShellLine, Round, goes_on, stops, after_command, finish_line, shell_round, rounds, and_on,
}

-- The editor: a text, its last character dropped, a character appended, its command run.
unfoldable pub edit_round : Console → BootInfo → List ℕ → ℕ → Option (Round (List ℕ))
edit_round console boot_info t ch =
    if ch == 10
    then after_command console (run_command console boot_info t) []
    else if ch == 8
    then if length t == 0
      then some (goes_on [] t)
      else some (goes_on (say console (8 ∷ 32 ∷ 8 ∷ [])) (take (length t - 1) t))
    else if leb 32 ch && leb ch 126 && ltb (length t) 127
    then some (goes_on (say console (ch ∷ [])) (t ++ (ch ∷ [])))
    else some (goes_on [] t)

-- The buffer holds the text.
pub record IsLine (shell : ShellLine) (t : List ℕ) : Type 0 where
  pub size : length shell.line ≡ 128
  pub measure : shell.line_length ≡ length t
  pub room : length t < 128
  pub holds : take (length t) shell.line ≡ t
  pub nonzero : All (λ c. c ≢ 0) t

-- Two rounds that send the same, and go on with a buffer and its text, or stop.
data SameRound : Option (Round ShellLine) → Option (Round (List ℕ)) → Type 0 where
  both_undefined : SameRound none none
  both_stop : {out : List Output} → SameRound (some (stops out)) (some (stops out))
  both_go :
      {out : List Output} {shell : ShellLine} {t : List ℕ}
      → IsLine shell t
      → SameRound (some (goes_on out shell)) (some (goes_on out t))

after-SameRound :
    (console : Console) (ran : Option Ran) (shell : ShellLine) (t : List ℕ)
    → IsLine shell t
    → SameRound (after_command console ran shell) (after_command console ran t)
after-SameRound console none shell t is_line = both_undefined
after-SameRound console (some (returned out)) shell t is_line = both_go is_line
after-SameRound console (some (halted out)) shell t is_line = both_stop

finish-SameRound :
    (console : Console) (boot_info : BootInfo) (shell : ShellLine) (t : List ℕ)
    → IsLine shell t
    → SameRound
        (finish_line console boot_info shell)
        (after_command console (run_command console boot_info t) [])
unfolding finish_line
finish-SameRound console boot_info shell t is_line =
    let terminated = set shell.line shell.line_length 0 in
    let named : text terminated ≡ text t = rw is_line.measure (
      text-set shell.line t is_line.holds is_line.nonzero
        (omega (arith, is_line.size, is_line.room))
      ∙ sym (text_whole t is_line.nonzero)) in
    rw (run_command-text console boot_info terminated t named) (
      after-SameRound console (run_command console boot_info t)
        (record { line = terminated; line_length = 0 }) []
        (record {
          size = length-set shell.line shell.line_length 0 ∙ is_line.size;
          measure = refl;
          room = omega arith;
          holds = refl;
          nonzero = tt;
        }))

erased-IsLine :
    (shell : ShellLine) (t : List ℕ)
    → IsLine shell t
    → IsLine (record shell { line_length = shell.line_length - 1 }) (take (length t - 1) t)
erased-IsLine shell t is_line =
    let shorter : length (take (length t - 1) t) ≡ length t - 1 =
      omega (arith, length-take (length t - 1) t) in
    record {
      size = is_line.size;
      measure = omega (arith, shorter, is_line.measure);
      room = omega (arith, shorter, is_line.room);
      holds = rw shorter (
          sym (take-take (length t - 1) (length t) shell.line (omega arith))
          ∙ ap (take (length t - 1)) is_line.holds);
      nonzero = All-take (length t - 1) t is_line.nonzero;
    }

appended-IsLine :
    (shell : ShellLine) (t : List ℕ) (ch : ℕ)
    → IsLine shell t
    → ch ≢ 0
    → length t < 127
    → IsLine
        (record { line = set shell.line shell.line_length ch; line_length = shell.line_length + 1 })
        (t ++ (ch ∷ []))
appended-IsLine shell t ch is_line nz fits =
    let longer : length (t ++ (ch ∷ [])) ≡ suc (length t) =
      omega (arith, length-append t (ch ∷ [])) in
    record {
      size = length-set shell.line shell.line_length ch ∙ is_line.size;
      measure = omega (arith, longer, is_line.measure);
      room = omega (arith, longer);
      holds =
          rw (longer, is_line.measure)
            (take-set shell.line (length t) ch (omega (arith, is_line.size))
              ∙ ap (λ u. u ++ (ch ∷ [])) is_line.holds);
      nonzero = All-append t (ch ∷ []) is_line.nonzero (nz, tt);
    }

round-SameRound :
    (console : Console) (boot_info : BootInfo) (shell : ShellLine) (t : List ℕ) (ch : ℕ)
    → IsLine shell t
    → SameRound (shell_round console boot_info shell ch) (edit_round console boot_info t ch)
unfolding shell_round edit_round
round-SameRound console boot_info shell t ch is_line = elim (Bool-cases (ch == 10)) [
  | inl e ↦ rw e (finish-SameRound console boot_info shell t is_line)
  | inr e₁ ↦ elim (Bool-cases (ch == 8)) [
    | inl e ↦ elim (Bool-cases (length t == 0)) [
      | inl none_left ↦
          let same : (shell.line_length == 0) ≡ true = rw is_line.measure none_left in
          rw (e₁, e, same, none_left) (both_go is_line)
      | inr some_left ↦
          let same : (shell.line_length == 0) ≡ false = rw is_line.measure some_left in
          rw (e₁, e, same, some_left) (both_go (erased-IsLine shell t is_line))
    ]
    | inr e₂ ↦ elim (Bool-cases (leb 32 ch && leb ch 126 && ltb (length t) 127)) [
      | inl ok ↦
          let same : (leb 32 ch && leb ch 126 && ltb (shell.line_length + 1) 128) ≡ true =
            rw is_line.measure (ground arith) in
          rw (e₁, e₂, ok, same)
            (both_go (appended-IsLine shell t ch is_line (ground arith) (ground arith)))
      | inr not_ok ↦
          let same : (leb 32 ch && leb ch 126 && ltb (shell.line_length + 1) 128) ≡ false =
            rw is_line.measure (ground arith) in
          rw (e₁, e₂, not_ok, same) (both_go is_line)
    ]
  ]
]

and_on-same :
    (a : Option (Round ShellLine)) (b : Option (Round (List ℕ)))
    (f : ShellLine → Option (List Output)) (g : List ℕ → Option (List Output))
    → SameRound a b
    → ((shell : ShellLine) (t : List ℕ) → IsLine shell t → f shell ≡ g t)
    → and_on a f ≡ and_on b g
unfolding and_on
and_on-same none (some round) f g same h = elim same [ ]
and_on-same (some (goes_on out shell)) none f g same h = elim same [ ]
and_on-same (some (goes_on out shell)) (some (stops _)) f g same h = elim same [ ]
and_on-same (some (stops out)) none f g same h = elim same [ ]
and_on-same (some (stops out)) (some (goes_on _ t)) f g same h = elim same [ ]
and_on-same none none f g both_undefined h = refl
and_on-same (some (stops out)) (some (stops _)) f g both_stop h = refl
and_on-same (some (goes_on out shell)) (some (goes_on _ t)) f g (both_go is_line) h =
    rw (h shell t is_line, and_on) refl

rounds-same :
    (console : Console) (boot_info : BootInfo) (shell : ShellLine) (t keys : List ℕ)
    → IsLine shell t
    → rounds (shell_round console boot_info) shell keys
      ≡ rounds (edit_round console boot_info) t keys
unfolding rounds
rounds-same console boot_info shell t [] is_line = refl
rounds-same console boot_info shell t (ch ∷ keys) is_line =
    and_on-same (shell_round console boot_info shell ch) (edit_round console boot_info t ch) _ _
      (round-SameRound console boot_info shell t ch is_line)
      (λ shell' t' is_line'. rounds-same console boot_info shell' t' keys is_line')

-- Started with a line buffer of 128 bytes and no character in it, the rounds of the shell send to
-- the devices, for any row of characters, what the rounds of an editor send that keeps a text of
-- at most 127 characters, drops its last character on a backspace, appends a printable one where
-- there is room, and runs the text as a command on a line feed.
pub shell_run-edits :
    (console : Console) (boot_info : BootInfo) (line keys : List ℕ)
    → length line ≡ 128
    → rounds (shell_round console boot_info) (record { line = line; line_length = 0 }) keys
      ≡ rounds (edit_round console boot_info) [] keys
shell_run-edits console boot_info line keys size =
    rounds-same console boot_info (record { line = line; line_length = 0 }) [] keys
      (record { size = size; measure = refl; room = omega arith; holds = refl; nonzero = tt })
