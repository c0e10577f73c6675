-- ===== src/Drivers/Tests.antt =====
-- Concrete runs of the theorems on drivers/.
use xbks.Prelude.{
  ℕ, ◌+◌, ◌<◌, ◌≤◌, ◌≡◌, refl, Bool, true, some, List, [], ◌∷◌, All, take, ◌==◌, if◌then◌else◌,
  arith,
}
use xbks.CString.{codes}
use xbks.Format.Printf.{Argument}
use xbks.Format.Renders.{Renders, plain, converted, no_letter, known, done, s_string, a_string}
use xbks.Drivers.Console.{info, log_write, log_printf}
use xbks.Drivers.Log.{log_printf-Renders}
use xbks.Drivers.Keyboard.{Ports, keyboard_read_char_blocking}
use xbks.Drivers.Typing.{type_keys, keyboard-types, blocking-ends}

keyboard-types_example :
    (scancodes : List ℕ) × All (λ k. k < 256) scancodes × (type_keys true scancodes ≡ 64 ∷ [])
keyboard-types_example = keyboard-types true 64 (omega arith) (omega arith)

-- A carriage return comes in at the third round.
abbrev third_round : ℕ → Ports
third_round round = record {
  line_status = if round == 2 then 0x61 else 0x60;
  line_data = 13;
  ps2_status = 0;
  ps2_data = 0;
}

blocking-ends_example :
    (ch : ℕ) × (shift_after : Bool) × (next : ℕ) × (keyboard_read_char_blocking 5 true third_round 0
      ≡ some (ch, shift_after, next))
    × (next ≤ 0 + 2 + 1)
blocking-ends_example = blocking-ends 5 true third_round 0 2 refl (omega arith)

-- "cmdline: %s"
greeting-Renders :
    Renders
      (codes "cmdline: %s")
      (Argument.text (some (codes "quiet")) ∷ [])
      (codes "cmdline: quiet")
greeting-Renders = plain (ground arith) (
    plain (ground arith) (
      plain (ground arith) (
        plain (ground arith) (
          plain (ground arith) (
            plain (ground arith) (
              plain (ground arith) (
                plain (ground arith) (
                  plain (ground arith) (
                    converted (no_letter (ground arith) (ground arith))
                      (known (ground arith) s_string a_string) done)))))))))

-- What the stack holds before.
abbrev stack_before : ℕ → ℕ
stack_before i = 170

log_printf-Renders_example :
    log_printf true stack_before info
      (codes "cmdline: %s")
      (Argument.text (some (codes "quiet")) ∷ [])
    ≡ some (log_write true info (take 511 (codes "cmdline: quiet")))
log_printf-Renders_example =
    log_printf-Renders true stack_before info (codes "cmdline: %s")
      (Argument.text (some (codes "quiet")) ∷ []) (codes "cmdline: quiet") greeting-Renders
      (omega arith) (ground arith)
