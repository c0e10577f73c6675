-- ===== src/Drivers/Console.antt =====
-- The output of kernel/log.c, drivers/serial.c and drivers/tty.c. What a function sends to the devices
-- is the list of its writes; the wait for the serial line before each byte is not in it. The terminal
-- is the third-party flanterm: a call of `flanterm_write` is a write.
use xbks.Prelude.{
  ℕ, zero, suc, ◌+◌, Bool, Option, none, some, List, [], ◌∷◌, ◌++◌, ◌==◌, if◌then◌else◌,
}
use xbks.CString.{codes}
use xbks.Format.Printf.{Argument, vsnprintf}

-- A byte to the debug console, a byte to the serial line, a call of `flanterm_write`, a byte to another
-- port.
pub data Output : Type 0 where
  debugcon serial : ℕ → Output
  terminal : List ℕ → Output
  out_port : ℕ → ℕ → Output

-- `xbks_serial_write` on COM1.
unfoldable pub serial_write : List ℕ → List Output
serial_write [] = []
serial_write (c ∷ bytes) =
    let rest = serial_write bytes in
    if c == 10 then serial 13 ∷ serial c ∷ rest else serial c ∷ rest

-- The loop of `xbks_tty_write`.
unfoldable pub tty_characters : List ℕ → List Output
tty_characters [] = []
tty_characters (c ∷ bytes) =
    let rest = tty_characters bytes in
    if c == 10 then terminal (13 ∷ 10 ∷ []) ∷ rest else terminal (c ∷ []) ∷ rest

-- `xbks_tty_write`, with whether `tty_context` is set.
unfoldable pub tty_write : Bool → List ℕ → List Output
tty_write available bytes = if available then tty_characters bytes else []

unfoldable pub debugcon_bytes : List ℕ → List Output
debugcon_bytes [] = []
debugcon_bytes (c ∷ bytes) = debugcon c ∷ debugcon_bytes bytes

-- `xbks_console_write`, and `xbks_console_write_string` of a string without its NUL.
unfoldable pub console_write : Bool → List ℕ → List Output
console_write available bytes =
    debugcon_bytes bytes ++ (serial_write bytes ++ tty_write available bytes)

pub data LogLevel : Type 0 where
  debug info warn error : LogLevel

abbrev pub level_name : LogLevel → List ℕ
level_name debug = codes "debug"
level_name info = codes "info"
level_name warn = codes "warn"
level_name error = codes "error"

unfoldable pub log_write : Bool → LogLevel → List ℕ → List Output
log_write available level message =
    console_write available (codes "[")
    ++ (console_write available (level_name level)
        ++ (console_write available (codes "] ")
            ++ (console_write available message ++ console_write available (codes "\n"))))

-- The string at a buffer, from an index on.
unfoldable pub string_from : ℕ → (ℕ → ℕ) → ℕ → List ℕ
string_from zero buffer i = []
string_from (suc n) buffer i =
    let rest = string_from n buffer (i + 1) in if buffer i == 0 then [] else buffer i ∷ rest

-- `char buffer[512]`
abbrev pub log_size : ℕ
log_size = 512

-- `xbks_log_printf`, with the bytes that the stack holds.
unfoldable pub log_printf :
    Bool → (stack : ℕ → ℕ) → LogLevel → List ℕ → List Argument → Option (List Output)
log_printf available stack level fmt args = elim (vsnprintf stack log_size fmt args) [
  | none ↦ none
  | some (written, buffer) ↦ some (log_write available level (string_from log_size buffer 0))
]
