-- ===== src/Format/Printf.antt =====
-- `xbks_vsnprintf` of lib/format.c. The format is the list of the characters before its NUL; the
-- result is `none` where an argument is missing or has another kind or size than its directive asks
-- for, and where the loop goes past the end of the format. Arguments that are left over are ignored,
-- as `va_arg` never reads them.
use xbks.Prelude.{
  ℕ, ◌+◌, ◌-◌, ◌%◌, ◌^◌, Bool, true, false, ◌||◌, Option, none, some, List, [], ◌∷◌, ◌==◌, ltb,
  if◌then◌else◌,
}
use xbks.Format.Sink.{
  FormatSink, put_char, sink_putc, sink_write, sink_write_unsigned, sink_write_signed,
}

-- An argument: an `int` or `unsigned int`; a number or a pointer of 64 bits, that is `long`,
-- `long long`, `size_t` and `void *` on this machine; or a string, `none` for a null pointer.
pub data Argument : Type 0 where
  int_word : ℕ → Argument
  long_word : ℕ → Argument
  text : Option (List ℕ) → Argument

-- The flags `long_value` and `long_long_value`.
pub data Width : Type 0 where
  int_value long_value long_long_value : Width

-- What `va_arg` takes as an unsigned number of a width, and as a signed one.
abbrev pub unsigned_of : Width → ℕ → ℕ
unsigned_of int_value w = w % 2 ^ 32
unsigned_of long_value w = w % 2 ^ 64
unsigned_of long_long_value w = w % 2 ^ 64

abbrev pub signed_of : Width → ℕ → ℕ
signed_of int_value w =
    if ltb (w % 2 ^ 32) (2 ^ 31) then w % 2 ^ 32 else w % 2 ^ 32 + (2 ^ 64 - 2 ^ 32)
signed_of long_value w = w % 2 ^ 64
signed_of long_long_value w = w % 2 ^ 64

-- "(null)"
abbrev pub null_text : List ℕ
null_text = 40 ∷ 110 ∷ 117 ∷ 108 ∷ 108 ∷ 41 ∷ []

-- The cases of the switch that take an argument.
pub data Conversion : Type 0 where
  string character signed unsigned pointer : Conversion
  hex : Bool → Conversion

abbrev pub conversion_of : ℕ → Option Conversion
conversion_of c =
    if c == 115
    then some string
    else if c == 99
    then some character
    else if c == 100 || c == 105
    then some signed
    else if c == 117
    then some unsigned
    else if c == 120 || c == 88
    then some (hex (c == 88))
    else if c == 112
    then some pointer
    else none

-- The word of an argument that has a width's size.
abbrev pub word_of : Width → Argument → Option ℕ
word_of int_value (int_word w) = some w
word_of long_value (long_word w) = some w
word_of long_long_value (long_word w) = some w
word_of _ _ = none

abbrev pub string_of : Argument → Option (List ℕ)
string_of (text none) = some null_text
string_of (text (some s)) = some s
string_of (int_word w) = none
string_of (long_word w) = none

abbrev pub with_arg {ℓ κ} : {A : Type ℓ} {B : Type κ} → (A → B) → Option A → Option B
with_arg f none = none
with_arg f (some a) = some (f a)

-- `va_arg` and the call that writes the argument.
abbrev pub write_argument : FormatSink → Width → Conversion → Argument → Option FormatSink
write_argument sink width string argument =
    with_arg (λ (s : List ℕ). sink_write sink s) (string_of argument)
write_argument sink width character argument =
    with_arg (λ (w : ℕ). sink_putc sink (w % 2 ^ 8)) (word_of int_value argument)
write_argument sink width signed argument =
    with_arg (λ (w : ℕ). sink_write_signed sink (signed_of width w)) (word_of width argument)
write_argument sink width unsigned argument =
    with_arg (λ (w : ℕ). sink_write_unsigned sink (unsigned_of width w) 10 false)
      (word_of width argument)
write_argument sink width (hex uppercase) argument =
    with_arg (λ (w : ℕ). sink_write_unsigned sink (unsigned_of width w) 16 uppercase)
      (word_of width argument)
write_argument sink width pointer argument =
    with_arg
      (λ (w : ℕ). sink_write_unsigned (sink_write sink (48 ∷ 120 ∷ [])) (w % 2 ^ 64) 16 false)
      (word_of long_value argument)

-- The switch on the character of a directive.
abbrev pub convert : FormatSink → Width → ℕ → List Argument → Option (FormatSink × List Argument)
convert sink width c args =
    if c == 37 then some (sink_putc sink 37, args) else elim (conversion_of c) [
      | none ↦ some (sink_putc (sink_putc sink 37) c, args)
      | some conversion ↦ elim args [
        | [] ↦ none
        | argument ∷ rest ↦ elim (write_argument sink width conversion argument) [
          | none ↦ none
          | some sink' ↦ some (sink', rest)
        ]
      ]
    ]

-- The loop over the format, from a character, after a '%', after "%l", and after "%ll" or "%z".
unfoldable mutual
  pub format_loop : FormatSink → List ℕ → List Argument → Option FormatSink
  format_loop sink [] args = some sink
  format_loop sink (c ∷ fmt) args = elim (c == 37) [
    | false ↦ format_loop (sink_putc sink c) fmt args
    | true ↦ directive sink fmt args
  ]

  pub directive : FormatSink → List ℕ → List Argument → Option FormatSink
  directive sink [] args = some (sink_putc sink 37)
  directive sink (c ∷ fmt) args = elim (c == 108) [
    | true ↦ long_directive sink fmt args
    | false ↦ elim (c == 122) [
      | true ↦ long_long_directive sink fmt args
      | false ↦ elim (convert sink int_value c args) [
        | none ↦ none
        | some (sink', rest) ↦ format_loop sink' fmt rest
      ]
    ]
  ]

  pub long_directive : FormatSink → List ℕ → List Argument → Option FormatSink
  long_directive sink [] args = none
  long_directive sink (c ∷ fmt) args = elim (c == 108) [
    | true ↦ long_long_directive sink fmt args
    | false ↦ elim (convert sink long_value c args) [
      | none ↦ none
      | some (sink', rest) ↦ format_loop sink' fmt rest
    ]
  ]

  pub long_long_directive : FormatSink → List ℕ → List Argument → Option FormatSink
  long_long_directive sink [] args = none
  long_long_directive sink (c ∷ fmt) args = elim (convert sink long_long_value c args) [
    | none ↦ none
    | some (sink', rest) ↦ format_loop sink' fmt rest
  ]

-- `INT32_MAX`
abbrev pub int32_max : ℕ
int32_max = 2 ^ 31 - 1

-- `xbks_vsnprintf` and `xbks_snprintf`: the result and the buffer.
unfoldable pub vsnprintf : (ℕ → ℕ) → ℕ → List ℕ → List Argument → Option (ℕ × (ℕ → ℕ))
vsnprintf buffer buffer_size fmt args =
    elim (format_loop (record { buffer = buffer; capacity = buffer_size; length = 0 }) fmt args) [
      | none ↦ none
      | some sink ↦ some (
        if ltb int32_max sink.length then int32_max else sink.length,
        if buffer_size == 0
            then sink.buffer
            else put_char sink.buffer
                (if ltb sink.length buffer_size then sink.length else buffer_size - 1) 0,
      )
    ]

-- `xbks_snprintf`, which hands its arguments over.
abbrev pub snprintf : (ℕ → ℕ) → ℕ → List ℕ → List Argument → Option (ℕ × (ℕ → ℕ))
snprintf buffer buffer_size fmt args = vsnprintf buffer buffer_size fmt args
