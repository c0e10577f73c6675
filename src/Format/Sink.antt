-- ===== src/Format/Sink.antt =====
-- The sink of lib/format.c and what writes numbers and strings to it. Characters are their codes; a
-- string is the list of the characters before its NUL; a signed number is its two's complement.
use xbks.Prelude.{
  ℕ, zero, suc, ◌+◌, ◌-◌, ◌/◌, ◌%◌, ◌^◌, Bool, false, not, ◌&&◌, List, [], ◌∷◌, ◌==◌, ltb,
  if◌then◌else◌,
}

abbrev pub size_mod : ℕ
size_mod = 2 ^ 64

-- `struct format_sink`, with the bytes at the buffer as a function of the index.
pub record FormatSink : Type 0 where
  pub buffer : ℕ → ℕ
  pub capacity : ℕ
  pub length : ℕ

abbrev pub put_char : (ℕ → ℕ) → ℕ → ℕ → ℕ → ℕ
put_char buffer i ch j = if j == i then ch else buffer j

unfoldable pub sink_putc : FormatSink → ℕ → FormatSink
sink_putc sink ch = record sink {
  buffer =
      if not (sink.capacity == 0) && ltb ((sink.length + 1) % size_mod) sink.capacity
      then put_char sink.buffer sink.length ch
      else sink.buffer;
  length = (sink.length + 1) % size_mod;
}

unfoldable pub sink_write : FormatSink → List ℕ → FormatSink
sink_write sink [] = sink
sink_write sink (ch ∷ text) = sink_write (sink_putc sink ch) text

-- `alphabet[digit]`
abbrev pub alphabet : Bool → ℕ → ℕ
alphabet uppercase digit =
    if ltb digit 10 then 48 + digit else if uppercase then 65 + (digit - 10) else 97 + (digit - 10)

-- The first loop of `sink_write_unsigned`, on fuel: what `digits` holds after it.
unfoldable pub fill_digits : ℕ → ℕ → ℕ → Bool → List ℕ
fill_digits zero value base uppercase = []
fill_digits (suc rounds) value base uppercase =
    let rest = fill_digits rounds (value / base) base uppercase in
    if value == 0 then [] else alphabet uppercase (value % base) ∷ rest

-- The second loop: the digits from the last one down to the first.
abbrev pub put_digits : FormatSink → List ℕ → FormatSink
put_digits sink [] = sink
put_digits sink (digit ∷ digits) = sink_putc (put_digits sink digits) digit

-- A 64-bit number has at most 64 digits in any base.
unfoldable pub sink_write_unsigned : FormatSink → (value base : ℕ) → (uppercase : Bool) → FormatSink
sink_write_unsigned sink value base uppercase =
    if value == 0 then sink_putc sink 48 else put_digits sink (fill_digits 64 value base uppercase)

-- `(uint64_t)(-(value + 1)) + 1`
abbrev pub negated : ℕ → ℕ
negated value = ((size_mod - (value + 1) % size_mod) % size_mod + 1) % size_mod

unfoldable pub sink_write_signed : FormatSink → ℕ → FormatSink
sink_write_signed sink value =
    if not (ltb value (2 ^ 63))
    then sink_write_unsigned (sink_putc sink 45) (negated value) 10 false
    else sink_write_unsigned sink value 10 false
