-- ===== src/Format/Renders.antt =====
-- The language of the formats of lib/format.c: which text a format stands for, and that
-- `xbks_vsnprintf` writes it.
use xbks.Prelude.{
  ℕ, ◌-◌, ◌%◌, ◌^◌, ◌<◌, ◌≡◌, ◌≢◌, refl, ap, inl, inr, min, Bool, false, true, All, not, ◌&&◌, none,
  some, List, [], ◌∷◌, ◌++◌, Bool-cases, length, get_or, ◌==◌, ltb, if◌then◌else◌, arith,
}
use xbks.Format.Sink.{FormatSink, put_char, sink_putc, sink_write}
use xbks.Format.Printf.{
  Argument, word_of, text, Width, int_value, long_value, long_long_value, unsigned_of, signed_of,
  null_text, Conversion, string, character, signed, unsigned, pointer, hex, conversion_of,
  write_argument, convert, format_loop, directive, long_directive, long_long_directive, int32_max,
  vsnprintf,
}
use xbks.Format.Numbers.{
  numeral, signed_numeral, sink_write-append, sink_write_unsigned-numeral,
  sink_write_signed-numeral,
}
use xbks.Format.Text.{sink_write-length, sink_write-buffer}

-- What the letters of the directives mean.
pub data Means : ℕ → Conversion → Type 0 where
  s_string : Means 115 string
  c_character : Means 99 character
  d_signed : Means 100 signed
  i_signed : Means 105 signed
  u_unsigned : Means 117 unsigned
  x_hex : Means 120 (hex false)
  upper_x_hex : Means 88 (hex true)
  p_pointer : Means 112 pointer

-- A character that is none of them.
abbrev pub IsOther : ℕ → Type 0
IsOther c = All (λ letter. c ≢ letter) (115 ∷ 99 ∷ 100 ∷ 105 ∷ 117 ∷ 120 ∷ 88 ∷ 112 ∷ [])

conversion_of-Means : {c : ℕ} {k : Conversion} → Means c k → conversion_of c ≡ some k
conversion_of-Means s_string = refl
conversion_of-Means c_character = refl
conversion_of-Means d_signed = refl
conversion_of-Means i_signed = refl
conversion_of-Means u_unsigned = refl
conversion_of-Means x_hex = refl
conversion_of-Means upper_x_hex = refl
conversion_of-Means p_pointer = refl

conversion_of-IsOther : (c : ℕ) → IsOther c → conversion_of c ≡ none
conversion_of-IsOther c (s, (ch, (d, (i, (u, (x, (ux, (p, t)))))))) = ground arith

-- The text of an argument.
pub data Shows : Width → Conversion → Argument → List ℕ → Type 0 where
  a_string : {width : Width} {s : List ℕ} → Shows width string (text (some s)) s
  a_null : {width : Width} → Shows width string (text none) null_text
  a_character :
      {width : Width} {argument : Argument} {w : ℕ}
      → word_of int_value argument ≡ some w
      → Shows width character argument (w % 2 ^ 8 ∷ [])
  a_signed :
      {width : Width} {argument : Argument} {w : ℕ}
      → word_of width argument ≡ some w
      → Shows width signed argument (signed_numeral (signed_of width w))
  an_unsigned :
      {width : Width} {argument : Argument} {w : ℕ}
      → word_of width argument ≡ some w
      → Shows width unsigned argument (numeral (unsigned_of width w) 10 false)
  a_hex :
      {width : Width} {argument : Argument} {w : ℕ} {uppercase : Bool}
      → word_of width argument ≡ some w
      → Shows width (hex uppercase) argument (numeral (unsigned_of width w) 16 uppercase)
  a_pointer :
      {width : Width} {argument : Argument} {w : ℕ}
      → word_of long_value argument ≡ some w
      → Shows width pointer argument (48 ∷ 120 ∷ numeral (w % 2 ^ 64) 16 false)

-- The letters in front of a conversion.
pub data Letters : List ℕ → Width → ℕ → Type 0 where
  no_letter : {c : ℕ} → c ≢ 108 → c ≢ 122 → Letters [] int_value c
  l_letter : {c : ℕ} → c ≢ 108 → Letters (108 ∷ []) long_value c
  ll_letters : {c : ℕ} → Letters (108 ∷ 108 ∷ []) long_long_value c
  z_letter : {c : ℕ} → Letters (122 ∷ []) long_long_value c

-- What a conversion stands for, and the arguments that it leaves.
pub data Converts : Width → ℕ → List Argument → List ℕ → List Argument → Type 0 where
  percent : {width : Width} {args : List Argument} → Converts width 37 args (37 ∷ []) args
  unknown :
      {width : Width} {c : ℕ} {args : List Argument}
      → c ≢ 37
      → IsOther c
      → Converts width c args (37 ∷ c ∷ []) args
  known :
      {width : Width} {c : ℕ} {conversion : Conversion} {argument : Argument} {args : List Argument}
      {t : List ℕ}
      → c ≢ 37
      → Means c conversion
      → Shows width conversion argument t
      → Converts width c (argument ∷ args) t args

-- The text that a format stands for.
pub data Renders : List ℕ → List Argument → List ℕ → Type 0 where
  done : {args : List Argument} → Renders [] args []
  plain :
      {c : ℕ} {fmt t : List ℕ} {args : List Argument}
      → c ≢ 37
      → Renders fmt args t
      → Renders (c ∷ fmt) args (c ∷ t)
  last_percent : {args : List Argument} → Renders (37 ∷ []) args (37 ∷ [])
  converted :
      {letters fmt t u : List ℕ} {width : Width} {c : ℕ} {args rest : List Argument}
      → Letters letters width c
      → Converts width c args t rest
      → Renders fmt rest u
      → Renders (37 ∷ (letters ++ (c ∷ fmt))) args (t ++ u)

signed_of_bound : (width : Width) (w : ℕ) → signed_of width w < 2 ^ 64
signed_of_bound int_value w = ground arith
signed_of_bound long_value w = omega arith
signed_of_bound long_long_value w = omega arith

write_argument-Shows :
    (sink : FormatSink) (width : Width) (conversion : Conversion) (argument : Argument) (t : List ℕ)
    → Shows width conversion argument t
    → write_argument sink width conversion argument ≡ some (sink_write sink t)
unfolding sink_write
write_argument-Shows sink width string argument t a_string = refl
write_argument-Shows sink width string argument t a_null = refl
write_argument-Shows sink width character argument t (a_character e) = rw e refl
write_argument-Shows sink width signed argument t (a_signed {w = w} e) =
    rw e (ap some (sink_write_signed-numeral sink (signed_of width w) (signed_of_bound width w)))
write_argument-Shows sink width unsigned argument t (an_unsigned {w = w} e) =
    rw e (ap some (sink_write_unsigned-numeral sink (unsigned_of width w) 10 false))
write_argument-Shows sink width (hex uppercase) argument t (a_hex {w = w} e) =
    rw e (ap some (sink_write_unsigned-numeral sink (unsigned_of width w) 16 uppercase))
write_argument-Shows sink width pointer argument t (a_pointer {w = w} e) =
    rw e (
      ap some (sink_write_unsigned-numeral (sink_write sink (48 ∷ 120 ∷ [])) (w % 2 ^ 64) 16 false))

convert-Converts :
    (sink : FormatSink) (width : Width) (c : ℕ) (args rest : List Argument) (t : List ℕ)
    → Converts width c args t rest
    → convert sink width c args ≡ some (sink_write sink t, rest)
unfolding sink_write
convert-Converts sink width c args rest t percent = refl
convert-Converts sink width c args rest t (unknown ne other) =
    let apart : (c == 37) ≡ false = ground arith in rw (apart, conversion_of-IsOther c other) refl
convert-Converts sink width c (argument ∷ args) rest t (known {conversion = k} ne means shows) =
    let apart : (c == 37) ≡ false = ground arith in
    rw (apart, conversion_of-Means means, write_argument-Shows sink width k argument t shows) refl

pub format_loop-Renders :
    (sink : FormatSink) (fmt : List ℕ) (args : List Argument) (t : List ℕ)
    → Renders fmt args t
    → format_loop sink fmt args ≡ some (sink_write sink t)
unfolding format_loop sink_write
format_loop-Renders sink [] args t done = refl
format_loop-Renders sink (c ∷ fmt) args (c' ∷ t) (plain ne more) =
    let apart : (c == 37) ≡ false = ground arith in
    rw (apart, format_loop) (format_loop-Renders (sink_putc sink c) fmt args t more)
format_loop-Renders sink fmt args t last_percent = refl
format_loop-Renders sink fmt args t
      (converted {fmt = after} {t = t'} {u} {width} {c} {rest = rest}
        (no_letter nl nz)
        converts
        more) =
    let apart : (c == 108) ≡ false = ground arith in
    let apart' : (c == 122) ≡ false = ground arith in
    rw
      (
        apart,
        format_loop,
        directive,
        apart',
        convert-Converts sink width c args rest t' converts,
        format_loop-Renders (sink_write sink t') after rest u more,
        sink_write-append sink t' u,
      )
      refl
format_loop-Renders sink fmt args t
      (converted {fmt = after} {t = t'} {u} {width} {c} {rest = rest} (l_letter nl) converts more) =
    let apart : (c == 108) ≡ false = ground arith in
    rw
      (
        apart,
        format_loop,
        directive,
        long_directive,
        convert-Converts sink width c args rest t' converts,
        format_loop-Renders (sink_write sink t') after rest u more,
        sink_write-append sink t' u,
      )
      refl
format_loop-Renders sink fmt args t
      (converted {fmt = after} {t = t'} {u} {width} {c} {rest = rest} ll_letters converts more) =
    rw
      (
        format_loop,
        directive,
        long_directive,
        long_long_directive,
        convert-Converts sink width c args rest t' converts,
        format_loop-Renders (sink_write sink t') after rest u more,
        sink_write-append sink t' u,
      )
      refl
format_loop-Renders sink fmt args t
      (converted {fmt = after} {t = t'} {u} {width} {c} {rest = rest} z_letter converts more) =
    rw
      (
        format_loop,
        directive,
        long_directive,
        long_long_directive,
        convert-Converts sink width c args rest t' converts,
        format_loop-Renders (sink_write sink t') after rest u more,
        sink_write-append sink t' u,
      )
      refl

-- The buffer after a call: as much of the text as there is room for, and a NUL.
abbrev pub filled : (ℕ → ℕ) → ℕ → List ℕ → ℕ → ℕ
filled buffer size t j =
    if ltb j (min (length t) (size - 1))
    then get_or t j 0
    else if not (size == 0) && j == min (length t) (size - 1)
    then 0
    else buffer j

-- If a format with its arguments stands for a text of fewer than 2^64 characters, xbks_vsnprintf
-- with a buffer of any size returns the length of the text or INT32_MAX, whichever is less, and
-- leaves in the buffer as many of its characters as there is room for before a NUL, the NUL, and
-- the other bytes as they were; a buffer of size 0 is left alone.
pub vsnprintf-Renders :
    (buffer : ℕ → ℕ) (size : ℕ) (fmt : List ℕ) (args : List Argument) (t : List ℕ)
    → Renders fmt args t
    → length t < 2 ^ 64
    → (after : ℕ → ℕ) × (vsnprintf buffer size fmt args ≡ some (min (length t) int32_max, after))
      × ((j : ℕ) → after j ≡ filled buffer size t j)
unfolding vsnprintf
vsnprintf-Renders buffer size fmt args t renders fits =
    let sink : FormatSink = record { buffer = buffer; capacity = size; length = 0 } in
    let whole : (sink_write sink t).length ≡ length t =
      omega (arith, sink_write-length sink t (omega arith)) in
    let start : (j : ℕ) → j - 0 ≡ j = λ j. omega arith in
    let limit : (if ltb int32_max (length t) then int32_max else length t)
        ≡ min (length t) int32_max =
      ground arith in
    (
      (if size == 0
          then (sink_write sink t).buffer
          else put_char (sink_write sink t).buffer
              (if ltb (length t) size then length t else size - 1) 0),
      rw (format_loop-Renders sink fmt args t renders, vsnprintf, whole, limit) refl,
      λ j. elim (Bool-cases (size == 0)) [
        | inl e ↦ rw (e, sink_write-buffer sink t j (omega arith), start j) (ground arith)
        | inr e ↦ rw (e, sink_write-buffer sink t j (omega arith), start j) (ground arith)
      ],
    )
