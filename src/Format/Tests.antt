-- ===== src/Format/Tests.antt =====
-- Concrete runs of the theorems on lib/format.c.
use xbks.Prelude.{
  ℕ, ◌-◌, ◌+◌, ◌^◌, ◌≤◌, ◌≡◌, ◌≢◌, refl, inr, min, true, some, List, [], ◌∷◌, length, get_or, arith,
}
use xbks.Format.Sink.{FormatSink, sink_write, sink_write_unsigned}
use xbks.Format.Printf.{Argument, int_word, long_word, int32_max, vsnprintf}
use xbks.Format.Numbers.{read_number, sink_write_unsigned-reads}
use xbks.Format.Renders.{
  Renders, done, plain, converted, no_letter, ll_letters, known, percent, d_signed, x_hex, a_signed,
  a_hex, filled, vsnprintf-Renders,
}

abbrev sample : ℕ
sample = 48879

abbrev untouched : ℕ → ℕ
untouched j = 255

abbrev empty_sink : FormatSink
empty_sink = record { buffer = untouched; capacity = 8; length = 0 }

sink_write_unsigned-reads_example :
    (t : List ℕ) × (sink_write_unsigned empty_sink sample 16 true ≡ sink_write empty_sink t)
    × (read_number 16 0 t ≡ sample)
    × (sample ≢ 0 → get_or t 0 48 ≢ 48)
    × (length t ≤ 20)
sink_write_unsigned-reads_example =
    sink_write_unsigned-reads empty_sink sample 16 true (inr refl) (omega arith)

-- "a%d%%%llx"
abbrev sample_format : List ℕ
sample_format = 97 ∷ 37 ∷ 100 ∷ 37 ∷ 37 ∷ 37 ∷ 108 ∷ 108 ∷ 120 ∷ []

abbrev sample_arguments : List Argument
sample_arguments = int_word (2 ^ 32 - 5) ∷ long_word (2 ^ 40 + 10) ∷ []

-- "a-5%1000000000a"
abbrev sample_text : List ℕ
sample_text = 97 ∷ 45 ∷ 53 ∷ 37 ∷ 49 ∷ 48 ∷ 48 ∷ 48 ∷ 48 ∷ 48 ∷ 48 ∷ 48 ∷ 48 ∷ 48 ∷ 97 ∷ []

sample-Renders : Renders sample_format sample_arguments sample_text
unfolding xbks.Format.Sink.fill_digits
sample-Renders = plain (ground arith) (
    converted (no_letter (ground arith) (ground arith))
      (known (ground arith) d_signed (a_signed refl))
      (converted (no_letter (ground arith) (ground arith)) percent
        (converted ll_letters (known (ground arith) x_hex (a_hex refl)) done)))

vsnprintf-Renders_example :
    (after : ℕ → ℕ) × (vsnprintf untouched 8 sample_format sample_arguments
      ≡ some (min (length sample_text) int32_max, after))
    × ((j : ℕ) → after j ≡ filled untouched 8 sample_text j)
vsnprintf-Renders_example =
    vsnprintf-Renders untouched 8 sample_format sample_arguments sample_text sample-Renders
      (omega arith)
