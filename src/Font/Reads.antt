-- ===== src/Font/Reads.antt =====
-- The reads of drivers/font_ttf.c. The file is a function from offsets to bytes; a pointer into it is an
-- offset. A signed 16-bit number is its two's complement.
use Prim.Native.Nat.{bit_or}
use xbks.Prelude.{ℕ, ◌+◌, ◌-◌, ◌*◌, ◌^◌, Bool, ◌&&◌, leb, ltb, if◌then◌else◌}

abbrev pub Bytes : Type 0
Bytes = ℕ → ℕ

unfoldable pub range_is_valid : (size offset length : ℕ) → Bool
range_is_valid size offset length = leb offset size && leb length (size - offset)

unfoldable pub read_u16 : Bytes → ℕ → ℕ
read_u16 bytes p = bit_or (bytes p * 2 ^ 8) (bytes (p + 1))

unfoldable pub read_s16 : Bytes → ℕ → ℕ
read_s16 bytes p = read_u16 bytes p

unfoldable pub read_u32 : Bytes → ℕ → ℕ
read_u32 bytes p =
    bit_or (bit_or (bit_or (bytes p * 2 ^ 24) (bytes (p + 1) * 2 ^ 16)) (bytes (p + 2) * 2 ^ 8))
      (bytes (p + 3))

unfoldable pub tag_from_string : Bytes → ℕ → ℕ
tag_from_string bytes p =
    bit_or (bit_or (bit_or (bytes p * 2 ^ 24) (bytes (p + 1) * 2 ^ 16)) (bytes (p + 2) * 2 ^ 8))
      (bytes (p + 3))

-- The conversion of a signed 16-bit number to 32 bits.
unfoldable pub extend_s16 : ℕ → ℕ
extend_s16 w = if ltb w (2 ^ 15) then w else w + (2 ^ 32 - 2 ^ 16)
