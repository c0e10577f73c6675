-- ===== src/Font/Glyphs.antt =====
-- The glyph of a character: `glyph_for_codepoint` of drivers/font_ttf.c and the two formats of its table.
use Prim.Native.Nat.{bit_and}
use xbks.Prelude.{
  ℕ, zero, suc, ◌+◌, ◌-◌, ◌*◌, ◌/◌, ◌%◌, ◌^◌, not, ◌||◌, Option, none, some, ◌==◌, ltb, leb,
  if◌then◌else◌,
}
use xbks.Font.Reads.{Bytes, range_is_valid, read_u16, read_s16, read_u32, extend_s16}
use xbks.Font.Tables.{TtfTable}

-- Where the four arrays of a format 4 table start, after its segment count.
abbrev pub end_codes : ℕ
end_codes = 14

abbrev pub start_codes : ℕ → ℕ
start_codes seg_count = end_codes + seg_count * 2 + 2

abbrev pub id_deltas : ℕ → ℕ
id_deltas seg_count = start_codes seg_count + seg_count * 2

abbrev pub id_range_offsets : ℕ → ℕ
id_range_offsets seg_count = id_deltas seg_count + seg_count * 2

-- The glyph of a character in a segment.
unfoldable pub segment_glyph : Bytes → TtfTable → (seg_count i codepoint start_code : ℕ) → ℕ
segment_glyph bytes subtable seg_count i codepoint start_code =
    let delta = read_s16 bytes (subtable.at + (id_deltas seg_count + i * 2)) in
    let range_offset = read_u16 bytes (subtable.at + (id_range_offsets seg_count + i * 2)) in
    let glyph_offset =
      id_range_offsets seg_count + i * 2 + range_offset + (codepoint - start_code) * 2 in
    let glyph = read_u16 bytes (subtable.at + glyph_offset) in
    if range_offset == 0
    then bit_and ((codepoint + extend_s16 delta) % 2 ^ 32) 0xffff
    else if not (range_is_valid subtable.size glyph_offset 2)
    then 0
    else if glyph == 0
    then 0
    else bit_and (glyph + delta) 0xffff

-- The loop over the segments.
unfoldable pub scan_segments : ℕ → Bytes → TtfTable → (seg_count i codepoint : ℕ) → ℕ
scan_segments zero bytes subtable seg_count i codepoint = 0
scan_segments (suc n) bytes subtable seg_count i codepoint =
    let end_code = read_u16 bytes (subtable.at + (end_codes + i * 2)) in
    let start_code = read_u16 bytes (subtable.at + (start_codes seg_count + i * 2)) in
    let rest = scan_segments n bytes subtable seg_count (i + 1) codepoint in
    if ltb codepoint start_code
    then 0
    else if ltb end_code codepoint
    then rest
    else segment_glyph bytes subtable seg_count i codepoint start_code

unfoldable pub cmap_format4_glyph : Bytes → TtfTable → ℕ → ℕ
cmap_format4_glyph bytes subtable codepoint =
    let seg_count = read_u16 bytes (subtable.at + 6) / 2 in
    if ltb 0xffff codepoint || ltb subtable.size 16
    then 0
    else if not (range_is_valid subtable.size (id_range_offsets seg_count) (seg_count * 2))
    then 0
    else scan_segments seg_count bytes subtable seg_count 0 codepoint

-- The loop over the groups.
unfoldable pub scan_groups : ℕ → Bytes → TtfTable → (i codepoint : ℕ) → ℕ
scan_groups zero bytes subtable i codepoint = 0
scan_groups (suc n) bytes subtable i codepoint =
    let group = subtable.at + (16 + i * 12) in
    let start_char = read_u32 bytes group in
    let end_char = read_u32 bytes (group + 4) in
    let start_glyph = read_u32 bytes (group + 8) in
    let glyph = ((start_glyph + codepoint) % 2 ^ 32 + 2 ^ 32 - start_char) % 2 ^ 32 in
    let rest = scan_groups n bytes subtable (i + 1) codepoint in
    if ltb codepoint start_char
    then 0
    else if leb codepoint end_char
    then if leb glyph 0xffff then glyph else 0
    else rest

unfoldable pub cmap_format12_glyph : Bytes → TtfTable → ℕ → ℕ
cmap_format12_glyph bytes subtable codepoint =
    let group_count = read_u32 bytes (subtable.at + 12) in
    if ltb subtable.size 16
    then 0
    else if not (range_is_valid subtable.size 16 (group_count * 12))
    then 0
    else scan_groups group_count bytes subtable 0 codepoint

-- `none` where the font has no subtable.
unfoldable pub glyph_for_codepoint : Bytes → Option TtfTable → ℕ → ℕ
glyph_for_codepoint bytes none codepoint = 0
glyph_for_codepoint bytes (some subtable) codepoint =
    if ltb subtable.size 2
    then 0
    else if read_u16 bytes subtable.at == 4
    then cmap_format4_glyph bytes subtable codepoint
    else if read_u16 bytes subtable.at == 12
    then cmap_format12_glyph bytes subtable codepoint
    else 0
