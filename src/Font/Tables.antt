-- ===== src/Font/Tables.antt =====
-- `get_table`, `select_cmap_subtable` and `parse_ttf` of drivers/font_ttf.c. A loop takes the number of
-- rounds left.
use xbks.Prelude.{
  ℕ, zero, suc, ◌+◌, ◌*◌, Bool, not, ◌&&◌, ◌||◌, Option, none, some, ◌==◌, if◌then◌else◌,
}
use xbks.Font.Reads.{Bytes, range_is_valid, read_u16, read_u32, tag_from_string}

-- `struct ttf_table`
pub record TtfTable : Type 0 where
  pub at : ℕ
  pub size : ℕ

-- The loop of `get_table` over the records. `none` for false.
unfoldable pub find_table : ℕ → Bytes → (size tag i : ℕ) → Option TtfTable
find_table zero bytes size tag i = none
find_table (suc n) bytes size tag i =
    let at = 12 + i * 16 in
    let offset = read_u32 bytes (at + 8) in
    let length = read_u32 bytes (at + 12) in
    let rest = find_table n bytes size tag (i + 1) in
    if tag_from_string bytes at == tag
    then if not (range_is_valid size offset length)
      then none
      else some (record { at = offset; size = length })
    else rest

unfoldable pub get_table : Bytes → (size tag : ℕ) → Option TtfTable
get_table bytes size tag =
    if not (range_is_valid size 0 12)
    then none
    else if not (range_is_valid size 12 (read_u16 bytes 4 * 16))
    then none
    else find_table (read_u16 bytes 4) bytes size tag 0

-- The length that the header of a subtable states, where it is of a format that is read.
unfoldable pub subtable_length : Bytes → TtfTable → (offset : ℕ) → Option ℕ
subtable_length bytes cmap offset =
    let format = read_u16 bytes (cmap.at + offset) in
    if format == 4
    then if not (range_is_valid cmap.size offset 4)
      then none
      else some (read_u16 bytes (cmap.at + offset + 2))
    else if format == 12
    then if not (range_is_valid cmap.size offset 16)
      then none
      else some (read_u32 bytes (cmap.at + offset + 4))
    else none

-- The subtable at an offset, if it is whole.
unfoldable pub subtable_at : Bytes → TtfTable → (offset : ℕ) → Option TtfTable
subtable_at bytes cmap offset =
    if not (range_is_valid cmap.size offset 2)
    then none
    else elim (subtable_length bytes cmap offset) [
      | none ↦ none
      | some length ↦
          if not (range_is_valid cmap.size offset length)
          then none
          else some (record { at = cmap.at + offset; size = length })
    ]

-- The subtable of a record.
unfoldable pub subtable_of : Bytes → TtfTable → (i : ℕ) → Option TtfTable
subtable_of bytes cmap i = subtable_at bytes cmap (read_u32 bytes (cmap.at + (4 + i * 8) + 4))

unfoldable pub is_unicode : Bytes → TtfTable → (i : ℕ) → Bool
is_unicode bytes cmap i =
    let platform = read_u16 bytes (cmap.at + (4 + i * 8)) in
    let encoding = read_u16 bytes (cmap.at + (4 + i * 8) + 2) in
    ((platform == 3) && ((encoding == 1) || (encoding == 10))) || (platform == 0)

abbrev pub first_of : Option TtfTable → TtfTable → Option TtfTable
first_of none subtable = some subtable
first_of (some fallback) subtable = some fallback

-- The loop of `select_cmap_subtable`, with the fallback.
unfoldable pub scan_subtables : ℕ → Bytes → TtfTable → ℕ → Option TtfTable → Option TtfTable
scan_subtables zero bytes cmap i fallback = fallback
scan_subtables (suc n) bytes cmap i fallback = elim (subtable_of bytes cmap i) [
  | none ↦ scan_subtables n bytes cmap (i + 1) fallback
  | some subtable ↦
      let rest = scan_subtables n bytes cmap (i + 1) (first_of fallback subtable) in
      if is_unicode bytes cmap i then some subtable else rest
]

unfoldable pub select_cmap_subtable : Bytes → TtfTable → Option TtfTable
select_cmap_subtable bytes cmap =
    if not (range_is_valid cmap.size 0 4)
    then none
    else if not (range_is_valid cmap.size 4 (read_u16 bytes (cmap.at + 2) * 8))
    then none
    else scan_subtables (read_u16 bytes (cmap.at + 2)) bytes cmap 0 none
