-- ===== src/Font/Parse.antt =====
-- `find_font_module`, `parse_ttf`, `glyph_bounds` and `glyph_advance` of drivers/font_ttf.c.
use xbks.Prelude.{
  ℕ, ◌+◌, ◌-◌, ◌*◌, Bool, true, false, not, ◌&&◌, ◌||◌, Option, none, some, List, [], ◌∷◌, ◌==◌,
  ltb, leb, if◌then◌else◌,
}
use xbks.CString.{codes, strcmp, is_zero}
use xbks.Ramdisk.Path.{string_ends_with}
use xbks.Ramdisk.Files.{LimineFile, string_or_empty}
use xbks.Font.Reads.{Bytes, range_is_valid, read_u16, read_s16, read_u32}
use xbks.Font.Tables.{TtfTable, get_table, select_cmap_subtable}

-- Whether a module has the name of the font.
unfoldable pub is_font_module : LimineFile → Bool
is_font_module module_file =
    is_zero (strcmp (string_or_empty module_file.string) (codes "system-font"))
    || (string_ends_with (string_or_empty module_file.path) (codes "/system.ttf")
        || string_ends_with (string_or_empty module_file.path) (codes "system.ttf"))

abbrev pub is_null : Option Bytes → Bool
is_null none = true
is_null (some bytes) = false

-- The loop of `find_font_module`.
unfoldable pub scan_modules : List (Option LimineFile) → Option LimineFile
scan_modules [] = none
scan_modules (none ∷ modules) = scan_modules modules
scan_modules (some module_file ∷ modules) =
    let rest = scan_modules modules in
    if is_null module_file.address || (module_file.size == 0)
    then rest
    else if is_font_module module_file
    then some module_file
    else rest

-- `none` for no module.
unfoldable pub find_font_module : Option (List (Option LimineFile)) → Option LimineFile
find_font_module none = none
find_font_module (some modules) = scan_modules modules

-- `struct ttf_font` after `parse_ttf`, without its data and size; `os_2` has size 0 where the file has
-- no such table.
pub record TtfFont : Type 0 where
  pub cmap : TtfTable
  pub glyf : TtfTable
  pub head : TtfTable
  pub hhea : TtfTable
  pub hmtx : TtfTable
  pub loca : TtfTable
  pub maxp : TtfTable
  pub os_2 : TtfTable
  pub cmap_subtable : Option TtfTable
  pub num_glyphs : ℕ
  pub number_of_hmetrics : ℕ
  pub units_per_em : ℕ
  pub ascent : ℕ
  pub descent : ℕ
  pub line_gap : ℕ
  pub typo_ascent : ℕ
  pub typo_descent : ℕ
  pub typo_line_gap : ℕ
  pub index_to_loc_format : ℕ

-- The tables that a font must have, and the optional one.
pub record FontTables : Type 0 where
  pub cmap : TtfTable
  pub glyf : TtfTable
  pub head : TtfTable
  pub hhea : TtfTable
  pub hmtx : TtfTable
  pub loca : TtfTable
  pub maxp : TtfTable
  pub os_2 : TtfTable

abbrev pub no_table : TtfTable
no_table = record { at = 0; size = 0 }

abbrev pub or_no_table : Option TtfTable → TtfTable
or_no_table none = no_table
or_no_table (some t) = t

-- A call that fails makes the whole fail.
infixl 5 ◌>>=◌
abbrev pub ◌>>=◌ {ℓ κ} : {A : Type ℓ} {B : Type κ} → Option A → (A → Option B) → Option B
none >>= f = none
some a >>= f = f a

-- The calls of `get_table` with the tags of the eight tables.
unfoldable pub font_tables : Bytes → ℕ → Option FontTables
font_tables bytes size = do
  cmap ← get_table bytes size 0x636d6170
  glyf ← get_table bytes size 0x676c7966
  head ← get_table bytes size 0x68656164
  hhea ← get_table bytes size 0x68686561
  hmtx ← get_table bytes size 0x686d7478
  loca ← get_table bytes size 0x6c6f6361
  maxp ← get_table bytes size 0x6d617870
  some (record {
    cmap = cmap;
    glyf = glyf;
    head = head;
    hhea = hhea;
    hmtx = hmtx;
    loca = loca;
    maxp = maxp;
    os_2 = or_no_table (get_table bytes size 0x4f532f32);
  })

-- The typographic heights, 0 where the table is too short.
unfoldable pub typo_value : Bytes → TtfTable → ℕ → ℕ
typo_value bytes os_2 offset = if leb 74 os_2.size then read_s16 bytes (os_2.at + offset) else 0

-- The fields that `parse_ttf` reads from the tables.
unfoldable pub read_font : Bytes → FontTables → TtfFont
read_font bytes t = record {
  cmap = t.cmap;
  glyf = t.glyf;
  head = t.head;
  hhea = t.hhea;
  hmtx = t.hmtx;
  loca = t.loca;
  maxp = t.maxp;
  os_2 = t.os_2;
  cmap_subtable = none;
  num_glyphs = read_u16 bytes (t.maxp.at + 4);
  number_of_hmetrics = read_u16 bytes (t.hhea.at + 34);
  units_per_em = read_u16 bytes (t.head.at + 18);
  ascent = read_s16 bytes (t.hhea.at + 4);
  descent = read_s16 bytes (t.hhea.at + 6);
  line_gap = read_s16 bytes (t.hhea.at + 8);
  typo_ascent = typo_value bytes t.os_2 68;
  typo_descent = typo_value bytes t.os_2 70;
  typo_line_gap = typo_value bytes t.os_2 72;
  index_to_loc_format = read_s16 bytes (t.head.at + 50);
}

abbrev pub loca_entry_size : TtfFont → ℕ
loca_entry_size font = if font.index_to_loc_format == 0 then 2 else 4

-- The tests on the fields.
unfoldable pub bad_fields : TtfFont → Bool
bad_fields font =
    (font.units_per_em == 0)
    || ((font.num_glyphs == 0)
        || ((font.number_of_hmetrics == 0)
            || (ltb font.num_glyphs font.number_of_hmetrics
                || (not (font.index_to_loc_format == 0) && not (font.index_to_loc_format == 1)))))

-- The tests on the sizes of the tables that the fields count.
unfoldable pub short_tables : TtfFont → Bool
short_tables font =
    ltb font.loca.size ((font.num_glyphs + 1) * loca_entry_size font)
    || ltb font.hmtx.size (font.number_of_hmetrics * 4)

-- What `parse_ttf` does with the tables.
unfoldable pub parse_tables : Bytes → FontTables → Option TtfFont
parse_tables bytes t =
    if ltb t.head.size 54 || (ltb t.hhea.size 36 || ltb t.maxp.size 6)
    then none
    else let font = read_font bytes t in
      if bad_fields font || short_tables font
      then none
      else elim (select_cmap_subtable bytes t.cmap) [
        | none ↦ none
        | some subtable ↦ some (record font { cmap_subtable = some subtable })
      ]

-- `none` for false.
unfoldable pub parse_ttf : Bytes → ℕ → Option TtfFont
parse_ttf bytes size =
    if not (range_is_valid size 0 12)
    then none
    else if not (read_u32 bytes 0 == 0x00010000) && not (read_u32 bytes 0 == 0x74727565)
    then none
    else elim (font_tables bytes size) [ none ↦ none | some t ↦ parse_tables bytes t ]

-- The span that the index states, from its start to its end.
unfoldable pub loca_span : Bytes → TtfFont → ℕ → ℕ × ℕ
loca_span bytes font glyph =
    if font.index_to_loc_format == 0
    then (
      read_u16 bytes (font.loca.at + glyph * 2) * 2,
      read_u16 bytes (font.loca.at + (glyph * 2 + 2)) * 2,
    )
    else (
      read_u32 bytes (font.loca.at + glyph * 4),
      read_u32 bytes (font.loca.at + (glyph * 4 + 4)),
    )

-- The offset and the size of a glyph in its table.
unfoldable pub glyph_bounds : Bytes → TtfFont → ℕ → Option (ℕ × ℕ)
glyph_bounds bytes font glyph =
    if leb font.num_glyphs glyph
    then none
    else let (start, end) = loca_span bytes font glyph in
      if ltb end start || not (range_is_valid font.glyf.size start (end - start))
      then none
      else some (start, end - start)

unfoldable pub glyph_advance : Bytes → TtfFont → ℕ → ℕ
glyph_advance bytes font glyph =
    if ltb glyph font.number_of_hmetrics
    then read_u16 bytes (font.hmtx.at + glyph * 4)
    else read_u16 bytes (font.hmtx.at + (font.number_of_hmetrics - 1) * 4)
