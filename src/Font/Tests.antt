-- ===== src/Font/Tests.antt =====
-- Concrete runs of the theorems on drivers/font_ttf.c, on a font of one glyph.
use xbks.Prelude.{
  ℕ, ◌≡◌, refl, true, some, List, [], ◌∷◌, ◌++◌, replicate, get_or, ltb, if◌then◌else◌, arith,
}
use xbks.Font.Reads.{Bytes}
use xbks.Font.Tables.{TtfTable, get_table, select_cmap_subtable}
use xbks.Font.Glyphs.{glyph_for_codepoint}
use xbks.Font.Inside.{Agree}
use xbks.Font.Lookups.{glyph_for_codepoint-Agree}
use xbks.Font.Parse.{TtfFont, parse_ttf}
use xbks.Font.Sound.{IsFont, parse_ttf-IsFont}

-- A header with seven tables; the map takes A to Z to the glyphs from 0 on.
abbrev font_bytes : List ℕ
font_bytes =
    (0 ∷ 1 ∷ 0 ∷ 0 ∷ 0 ∷ 7 ∷ [])
    ++ replicate 6 0
    ++ (99 ∷ 109 ∷ 97 ∷ 112 ∷ [])
    ++ replicate 7 0
    ++ (124 ∷ 0 ∷ 0 ∷ 0 ∷ 40 ∷ 103 ∷ 108 ∷ 121 ∷ 102 ∷ [])
    ++ replicate 7 0
    ++ (164 ∷ 0 ∷ 0 ∷ 0 ∷ 4 ∷ 104 ∷ 101 ∷ 97 ∷ 100 ∷ [])
    ++ replicate 7 0
    ++ (168 ∷ 0 ∷ 0 ∷ 0 ∷ 54 ∷ 104 ∷ 104 ∷ 101 ∷ 97 ∷ [])
    ++ replicate 7 0
    ++ (222 ∷ 0 ∷ 0 ∷ 0 ∷ 36 ∷ 104 ∷ 109 ∷ 116 ∷ 120 ∷ [])
    ++ replicate 6 0
    ++ (1 ∷ 2 ∷ 0 ∷ 0 ∷ 0 ∷ 4 ∷ 108 ∷ 111 ∷ 99 ∷ 97 ∷ [])
    ++ replicate 6 0
    ++ (1 ∷ 6 ∷ 0 ∷ 0 ∷ 0 ∷ 4 ∷ 109 ∷ 97 ∷ 120 ∷ 112 ∷ [])
    ++ replicate 6 0
    ++ (1 ∷ 10 ∷ 0 ∷ 0 ∷ 0 ∷ 6 ∷ 0 ∷ 0 ∷ 0 ∷ 1 ∷ 0 ∷ 3 ∷ 0 ∷ 10 ∷ 0 ∷ 0 ∷ 0 ∷ 12 ∷ 0 ∷ 12 ∷ [])
    ++ replicate 5 0
    ++ (28 ∷ [])
    ++ replicate 7 0
    ++ (1 ∷ 0 ∷ 0 ∷ 0 ∷ 65 ∷ 0 ∷ 0 ∷ 0 ∷ 90 ∷ [])
    ++ replicate 26 0
    ++ (3 ∷ 232 ∷ [])
    ++ replicate 38 0
    ++ (3 ∷ 32 ∷ [])
    ++ replicate 29 0
    ++ (1 ∷ 2 ∷ [])
    ++ replicate 6 0
    ++ (2 ∷ [])
    ++ replicate 5 0
    ++ (1 ∷ [])

abbrev font_file : Bytes
font_file a = get_or font_bytes a 0

abbrev font_map : TtfTable
font_map = record { at = 124; size = 40 }

-- The same file with other bytes behind it.
abbrev other_file : Bytes
other_file a = if ltb a 272 then get_or font_bytes a 0 else 255

files-Agree : Agree 272 font_file other_file
files-Agree a b = let inside : ltb a 272 ≡ true = ground arith in rw inside refl

map_found : get_table font_file 272 0x636d6170 ≡ some font_map
unfolding get_table xbks.Font.Reads.range_is_valid xbks.Font.Reads.read_u16 xbks.Font.Reads.read_s16
    xbks.Font.Reads.read_u32 xbks.Font.Reads.tag_from_string xbks.Font.Tables.find_table
map_found = refl

glyph_for_codepoint-Agree_example :
    (get_table other_file 272 0x636d6170 ≡ some font_map)
    × (select_cmap_subtable other_file font_map ≡ select_cmap_subtable font_file font_map)
    × ((codepoint : ℕ)
        → glyph_for_codepoint font_file (select_cmap_subtable font_file font_map) codepoint
          ≡ glyph_for_codepoint other_file (select_cmap_subtable font_file font_map) codepoint)
glyph_for_codepoint-Agree_example =
    glyph_for_codepoint-Agree 272 0x636d6170 font_file other_file font_map files-Agree map_found

abbrev one_glyph : TtfFont
one_glyph = record {
  cmap = font_map;
  glyf = record { at = 164; size = 4 };
  head = record { at = 168; size = 54 };
  hhea = record { at = 222; size = 36 };
  hmtx = record { at = 258; size = 4 };
  loca = record { at = 262; size = 4 };
  maxp = record { at = 266; size = 6 };
  os_2 = record { at = 0; size = 0 };
  cmap_subtable = some (record { at = 136; size = 28 });
  num_glyphs = 1;
  number_of_hmetrics = 1;
  units_per_em = 1000;
  ascent = 800;
  descent = 0;
  line_gap = 0;
  typo_ascent = 0;
  typo_descent = 0;
  typo_line_gap = 0;
  index_to_loc_format = 0;
}

parsed : parse_ttf font_file 272 ≡ some one_glyph
unfolding parse_ttf get_table select_cmap_subtable xbks.Font.Reads.range_is_valid
    xbks.Font.Reads.read_u16 xbks.Font.Reads.read_s16 xbks.Font.Reads.read_u32
    xbks.Font.Reads.tag_from_string xbks.Font.Tables.find_table xbks.Font.Tables.subtable_length
    xbks.Font.Tables.subtable_at xbks.Font.Tables.subtable_of xbks.Font.Tables.is_unicode
    xbks.Font.Tables.scan_subtables xbks.Font.Parse.font_tables xbks.Font.Parse.typo_value
    xbks.Font.Parse.read_font xbks.Font.Parse.bad_fields xbks.Font.Parse.short_tables
    xbks.Font.Parse.parse_tables
parsed = refl

parse_ttf-IsFont_example : IsFont 272 one_glyph
parse_ttf-IsFont_example = parse_ttf-IsFont font_file 272 one_glyph parsed
