-- ===== src/Font/Sound.antt =====
-- What `parse_ttf` of drivers/font_ttf.c has checked of a font that it accepts.
use mathlib.Core.Path.{subst}
use xbks.Prelude.{
  ℕ, ◌+◌, ◌-◌, ◌*◌, ◌<◌, ◌≤◌, ◌≡◌, ◌≢◌, refl, ap, inl, inr, Bool, false, not, ◌&&◌, ◌||◌,
  Bool-cases, Option-cases, Option, none, some, some_inj, ◌==◌, ltb, leb, arith,
}
use xbks.Font.Reads.{Bytes, range_is_valid, read_u32}
use xbks.Font.Tables.{TtfTable, get_table, select_cmap_subtable}
use xbks.Font.Inside.{IsInside, range_is_valid_lem}
use xbks.Font.Located.{get_table-IsInside, select_cmap_subtable-IsPart}
use xbks.Font.Parse.{
  ◌>>=◌, TtfFont, FontTables, or_no_table, font_tables, read_font, loca_entry_size, bad_fields,
  short_tables, parse_tables, parse_ttf, loca_span, glyph_bounds,
}

-- The tables lie in the file.
pub record HasTables (size : ℕ) (t : FontTables) : Type 0 where
  pub cmap : IsInside size t.cmap
  pub glyf : IsInside size t.glyf
  pub head : IsInside size t.head
  pub hhea : IsInside size t.hhea
  pub hmtx : IsInside size t.hmtx
  pub loca : IsInside size t.loca
  pub maxp : IsInside size t.maxp
  pub os_2 : IsInside size t.os_2

pub >>=-some {ℓ κ} :
    {A : Type ℓ} {B : Type κ} (o : Option A) (f : A → Option B) (b : B)
    → (o >>= f) ≡ some b
    → (a : A) × (o ≡ some a) × (f a ≡ some b)
>>=-some none f b e = absurd cc
>>=-some (some a) f b e = (a, refl, e)

or_no_table-IsInside :
    (size : ℕ) (o : Option TtfTable)
    → ((t : TtfTable) → o ≡ some t → IsInside size t)
    → IsInside size (or_no_table o)
or_no_table-IsInside size none h = omega arith
or_no_table-IsInside size (some t) h = h t refl

font_tables-HasTables :
    (bytes : Bytes) (size : ℕ) (t : FontTables) → font_tables bytes size ≡ some t → HasTables size t
unfolding font_tables
font_tables-HasTables bytes size t e =
    let (cmap, e₁, r₁) = >>=-some (get_table bytes size 0x636d6170) _ t e in
    let (glyf, e₂, r₂) = >>=-some (get_table bytes size 0x676c7966) _ t r₁ in
    let (head, e₃, r₃) = >>=-some (get_table bytes size 0x68656164) _ t r₂ in
    let (hhea, e₄, r₄) = >>=-some (get_table bytes size 0x68686561) _ t r₃ in
    let (hmtx, e₅, r₅) = >>=-some (get_table bytes size 0x686d7478) _ t r₄ in
    let (loca, e₆, r₆) = >>=-some (get_table bytes size 0x6c6f6361) _ t r₅ in
    let (maxp, e₇, r₇) = >>=-some (get_table bytes size 0x6d617870) _ t r₆ in
    subst (HasTables size) (some_inj r₇) (record {
      cmap = get_table-IsInside bytes size 0x636d6170 cmap e₁;
      glyf = get_table-IsInside bytes size 0x676c7966 glyf e₂;
      head = get_table-IsInside bytes size 0x68656164 head e₃;
      hhea = get_table-IsInside bytes size 0x68686561 hhea e₄;
      hmtx = get_table-IsInside bytes size 0x686d7478 hmtx e₅;
      loca = get_table-IsInside bytes size 0x6c6f6361 loca e₆;
      maxp = get_table-IsInside bytes size 0x6d617870 maxp e₇;
      os_2 =
          or_no_table-IsInside size (get_table bytes size 0x4f532f32)
            (get_table-IsInside bytes size 0x4f532f32);
    })

-- A font whose lookups stay in the file.
pub record IsFont (size : ℕ) (font : TtfFont) : Type 0 where
  pub glyf : IsInside size font.glyf
  pub hmtx : IsInside size font.hmtx
  pub loca : IsInside size font.loca
  pub subtable :
      (t : TtfTable) × (font.cmap_subtable ≡ some t)
      × (font.cmap.at ≤ t.at)
      × IsInside (font.cmap.at + font.cmap.size) t
  pub cmap : IsInside size font.cmap
  pub index : (font.num_glyphs + 1) * loca_entry_size font ≤ font.loca.size
  pub metrics : font.number_of_hmetrics * 4 ≤ font.hmtx.size
  pub some_metric : 0 < font.number_of_hmetrics
  pub enough_glyphs : font.number_of_hmetrics ≤ font.num_glyphs
  pub scale : font.units_per_em ≢ 0

-- What the tests on the fields say.
bad_fields_lem :
    (font : TtfFont)
    → bad_fields font ≡ false
    → (font.units_per_em ≢ 0)
      × (0 < font.number_of_hmetrics)
      × (font.number_of_hmetrics ≤ font.num_glyphs)
unfolding bad_fields
bad_fields_lem font h = (ground arith, ground arith, ground arith)

neither : (a b : Bool) → (a || b) ≡ false → (a ≡ false) × (b ≡ false)
neither a b h = (ground arith, ground arith)

at_least : (a b : ℕ) → ltb a b ≡ false → b ≤ a
at_least a b h = ground arith

short_tables_lem :
    (font : TtfFont)
    → short_tables font ≡ false
    → ((font.num_glyphs + 1) * loca_entry_size font ≤ font.loca.size)
      × (font.number_of_hmetrics * 4 ≤ font.hmtx.size)
unfolding short_tables
short_tables_lem font h =
    let (index, metrics) = neither _ _ h in (at_least _ _ index, at_least _ _ metrics)

parse_tables-IsFont :
    (bytes : Bytes) (size : ℕ) (t : FontTables) (font : TtfFont)
    → HasTables size t
    → parse_tables bytes t ≡ some font
    → IsFont size font
unfolding parse_tables read_font
parse_tables-IsFont bytes size t font tables e =
    elim (Bool-cases (ltb t.head.size 54 || (ltb t.hhea.size 36 || ltb t.maxp.size 6))) [
      | inl short ↦ cc (rw short at e)
      | inr long ↦
          elim (Bool-cases (bad_fields (read_font bytes t) || short_tables (read_font bytes t))) [
            | inl bad ↦ cc (rw (long, bad) at e)
            | inr good ↦ elim (Option-cases (select_cmap_subtable bytes t.cmap)) [
              | inl absent ↦ cc (rw (long, good, absent) at e)
              | inr (subtable, there) ↦
                  let (scale, some_metric, enough) =
                    bad_fields_lem (read_font bytes t) (ground arith) in
                  let (index, metrics) = short_tables_lem (read_font bytes t) (ground arith) in
                  let part = rw there at (select_cmap_subtable-IsPart bytes t.cmap) in
                  subst (IsFont size) (some_inj (rw (long, good, there) at e)) (record {
                    glyf = tables.glyf;
                    hmtx = tables.hmtx;
                    loca = tables.loca;
                    subtable = (subtable, refl, part.0, part.1);
                    cmap = tables.cmap;
                    index = index;
                    metrics = metrics;
                    some_metric = some_metric;
                    enough_glyphs = enough;
                    scale = scale;
                  })
            ]
          ]
    ]

-- In a font that parse_ttf accepts the tables of glyphs, metrics, glyph offsets and characters lie
-- in the file and the chosen subtable starts and ends in the last of them; the offsets are enough
-- for all glyphs and the metrics for their count, which is at least one and at most the number of
-- glyphs; and the units per em are not zero.
pub parse_ttf-IsFont :
    (bytes : Bytes) (size : ℕ) (font : TtfFont)
    → parse_ttf bytes size ≡ some font
    → IsFont size font
unfolding parse_ttf
parse_ttf-IsFont bytes size font e = elim (Bool-cases (range_is_valid size 0 12)) [
  | inr short ↦ cc (rw short at e)
  | inl header ↦
      elim (Bool-cases
        (not (read_u32 bytes 0 == 0x00010000) && not (read_u32 bytes 0 == 0x74727565))) [
          | inl other ↦ cc (rw (header, other) at e)
          | inr known ↦ elim (Option-cases (font_tables bytes size)) [
            | inl absent ↦ cc (rw (header, known, absent) at e)
            | inr (t, there) ↦
                parse_tables-IsFont bytes size t font (font_tables-HasTables bytes size t there)
                  (rw (header, known, there) at e)
          ]
        ]
]

-- The span of a glyph lies in its table.
glyph_bounds-inside :
    (bytes : Bytes) (font : TtfFont) (glyph start length : ℕ)
    → glyph_bounds bytes font glyph ≡ some (start, length)
    → (glyph < font.num_glyphs) × (start + length ≤ font.glyf.size)
unfolding glyph_bounds
glyph_bounds-inside bytes font glyph start length e =
    let s = (loca_span bytes font glyph).0 in
    let end = (loca_span bytes font glyph).1 in
    elim (Bool-cases (leb font.num_glyphs glyph)) [
      | inl out ↦ cc (rw out at e)
      | inr there ↦
          elim (Bool-cases (ltb end s || not (range_is_valid font.glyf.size s (end - s)))) [
            | inl bad ↦ cc (rw (there, bad) at e)
            | inr good ↦
                let (forward, valid) =
                  neither (ltb end s) (not (range_is_valid font.glyf.size s (end - s))) good in
                let span : ℕ × ℕ = (s, end - s) in
                let wanted : ℕ × ℕ = (start, length) in
                let same : span ≡ wanted = some_inj (rw (there, good) at e) in
                let room = range_is_valid_lem font.glyf.size s (end - s) (ground arith) in
                let at_start = ap (λ (r : ℕ × ℕ). r.0) same in
                let at_length = ap (λ (r : ℕ × ℕ). r.1) same in
                (ground arith, rw (← at_start, ← at_length) room)
          ]
    ]
