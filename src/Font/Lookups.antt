-- ===== src/Font/Lookups.antt =====
-- The glyph lookups of drivers/font_ttf.c read no byte outside the file.
use xbks.Prelude.{
  ℕ, zero, suc, ◌+◌, ◌-◌, ◌*◌, ◌/◌, ◌<◌, ◌≤◌, ◌≡◌, refl, sym, ◌∙◌, inl, inr, ◌||◌, Bool-cases,
  Option-cases, some, ltb, arith,
}
use xbks.Font.Reads.{Bytes, range_is_valid, read_u16, read_s16, read_u32}
use xbks.Font.Tables.{TtfTable, get_table, select_cmap_subtable}
use xbks.Font.Glyphs.{
  end_codes, start_codes, id_deltas, id_range_offsets, segment_glyph, scan_segments,
  cmap_format4_glyph, scan_groups, cmap_format12_glyph, glyph_for_codepoint,
}
use xbks.Font.Inside.{
  Agree, range_is_valid_lem, read_u16-Agree, read_u32-Agree, get_table-Agree,
  select_cmap_subtable-Agree,
}
use xbks.Font.Located.{get_table-IsInside, select_cmap_subtable-IsPart}

module _ (size : ℕ) (d d' : Bytes) (agree : Agree size d d') (subtable : TtfTable)
    (inside : subtable.at + subtable.size ≤ size) where
  u16 :
      (p : ℕ) → p + 2 ≤ subtable.size → read_u16 d (subtable.at + p) ≡ read_u16 d' (subtable.at + p)
  u16 p b = read_u16-Agree size d d' agree (subtable.at + p) (omega arith)

  s16 :
      (p : ℕ) → p + 2 ≤ subtable.size → read_s16 d (subtable.at + p) ≡ read_s16 d' (subtable.at + p)
  unfolding read_s16
  s16 p b = u16 p b

  segment_glyph-Agree :
      (seg_count i codepoint start_code : ℕ)
      → id_range_offsets seg_count + seg_count * 2 ≤ subtable.size
      → i < seg_count
      → segment_glyph d subtable seg_count i codepoint start_code
        ≡ segment_glyph d' subtable seg_count i codepoint start_code
  unfolding segment_glyph
  segment_glyph-Agree seg_count i codepoint start_code room b =
      let range_offset = read_u16 d' (subtable.at + (id_range_offsets seg_count + i * 2)) in
      let glyph_offset =
        id_range_offsets seg_count + i * 2 + range_offset + (codepoint - start_code) * 2 in
      rw
        (
          s16 (id_deltas seg_count + i * 2) (omega arith),
          u16 (id_range_offsets seg_count + i * 2) (omega arith),
        )
        (elim (Bool-cases (range_is_valid subtable.size glyph_offset 2)) [
          | inr cut ↦ rw cut refl
          | inl valid ↦
              rw (valid, u16 glyph_offset (range_is_valid_lem subtable.size glyph_offset 2 valid))
                refl
        ])

  scan_segments-Agree :
      (n seg_count i codepoint : ℕ)
      → id_range_offsets seg_count + seg_count * 2 ≤ subtable.size
      → i + n ≤ seg_count
      → scan_segments n d subtable seg_count i codepoint
        ≡ scan_segments n d' subtable seg_count i codepoint
  unfolding scan_segments
  scan_segments-Agree zero seg_count i codepoint room b = refl
  scan_segments-Agree (suc n) seg_count i codepoint room b =
      rw
        (
          u16 (end_codes + i * 2) (omega arith),
          u16 (start_codes seg_count + i * 2) (omega arith),
          scan_segments-Agree n seg_count (i + 1) codepoint room (omega arith),
          segment_glyph-Agree seg_count i codepoint
              (read_u16 d' (subtable.at + (start_codes seg_count + i * 2))) room (omega arith),
        )
        refl

  cmap_format4_glyph-Agree :
      (codepoint : ℕ)
      → cmap_format4_glyph d subtable codepoint ≡ cmap_format4_glyph d' subtable codepoint
  unfolding cmap_format4_glyph
  cmap_format4_glyph-Agree codepoint =
      elim (Bool-cases (ltb 0xffff codepoint || ltb subtable.size 16)) [
        | inl out ↦ rw out refl
        | inr ok ↦
            let long : 16 ≤ subtable.size = ground arith in
            let seg_count = read_u16 d' (subtable.at + 6) / 2 in
            rw (ok, u16 6 (omega arith))
              (elim (Bool-cases
                (range_is_valid subtable.size (id_range_offsets seg_count) (seg_count * 2))) [
                  | inr cut ↦ rw cut refl
                  | inl valid ↦
                      rw
                        (
                          valid,
                          scan_segments-Agree seg_count seg_count 0 codepoint
                              (range_is_valid_lem subtable.size (id_range_offsets seg_count)
                                (seg_count * 2) valid)
                              (omega arith),
                        )
                        refl
                ])
      ]

  u32 :
      (p : ℕ) → p + 4 ≤ subtable.size → read_u32 d (subtable.at + p) ≡ read_u32 d' (subtable.at + p)
  u32 p b = read_u32-Agree size d d' agree (subtable.at + p) (omega arith)

  group :
      (p k : ℕ)
      → p + k + 4 ≤ subtable.size
      → read_u32 d (subtable.at + p + k) ≡ read_u32 d' (subtable.at + p + k)
  group p k b = read_u32-Agree size d d' agree (subtable.at + p + k) (omega arith)

  scan_groups-Agree :
      (n i codepoint : ℕ)
      → 16 + (i + n) * 12 ≤ subtable.size
      → scan_groups n d subtable i codepoint ≡ scan_groups n d' subtable i codepoint
  unfolding scan_groups
  scan_groups-Agree zero i codepoint b = refl
  scan_groups-Agree (suc n) i codepoint b =
      rw
        (
          u32 (16 + i * 12) (omega arith),
          group (16 + i * 12) 4 (omega arith),
          group (16 + i * 12) 8 (omega arith),
          scan_groups-Agree n (i + 1) codepoint (omega arith),
        )
        refl

  cmap_format12_glyph-Agree :
      (codepoint : ℕ)
      → cmap_format12_glyph d subtable codepoint ≡ cmap_format12_glyph d' subtable codepoint
  unfolding cmap_format12_glyph
  cmap_format12_glyph-Agree codepoint = elim (Bool-cases (ltb subtable.size 16)) [
    | inl short ↦ rw short refl
    | inr ok ↦
        let long : 16 ≤ subtable.size = ground arith in
        let count = read_u32 d' (subtable.at + 12) in
        rw (ok, u32 12 (omega arith))
          (elim (Bool-cases (range_is_valid subtable.size 16 (count * 12))) [
            | inr cut ↦ rw cut refl
            | inl valid ↦
                rw
                  (
                    valid,
                    scan_groups-Agree count 0 codepoint
                        (omega (arith, range_is_valid_lem subtable.size 16 (count * 12) valid)),
                  )
                  refl
          ])
  ]

  glyph-Agree :
      (codepoint : ℕ)
      → glyph_for_codepoint d (some subtable) codepoint
        ≡ glyph_for_codepoint d' (some subtable) codepoint
  unfolding glyph_for_codepoint
  glyph-Agree codepoint = elim (Bool-cases (ltb subtable.size 2)) [
    | inl short ↦ rw short refl
    | inr ok ↦
        let long : 2 ≤ subtable.size = ground arith in
        rw
          (
            ok,
            read_u16-Agree size d d' agree subtable.at (omega arith),
            cmap_format4_glyph-Agree codepoint,
            cmap_format12_glyph-Agree codepoint,
          )
          refl
  ]

-- No byte outside the file counts in the lookup of a glyph: if two files agree in the bytes below
-- the size, and get_table finds a table in the first, it finds the same in the second, the two
-- have the same character map subtable in it, and each character has the same glyph in both.
pub glyph_for_codepoint-Agree :
    (size tag : ℕ) (d d' : Bytes) (cmap : TtfTable)
    → Agree size d d'
    → get_table d size tag ≡ some cmap
    → (get_table d' size tag ≡ some cmap)
      × (select_cmap_subtable d' cmap ≡ select_cmap_subtable d cmap)
      × ((codepoint : ℕ)
          → glyph_for_codepoint d (select_cmap_subtable d cmap) codepoint
            ≡ glyph_for_codepoint d' (select_cmap_subtable d cmap) codepoint)
unfolding glyph_for_codepoint
glyph_for_codepoint-Agree size tag d d' cmap agree found =
    let inside = get_table-IsInside d size tag cmap found in
    let part = select_cmap_subtable-IsPart d cmap in
    (
      sym (get_table-Agree size d d' agree tag) ∙ found,
      sym (select_cmap_subtable-Agree size d d' agree cmap inside),
      λ codepoint. elim (Option-cases (select_cmap_subtable d cmap)) [
        | inl e ↦ rw (e, glyph_for_codepoint) refl
        | inr (subtable, e) ↦
            rw e (glyph-Agree size d d' agree subtable (omega (arith, rw e at part)) codepoint)
      ],
    )
