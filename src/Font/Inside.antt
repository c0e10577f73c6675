-- ===== src/Font/Inside.antt =====
-- The lookups of drivers/font_ttf.c read no byte outside the file: two files that agree up to their size
-- give the same.
use xbks.Prelude.{
  ℕ, zero, suc, ◌+◌, ◌*◌, ◌<◌, ◌≤◌, ◌≡◌, refl, ap, ◌∙◌, inl, inr, true, false, Bool-cases,
  Option-cases, Option, none, arith,
}
use xbks.Font.Reads.{Bytes, range_is_valid, read_u16, read_u32, tag_from_string}
use xbks.Font.Tables.{
  TtfTable, find_table, get_table, subtable_length, subtable_at, subtable_of, is_unicode, first_of,
  scan_subtables, select_cmap_subtable,
}

abbrev pub Agree : ℕ → Bytes → Bytes → Type 0
Agree size d d' = (a : ℕ) → a < size → d a ≡ d' a

-- A table lies in the file.
abbrev pub IsInside : ℕ → TtfTable → Type 0
IsInside size t = t.at + t.size ≤ size

pub range_is_valid_lem :
    (size offset length : ℕ) → range_is_valid size offset length ≡ true → offset + length ≤ size
unfolding range_is_valid
range_is_valid_lem size offset length h = ground arith

range_is_valid_more :
    (size offset short long : ℕ)
    → range_is_valid size offset short ≡ false
    → short ≤ long
    → range_is_valid size offset long ≡ false
unfolding range_is_valid
range_is_valid_more size offset short long h b = ground arith

module _ (size : ℕ) (d d' : Bytes) (agree : Agree size d d') where
  pub read_u16-Agree : (p : ℕ) → p + 2 ≤ size → read_u16 d p ≡ read_u16 d' p
  unfolding read_u16
  read_u16-Agree p b = rw (agree p (omega arith), agree (p + 1) (omega arith)) refl

  pub read_u32-Agree : (p : ℕ) → p + 4 ≤ size → read_u32 d p ≡ read_u32 d' p
  unfolding read_u32
  read_u32-Agree p b =
      rw
        (
          agree p (omega arith),
          agree (p + 1) (omega arith),
          agree (p + 2) (omega arith),
          agree (p + 3) (omega arith),
        )
        refl

  tag-Agree : (p : ℕ) → p + 4 ≤ size → tag_from_string d p ≡ tag_from_string d' p
  unfolding tag_from_string
  tag-Agree p b =
      rw
        (
          agree p (omega arith),
          agree (p + 1) (omega arith),
          agree (p + 2) (omega arith),
          agree (p + 3) (omega arith),
        )
        refl

  find_table-Agree :
      (n tag i : ℕ)
      → 12 + (i + n) * 16 ≤ size
      → find_table n d size tag i ≡ find_table n d' size tag i
  unfolding find_table
  find_table-Agree zero tag i b = refl
  find_table-Agree (suc n) tag i b =
      rw
        (
          tag-Agree (12 + i * 16) (omega arith),
          read_u32-Agree (12 + i * 16 + 8) (omega arith),
          read_u32-Agree (12 + i * 16 + 12) (omega arith),
          find_table-Agree n tag (i + 1) (omega arith),
        )
        refl

  pub get_table-Agree : (tag : ℕ) → get_table d size tag ≡ get_table d' size tag
  unfolding get_table
  get_table-Agree tag = elim (Bool-cases (range_is_valid size 0 12)) [
    | inr short ↦ rw short refl
    | inl header ↦
        let whole = range_is_valid_lem size 0 12 header in
        let count = read_u16-Agree 4 (omega (arith, whole)) in
        rw (header, count)
          (elim (Bool-cases (range_is_valid size 12 (read_u16 d' 4 * 16))) [
            | inr cut ↦ rw cut refl
            | inl records ↦
                rw
                  (
                    records,
                    find_table-Agree (read_u16 d' 4) tag 0
                        (omega (arith, range_is_valid_lem size 12 (read_u16 d' 4 * 16) records)),
                  )
                  refl
          ])
  ]

  module _ (cmap : TtfTable) (inside : cmap.at + cmap.size ≤ size) where
    subtable_length-Agree :
        (offset : ℕ)
        → range_is_valid cmap.size offset 2 ≡ true
        → subtable_length d cmap offset ≡ subtable_length d' cmap offset
    unfolding subtable_length
    subtable_length-Agree offset two =
        let format =
          read_u16-Agree (cmap.at + offset)
            (omega (arith, range_is_valid_lem cmap.size offset 2 two)) in
        rw format (elim (Bool-cases (range_is_valid cmap.size offset 4)) [
          | inr cut ↦
              let cut' : range_is_valid cmap.size offset 16 ≡ false =
                range_is_valid_more cmap.size offset 4 16 cut (omega arith) in
              rw (cut, cut') refl
          | inl four ↦
              rw
                (
                  read_u16-Agree (cmap.at + offset + 2)
                      (omega (arith, range_is_valid_lem cmap.size offset 4 four)),
                  four,
                )
                (elim (Bool-cases (range_is_valid cmap.size offset 16)) [
                  | inr cut ↦ rw cut refl
                  | inl long ↦
                      rw
                        (
                          read_u32-Agree (cmap.at + offset + 4)
                              (omega (arith, range_is_valid_lem cmap.size offset 16 long)),
                          long,
                        )
                        refl
                ])
        ])

    subtable_at-Agree : (offset : ℕ) → subtable_at d cmap offset ≡ subtable_at d' cmap offset
    unfolding subtable_at
    subtable_at-Agree offset = elim (Bool-cases (range_is_valid cmap.size offset 2)) [
      | inr cut ↦ rw cut refl
      | inl two ↦ rw (two, subtable_length-Agree offset two) refl
    ]

    subtable_of-Agree :
        (i : ℕ) → 4 + (i + 1) * 8 ≤ cmap.size → subtable_of d cmap i ≡ subtable_of d' cmap i
    unfolding subtable_of
    subtable_of-Agree i b =
        ap (subtable_at d cmap) (read_u32-Agree (cmap.at + (4 + i * 8) + 4) (omega arith))
        ∙ subtable_at-Agree (read_u32 d' (cmap.at + (4 + i * 8) + 4))

    is_unicode-Agree :
        (i : ℕ) → 4 + (i + 1) * 8 ≤ cmap.size → is_unicode d cmap i ≡ is_unicode d' cmap i
    unfolding is_unicode
    is_unicode-Agree i b =
        rw
          (
            read_u16-Agree (cmap.at + (4 + i * 8)) (omega arith),
            read_u16-Agree (cmap.at + (4 + i * 8) + 2) (omega arith),
          )
          refl

    scan_subtables-Agree :
        (n i : ℕ) (fallback : Option TtfTable)
        → 4 + (i + n) * 8 ≤ cmap.size
        → scan_subtables n d cmap i fallback ≡ scan_subtables n d' cmap i fallback
    unfolding scan_subtables
    scan_subtables-Agree zero i fallback b = refl
    scan_subtables-Agree (suc n) i fallback b =
        let same = subtable_of-Agree i (omega arith) in
        elim (Option-cases (subtable_of d' cmap i)) [
          | inl e ↦
              rw (scan_subtables, same, e) (scan_subtables-Agree n (i + 1) fallback (omega arith))
          | inr (t, e) ↦
              rw
                (
                  scan_subtables,
                  same,
                  e,
                  is_unicode-Agree i (omega arith),
                  scan_subtables-Agree n (i + 1) (first_of fallback t) (omega arith),
                )
                refl
        ]

    pub select_cmap_subtable-Agree : select_cmap_subtable d cmap ≡ select_cmap_subtable d' cmap
    unfolding select_cmap_subtable
    select_cmap_subtable-Agree = elim (Bool-cases (range_is_valid cmap.size 0 4)) [
      | inr short ↦ rw short refl
      | inl header ↦
          let whole = range_is_valid_lem cmap.size 0 4 header in
          let count = read_u16-Agree (cmap.at + 2) (omega (arith, whole)) in
          let n = read_u16 d' (cmap.at + 2) in
          rw (header, count)
            (elim (Bool-cases (range_is_valid cmap.size 4 (n * 8))) [
              | inr cut ↦ rw cut refl
              | inl records ↦
                  rw
                    (
                      records,
                      scan_subtables-Agree n 0 none
                          (omega (arith, range_is_valid_lem cmap.size 4 (n * 8) records)),
                    )
                    refl
            ])
    ]
