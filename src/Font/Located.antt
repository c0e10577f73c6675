-- ===== src/Font/Located.antt =====
-- Where the tables lie that drivers/font_ttf.c finds.
use mathlib.Core.Path.{subst}
use xbks.Prelude.{
  ℕ, zero, suc, ◌+◌, ◌*◌, ◌≤◌, ◌≡◌, inl, inr, Bool-cases, Option-cases, Option, none, some,
  some_inj, ◌==◌, arith,
}
use xbks.Font.Reads.{Bytes, range_is_valid, read_u16, read_u32, tag_from_string}
use xbks.Font.Tables.{
  TtfTable, find_table, get_table, subtable_length, subtable_at, subtable_of, is_unicode, first_of,
  scan_subtables, select_cmap_subtable,
}
use xbks.Font.Inside.{IsInside, range_is_valid_lem}

-- Where the tables that are found lie.
find_table-IsInside :
    (n : ℕ) (d : Bytes) (size tag i : ℕ) (t : TtfTable)
    → find_table n d size tag i ≡ some t
    → IsInside size t
unfolding find_table
find_table-IsInside zero d size tag i t e = cc
find_table-IsInside (suc n) d size tag i t e =
    let at = 12 + i * 16 in
    let offset = read_u32 d (at + 8) in
    let length = read_u32 d (at + 12) in
    elim (Bool-cases (tag_from_string d at == tag)) [
      | inr other ↦ find_table-IsInside n d size tag (i + 1) t (rw other at e)
      | inl here ↦ elim (Bool-cases (range_is_valid size offset length)) [
        | inr cut ↦ cc (rw (here, cut) at e)
        | inl valid ↦
            let same : record { at = offset; size = length } ≡ t =
              some_inj (rw (here, valid) at e) in
            subst (IsInside size) same (range_is_valid_lem size offset length valid)
      ]
    ]

pub get_table-IsInside :
    (d : Bytes) (size tag : ℕ) (t : TtfTable) → get_table d size tag ≡ some t → IsInside size t
unfolding get_table
get_table-IsInside d size tag t e = elim (Bool-cases (range_is_valid size 0 12)) [
  | inr short ↦ cc (rw short at e)
  | inl header ↦ elim (Bool-cases (range_is_valid size 12 (read_u16 d 4 * 16))) [
    | inr cut ↦ cc (rw (header, cut) at e)
    | inl records ↦ find_table-IsInside (read_u16 d 4) d size tag 0 t (rw (header, records) at e)
  ]
]

abbrev pub IsPart : TtfTable → Option TtfTable → Type 0
IsPart cmap none = Unit
IsPart cmap (some t) = (cmap.at ≤ t.at) × IsInside (cmap.at + cmap.size) t

subtable_at-IsPart :
    (d : Bytes) (cmap : TtfTable) (offset : ℕ) → IsPart cmap (subtable_at d cmap offset)
unfolding subtable_at
subtable_at-IsPart d cmap offset = elim (Bool-cases (range_is_valid cmap.size offset 2)) [
  | inr cut ↦ rw cut tt
  | inl two ↦ elim (Option-cases (subtable_length d cmap offset)) [
    | inl e ↦ rw (two, e, subtable_at) tt
    | inr (length, e) ↦ elim (Bool-cases (range_is_valid cmap.size offset length)) [
      | inr cut ↦ rw (two, e, cut) tt
      | inl valid ↦
          rw (two, e, valid)
            (omega arith, omega (arith, range_is_valid_lem cmap.size offset length valid))
    ]
  ]
]

subtable_of-IsPart : (d : Bytes) (cmap : TtfTable) (i : ℕ) → IsPart cmap (subtable_of d cmap i)
unfolding subtable_of
subtable_of-IsPart d cmap i = subtable_at-IsPart d cmap (read_u32 d (cmap.at + (4 + i * 8) + 4))

first_of-IsPart :
    (cmap : TtfTable) (fallback : Option TtfTable) (t : TtfTable)
    → IsPart cmap fallback
    → IsPart cmap (some t)
    → IsPart cmap (first_of fallback t)
first_of-IsPart cmap none t h h' = h'
first_of-IsPart cmap (some f) t h h' = h

scan_subtables-IsPart :
    (n : ℕ) (d : Bytes) (cmap : TtfTable) (i : ℕ) (fallback : Option TtfTable)
    → IsPart cmap fallback
    → IsPart cmap (scan_subtables n d cmap i fallback)
unfolding scan_subtables
scan_subtables-IsPart zero d cmap i fallback h = h
scan_subtables-IsPart (suc n) d cmap i fallback h =
    let part = subtable_of-IsPart d cmap i in
    elim (Option-cases (subtable_of d cmap i)) [
      | inl e ↦ rw (e, scan_subtables) (scan_subtables-IsPart n d cmap (i + 1) fallback h)
      | inr (t, e) ↦ elim (Bool-cases (is_unicode d cmap i)) [
        | inl y ↦ rw (e, scan_subtables, y) (rw e at part)
        | inr n' ↦
            rw (e, scan_subtables, n')
              (scan_subtables-IsPart n d cmap (i + 1) (first_of fallback t)
                (first_of-IsPart cmap fallback t h (rw e at part)))
      ]
    ]

pub select_cmap_subtable-IsPart :
    (d : Bytes) (cmap : TtfTable) → IsPart cmap (select_cmap_subtable d cmap)
unfolding select_cmap_subtable
select_cmap_subtable-IsPart d cmap = elim (Bool-cases (range_is_valid cmap.size 0 4)) [
  | inr short ↦ rw short tt
  | inl header ↦ elim (Bool-cases (range_is_valid cmap.size 4 (read_u16 d (cmap.at + 2) * 8))) [
    | inr cut ↦ rw (header, cut) tt
    | inl records ↦
        rw (header, records) (scan_subtables-IsPart (read_u16 d (cmap.at + 2)) d cmap 0 none tt)
  ]
]
