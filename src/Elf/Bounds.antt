-- ===== src/Elf/Bounds.antt =====
-- Where fs/elf.c reads and writes when it loads an image.
use xbks.Prelude.{
  ℕ, zero, suc, ◌+◌, ◌-◌, ◌%◌, ◌≤◌, ◌<◌, ◌≡◌, ◌⊎◌, inl, inr, refl, sym, ap, ◌∙◌, false, ◌&&◌, ◌||◌,
  Bool-cases, Option-cases, some, some_inj, ltb, leb, ◌==◌, arith,
}
use xbks.CString.{Mem, memset}
use xbks.CString.Memory.{in_range, memset_lem}
use xbks.Ramdisk.Tar.{Ramdisk, RamdiskFile}
use xbks.Elf.Headers.{Bytes, Ehdr, Phdr, phdr_size, phdr_at}
use xbks.Elf.Image.{
  u64_max, u64_mod, add_overflows_u64, validate_elf_header, Span, no_span, bad_segment, widen,
  scan_segments, copy_in, load_segments, ElfImage, bad_span, load_image,
}

-- An address outside a range.
abbrev pub Outside : (a base size : ℕ) → Type 0
Outside a base size = (a < base) ⊎ (base + size ≤ a)

copy_in-Outside :
    (m : Mem) (bytes : Bytes) (dest src count a base size : ℕ)
    → Outside a base size
    → base ≤ dest
    → dest + count ≤ base + size
    → copy_in m dest bytes src count a ≡ m a
copy_in-Outside m bytes dest src count a base size (inl out) low high =
    let e : (leb dest a && ltb a (dest + count)) ≡ false = ground arith in rw e refl
copy_in-Outside m bytes dest src count a base size (inr out) low high =
    let e : (leb dest a && ltb a (dest + count)) ≡ false = ground arith in rw e refl

-- What the tests on a segment establish.
pub bad_segment_lem :
    (p : Phdr) (size : ℕ)
    → bad_segment p size ≡ false
    → (p.filesz ≤ p.memsz)
      × (p.offset + p.filesz ≤ size ⊎ (u64_max < p.offset))
      × (p.vaddr + p.memsz ≤ u64_max ⊎ (u64_max < p.vaddr))
unfolding bad_segment add_overflows_u64
bad_segment_lem p size fine = ground arith

load_segments-Outside :
    (n : ℕ) (bytes : Bytes) (data_at at size min_vaddr base arena : ℕ) (s₀ s : Span) (m m' : Mem)
    (a : ℕ)
    → scan_segments n bytes at size s₀ ≡ some s
    → load_segments n bytes data_at at min_vaddr base arena m ≡ some m'
    → Outside a base arena
    → m' a ≡ m a
unfolding scan_segments load_segments
load_segments-Outside zero bytes data_at at size min_vaddr base arena s₀ s m m' a scan load out =
    let e : m' ≡ m = cc (load) in ap (λ f. f a) e
load_segments-Outside (suc n) bytes data_at at size min_vaddr base arena s₀ s m m' a scan load out =
    let p = phdr_at bytes at in
    let relative = (p.vaddr + u64_mod - min_vaddr) % u64_mod in
    elim (Bool-cases (p.kind == 1)) [
      | inr skip ↦
          load_segments-Outside n bytes data_at (at + phdr_size) size min_vaddr base arena s₀ s m m'
            a (rw skip at scan) (rw skip at load) out
      | inl is_load ↦ elim (Bool-cases (bad_segment p size)) [
        | inl bad ↦ cc (rw (is_load, bad) at scan)
        | inr fine ↦ elim (Bool-cases (ltb arena relative || ltb (arena - relative) p.memsz)) [
          | inl far ↦ cc (rw (is_load, far) at load)
          | inr fits ↦
              load_segments-Outside n bytes data_at (at + phdr_size) size min_vaddr base arena
                (widen s₀ p) s (copy_in m (base + relative) bytes (data_at + p.offset) p.filesz) m'
                a (rw (is_load, fine) at scan) (rw (is_load, fits) at load) out
              ∙ copy_in-Outside m bytes (base + relative) (data_at + p.offset) p.filesz a base arena
                  out (omega arith) (ground (arith, bad_segment_lem p size fine))
        ]
      ]
    ]

-- What a load that succeeds has passed.
record Loaded (r : Ramdisk) (f : RamdiskFile) (base arena : ℕ) (m : Mem) (img : ElfImage) (m' : Mem)
    : Type 0 where
  at : ℕ
  header : Ehdr
  span : Span
  scanned : scan_segments header.phnum r.bytes (at + header.phoff) f.size no_span ≡ some span
  fits : bad_span span header.entry arena ≡ false
  loaded :
      load_segments header.phnum r.bytes at
        (at + header.phoff)
        span.min_vaddr
        base
        arena
        (memset m base 0 arena)
      ≡ some m'
  entry : img.entry ≡ (base + (header.entry - span.min_vaddr)) % u64_mod
  start : img.base ≡ base
  count : img.size ≡ span.max_vaddr - span.min_vaddr

load_image-Loaded :
    (r : Ramdisk) (f : RamdiskFile) (base arena : ℕ) (m : Mem) (img : ElfImage) (m' : Mem)
    → load_image r f base arena m ≡ some (img, m')
    → Loaded r f base arena m img m'
unfolding load_image
load_image-Loaded r f base arena m img m' got = elim (Bool-cases ((base == 0) || (arena == 0))) [
  | inl null ↦ cc (rw null at got)
  | inr room ↦ elim (Option-cases (validate_elf_header r f)) [
    | inl invalid ↦ cc (rw (room, invalid, load_image) at got)
    | inr ((at, h), valid) ↦
        elim (Option-cases (scan_segments h.phnum r.bytes (at + h.phoff) f.size no_span)) [
          | inl bad ↦ cc (rw (room, valid, bad, load_image) at got)
          | inr (s, scan) ↦ elim (Bool-cases (bad_span s h.entry arena)) [
            | inl wide ↦ cc (rw (room, valid, scan, wide, load_image) at got)
            | inr fits ↦
                elim (Option-cases (
                  load_segments h.phnum r.bytes at (at + h.phoff) s.min_vaddr base arena
                    (memset m base 0 arena))) [
                      | inl far ↦ cc (rw (room, valid, scan, fits, far, load_image) at got)
                      | inr (m'', load) ↦
                          let q =
                            some_inj (rw (room, valid, scan, fits, load, load_image) at got) in
                          record {
                            at = at;
                            header = h;
                            span = s;
                            scanned = scan;
                            fits = fits;
                            loaded = load ∙ ap (λ (x : ElfImage × Mem). some x.1) q;
                            entry = sym (ap (λ (x : ElfImage × Mem). x.0.entry) q);
                            start = sym (ap (λ (x : ElfImage × Mem). x.0.base) q);
                            count = sym (ap (λ (x : ElfImage × Mem). x.0.size) q);
                          }
                    ]
          ]
        ]
  ]
]

memset-Outside : (m : Mem) (base arena a : ℕ) → Outside a base arena → memset m base 0 arena a ≡ m a
memset-Outside m base arena a (inl out) =
    let e : in_range a base arena ≡ false = ground arith in memset_lem m base 0 arena a ∙ rw e refl
memset-Outside m base arena a (inr out) =
    let e : in_range a base arena ≡ false = ground arith in memset_lem m base 0 arena a ∙ rw e refl

-- A load of an ELF image that succeeds leaves every byte outside the arena as it was.
pub load_image-Outside :
    (r : Ramdisk) (f : RamdiskFile) (base arena : ℕ) (m : Mem) (img : ElfImage) (m' : Mem) (a : ℕ)
    → load_image r f base arena m ≡ some (img, m')
    → Outside a base arena
    → m' a ≡ m a
load_image-Outside r f base arena m img m' a got out =
    let x = load_image-Loaded r f base arena m img m' got in
    load_segments-Outside x.header.phnum r.bytes x.at (x.at + x.header.phoff) f.size
      x.span.min_vaddr base arena no_span x.span (memset m base 0 arena) m' a x.scanned x.loaded out
    ∙ memset-Outside m base arena a out

-- A load of an ELF image that succeeds, into an arena that does not wrap around the address space,
-- gives an image that is no larger than the arena, with its entry point inside the image.
pub load_image-entry :
    (r : Ramdisk) (f : RamdiskFile) (base arena : ℕ) (m : Mem) (img : ElfImage) (m' : Mem)
    → load_image r f base arena m ≡ some (img, m')
    → base + arena ≤ u64_mod
    → (img.size ≤ arena) × (base ≤ img.entry) × (img.entry < base + img.size)
unfolding bad_span
load_image-entry r f base arena m img m' got room =
    let x = load_image-Loaded r f base arena m img m' got in
    let inside = span_bounds x.span x.header.entry arena x.fits in
    (
      omega (arith, x.count, inside),
      omega (arith, x.entry, inside),
      omega (arith, x.entry, x.count, inside),
    )
  where
    span_bounds :
        (s : Span) (entry arena : ℕ)
        → bad_span s entry arena ≡ false
        → (s.min_vaddr ≤ entry) × (entry < s.max_vaddr) × (s.max_vaddr - s.min_vaddr ≤ arena)
    span_bounds s entry arena fits = ground arith
