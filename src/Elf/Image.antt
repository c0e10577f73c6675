-- ===== src/Elf/Image.antt =====
-- fs/elf.c: `xbks_elf_load_image` copies the segments of an image into an arena of memory.
use xbks.Prelude.{
  ℕ, zero, suc, ◌+◌, ◌-◌, ◌*◌, ◌/◌, ◌%◌, ◌^◌, Bool, true, false, not, ◌&&◌, ◌||◌, Option, none,
  some, ltb, leb, ◌==◌, if◌then◌else◌,
}
use xbks.CString.{Mem, memset}
use xbks.Ramdisk.Tar.{Ramdisk, RamdiskFile}
use xbks.Elf.Headers.{Bytes, Ehdr, Phdr, ehdr_size, phdr_size, ehdr_at, phdr_at, bad_ident}

abbrev pub u64_max : ℕ
u64_max = 2 ^ 64 - 1

abbrev pub u64_mod : ℕ
u64_mod = 2 ^ 64

unfoldable pub add_overflows_u64 : ℕ → ℕ → Bool
add_overflows_u64 lhs rhs = ltb (u64_max - lhs) rhs

-- The header's fields are wrong.
unfoldable pub bad_header : Ehdr → Bool
bad_header h =
    (not (h.kind == 2) && not (h.kind == 3))
    || not (h.machine == 62)
    || not (h.phentsize == phdr_size)
    || (h.phnum == 0)

-- The program headers do not lie in the file.
unfoldable pub bad_phdrs : Ehdr → ℕ → Bool
bad_phdrs h size =
    ltb size h.phoff
    || ltb ((u64_max - h.phoff) / phdr_size) h.phnum
    || ltb size ((h.phoff + h.phnum * phdr_size) % u64_mod)

-- `validate_elf_header`: the header of a file whose data is at an offset of the archive.
unfoldable pub validate_elf_header : Ramdisk → RamdiskFile → Option (ℕ × Ehdr)
validate_elf_header r f = elim f.contents [
  | none ↦ none
  | some at ↦
      if f.directory || ltb f.size ehdr_size
      then none
      else if bad_ident r.bytes at || bad_header (ehdr_at r.bytes at)
      then none
      else if bad_phdrs (ehdr_at r.bytes at) f.size
      then none
      else some (at, ehdr_at r.bytes at)
]

-- The range of addresses of the segments so far, and whether there is one.
pub record Span : Type 0 where
  pub min_vaddr : ℕ
  pub max_vaddr : ℕ
  pub found : Bool

abbrev pub no_span : Span
no_span = record { min_vaddr = u64_max; max_vaddr = 0; found = false }

unfoldable pub bad_segment : Phdr → ℕ → Bool
bad_segment p size =
    ltb p.memsz p.filesz
    || add_overflows_u64 p.offset p.filesz
    || ltb size ((p.offset + p.filesz) % u64_mod)
    || add_overflows_u64 p.vaddr p.memsz

abbrev pub widen : Span → Phdr → Span
widen s p = record {
  min_vaddr = if ltb p.vaddr s.min_vaddr then p.vaddr else s.min_vaddr;
  max_vaddr =
      if ltb s.max_vaddr ((p.vaddr + p.memsz) % u64_mod)
      then (p.vaddr + p.memsz) % u64_mod
      else s.max_vaddr;
  found = true;
}

-- The first loop; `at` is the address of the next program header.
unfoldable pub scan_segments : ℕ → Bytes → ℕ → ℕ → Span → Option Span
scan_segments zero bytes at size s = some s
scan_segments (suc n) bytes at size s =
    let p = phdr_at bytes at in
    let rest = scan_segments n bytes (at + phdr_size) size (if p.kind == 1 then widen s p else s) in
    if (p.kind == 1) && bad_segment p size then none else rest

-- memcpy from the archive, which does not overlap the arena.
abbrev pub copy_in : Mem → ℕ → Bytes → ℕ → ℕ → Mem
copy_in m dest bytes src count a =
    if leb dest a && ltb a (dest + count) then bytes (src + (a - dest)) else m a

-- The second loop.
unfoldable pub load_segments : ℕ → Bytes → ℕ → ℕ → ℕ → ℕ → ℕ → Mem → Option Mem
load_segments zero bytes data_at at min_vaddr arena_base arena_size m = some m
load_segments (suc n) bytes data_at at min_vaddr arena_base arena_size m =
    let p = phdr_at bytes at in
    let relative = (p.vaddr + u64_mod - min_vaddr) % u64_mod in
    let rest = load_segments n bytes data_at (at + phdr_size) min_vaddr arena_base arena_size (
      if p.kind == 1
      then copy_in m (arena_base + relative) bytes (data_at + p.offset) p.filesz
      else m) in
    if (p.kind == 1) && (ltb arena_size relative || ltb (arena_size - relative) p.memsz)
    then none
    else rest

-- `struct xbks_elf_image`
pub record ElfImage : Type 0 where
  pub entry : ℕ
  pub base : ℕ
  pub size : ℕ

-- The test between the two loops.
unfoldable pub bad_span : Span → ℕ → ℕ → Bool
bad_span s entry arena_size =
    not s.found
    || ltb s.max_vaddr s.min_vaddr
    || ltb arena_size (s.max_vaddr - s.min_vaddr)
    || ltb entry s.min_vaddr
    || leb s.max_vaddr entry

-- `xbks_elf_load_image`, `file` and `out` not null: the image and the memory.
unfoldable pub load_image : Ramdisk → RamdiskFile → ℕ → ℕ → Mem → Option (ElfImage × Mem)
load_image r f arena_base arena_size m =
    if (arena_base == 0) || (arena_size == 0) then none else elim (validate_elf_header r f) [
      | none ↦ none
      | some (at, h) ↦ elim (scan_segments h.phnum r.bytes (at + h.phoff) f.size no_span) [
        | none ↦ none
        | some s ↦
            if bad_span s h.entry arena_size
            then none
            else elim (load_segments h.phnum r.bytes at (at + h.phoff) s.min_vaddr arena_base
                arena_size (memset m arena_base 0 arena_size)) [
                  | none ↦ none
                  | some m' ↦ some (
                    record {
                      entry = (arena_base + (h.entry - s.min_vaddr)) % u64_mod;
                      base = arena_base;
                      size = s.max_vaddr - s.min_vaddr;
                    },
                    m',
                  )
                ]
      ]
    ]
