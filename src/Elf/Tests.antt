-- ===== src/Elf/Tests.antt =====
-- Concrete runs of the theorems on fs/elf.c, on a file of one segment.
use xbks.Prelude.{
  ℕ, ◌+◌, ◌≡◌, ◌≤◌, ◌<◌, refl, inr, true, false, some, List, [], ◌∷◌, ◌++◌, replicate, get_or,
  arith,
}
use xbks.CString.{Mem, memset}
use xbks.Ramdisk.Tar.{Ramdisk, RamdiskFile}
use xbks.Elf.Image.{ElfImage, copy_in, load_image}
use xbks.Elf.Bounds.{load_image-Outside, load_image-entry}

abbrev word : ℕ → ℕ → List ℕ
word low third = low ∷ 0 ∷ third ∷ replicate 5 0

-- The header, and a segment of the whole file at 0x400000.
abbrev image_bytes : List ℕ
image_bytes =
    (0x7f ∷ b'E' ∷ b'L' ∷ b'F' ∷ 2 ∷ 1 ∷ replicate 10 0)
    ++ (2 ∷ 0 ∷ 62 ∷ 0 ∷ 1 ∷ 0 ∷ 0 ∷ 0 ∷ [])
    ++ word 16 0x40
    ++ word 64 0
    ++ word 0 0
    ++ (0 ∷ 0 ∷ 0 ∷ 0 ∷ 64 ∷ 0 ∷ 56 ∷ 0 ∷ 1 ∷ 0 ∷ replicate 6 0)
    ++ (1 ∷ 0 ∷ 0 ∷ 0 ∷ 5 ∷ 0 ∷ 0 ∷ 0 ∷ [])
    ++ word 0 0
    ++ word 0 0x40
    ++ word 0 0x40
    ++ word 120 0
    ++ word 120 0
    ++ word 0 0x10

abbrev image_archive : Ramdisk
image_archive = record { bytes = λ a. get_or image_bytes a 0; size = 120; available = true }

abbrev program : RamdiskFile
program = record { path = []; contents = some 0; size = 120; directory = false; executable = true }

abbrev before_load : Mem
before_load a = 9

abbrev after_load : Mem
after_load = copy_in (memset before_load 0x1000 0 4096) 0x1000 image_archive.bytes 0 120

abbrev loaded_image : ElfImage
loaded_image = record { entry = 0x1010; base = 0x1000; size = 120 }

loads : load_image image_archive program 0x1000 4096 before_load ≡ some (loaded_image, after_load)
unfolding load_image xbks.Elf.Image.validate_elf_header xbks.Elf.Headers.bad_ident
    xbks.Elf.Image.bad_header xbks.Elf.Headers.ehdr_at xbks.Elf.Image.bad_phdrs
    xbks.Elf.Image.scan_segments xbks.Elf.Headers.phdr_at xbks.Elf.Image.bad_segment
    xbks.Elf.Image.add_overflows_u64 xbks.Elf.Image.bad_span xbks.Elf.Image.load_segments
loads = refl

load_image-Outside_example : after_load 0x2000 ≡ 9
load_image-Outside_example =
    load_image-Outside image_archive program 0x1000 4096 before_load loaded_image after_load 0x2000
      loads (inr (omega arith))

load_image-entry_example : (120 ≤ 4096) × (0x1000 ≤ 0x1010) × (0x1010 < 0x1000 + 120)
load_image-entry_example =
    load_image-entry image_archive program 0x1000 4096 before_load loaded_image after_load loads
      (omega arith)
