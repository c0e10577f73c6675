-- ===== src/Mm/Frames.antt =====
-- The frame allocator of mm/mm.c. The memory is a function from the address of an aligned word, in
-- the kernel's view, to the word; a frame on the free list holds the pointer to the next in its
-- first word. `clear_page` and `copy_page` are the calls of memset and memcpy on whole pages.
use Prim.Native.Nat.{bit_and}
use xbks.Prelude.{ℕ, ◌+◌, ◌-◌, ◌%◌, ◌^◌, ◌&&◌, ltb, leb, ◌==◌, if◌then◌else◌}

abbrev pub word_mod : ℕ
word_mod = 2 ^ 64

abbrev pub page_size : ℕ
page_size = 4096

abbrev pub Words : Type 0
Words = ℕ → ℕ

-- The static variables of mm.c and the memory.
pub record Mm : Type 0 where
  pub hhdm_offset : ℕ
  pub kernel_cr3 : ℕ
  pub free_frames : ℕ
  pub free_frame_count : ℕ
  pub words : Words

abbrev pub put_word : Words → ℕ → ℕ → Words
put_word words p v a = if a == p then v else words a

abbrev pub clear_page : Words → ℕ → Words
clear_page words p a = if leb p a && ltb a (p + page_size) then 0 else words a

abbrev pub copy_page : Words → ℕ → ℕ → Words
copy_page words dest src a =
    if leb dest a && ltb a (dest + page_size) then words (src + (a - dest)) else words a

unfoldable pub align_up : ℕ → ℕ → ℕ
align_up value alignment =
    bit_and ((value + alignment + word_mod - 1) % word_mod) (word_mod - alignment)

unfoldable pub align_down : ℕ → ℕ → ℕ
align_down value alignment = bit_and value (word_mod - alignment)

unfoldable pub phys_to_virt : Mm → ℕ → ℕ
phys_to_virt m physical = (physical + m.hhdm_offset) % word_mod

unfoldable pub virt_to_phys : Mm → ℕ → ℕ
virt_to_phys m virtual = (virtual + word_mod - m.hhdm_offset) % word_mod

-- `xbks_pmm_alloc_frame`: 0 where no frame is free.
unfoldable pub alloc_frame : Mm → ℕ × Mm
alloc_frame m = if m.free_frames == 0 then (0, m) else (
  virt_to_phys m m.free_frames,
  record m {
    free_frames = m.words m.free_frames;
    free_frame_count = (m.free_frame_count + word_mod - 1) % word_mod;
    words = clear_page m.words m.free_frames;
  },
)

-- `xbks_pmm_free_frame`
unfoldable pub free_frame : Mm → ℕ → Mm
free_frame m frame =
    if frame == 0
    then m
    else let node = phys_to_virt m (align_down frame page_size) in
      record m {
        free_frames = node;
        free_frame_count = (m.free_frame_count + 1) % word_mod;
        words = put_word m.words node m.free_frames;
      }
