-- ===== src/Mm/Init.antt =====
-- The memory map of mm/mm.c: what the boot loader reports as usable goes to the free list.
use Prim.Native.Nat.{bit_and}
use xbks.Prelude.{
  ℕ, zero, suc, ◌+◌, ◌-◌, ◌/◌, ◌%◌, Option, none, some, List, [], ◌∷◌, leb, ◌==◌, if◌then◌else◌,
}
use xbks.Mm.Frames.{Mm, word_mod, page_size, align_up, align_down, free_frame}

free_range : ℕ → Mm → ℕ → ℕ → Mm
free_range zero m frame end = m
free_range (suc fuel) m frame end =
    let rest = free_range fuel (free_frame m frame) ((frame + page_size) % word_mod) end in
    if leb ((frame + page_size) % word_mod) end then rest else m

-- `add_usable_range`: a round for each page of the range and one to stop.
unfoldable pub add_usable_range : Mm → ℕ → ℕ → Mm
unfolding free_range
add_usable_range m base count =
    free_range (count / page_size + 1) m (align_up base page_size)
      (align_down ((base + count) % word_mod) page_size)

-- `struct limine_memmap_entry`, and LIMINE_MEMMAP_USABLE
pub record MemmapEntry : Type 0 where
  pub base : ℕ
  pub count : ℕ
  pub kind : ℕ

unfoldable pub add_entries : ℕ → Mm → List MemmapEntry → Mm
add_entries usable m [] = m
add_entries usable m (e ∷ entries) =
    add_entries usable (if e.kind == usable then add_usable_range m e.base e.count else m) entries

-- `xbks_mm_init`, from the value of CR3 and the boot loader's two responses; `usable` is the boot
-- protocol's number for usable memory.
unfoldable pub init : ℕ → ℕ → Option ℕ → Option (List MemmapEntry) → Mm → Mm
init usable cr3 hhdm memmap m =
    let started = record m { kernel_cr3 = bit_and cr3 (word_mod - 1 - 0xfff) } in
    elim hhdm [
      | none ↦ started
      | some offset ↦
          let mapped = record started { hhdm_offset = offset } in
          elim memmap [ none ↦ mapped | some entries ↦ add_entries usable mapped entries ]
    ]
