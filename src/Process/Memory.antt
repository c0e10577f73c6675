-- ===== src/Process/Memory.antt =====
-- Pages and bytes of a process in kernel/process.c: mapping, and writing through the page tables.
use Prim.Native.Nat.{bit_and, bit_or}
use xbks.Prelude.{
  ℕ, zero, suc, ◌+◌, ◌-◌, ◌*◌, ◌/◌, ◌%◌, ◌^◌, Bool, true, false, none, some, List, [], ◌∷◌, ltb,
  ◌==◌, if◌then◌else◌, length, take, drop,
}
use xbks.Mm.Frames.{
  Mm, Words, word_mod, page_size, put_word, align_up, align_down, phys_to_virt, alloc_frame,
  free_frame,
}
use xbks.Mm.Tables.{page_user, map_page, translate}

unfoldable pub map_user_page : Mm → ℕ → ℕ → ℕ → Bool × Mm
map_user_page m cr3 virtual flags =
    let (frame, m₁) = alloc_frame m in
    if frame == 0
    then (false, m₁)
    else let (done, m₂) = map_page m₁ cr3 virtual frame (bit_or flags page_user) in
      if done then (true, m₂) else (false, free_frame m₂ frame)

-- The page loop of `map_user_range` and of `syscall_brk`.
unfoldable pub map_pages : ℕ → Mm → ℕ → ℕ → ℕ → ℕ → Bool × Mm
map_pages zero m cr3 page end flags = (true, m)
map_pages (suc fuel) m cr3 page end flags = elim (ltb page end) [
  | false ↦ (true, m)
  | true ↦
      let (done, m') = map_user_page m cr3 page flags in
      elim done [
        | true ↦ map_pages fuel m' cr3 ((page + page_size) % word_mod) end flags
        | false ↦ (false, m')
      ]
]

-- A round for each page that a range of `size` bytes can touch.
abbrev pub page_rounds : ℕ → ℕ
page_rounds size = size / page_size + 2

unfoldable pub map_user_range : Mm → ℕ → ℕ → ℕ → ℕ → Bool × Mm
map_user_range m cr3 base size flags =
    map_pages (page_rounds size) m cr3 (align_down base page_size)
      (align_up ((base + size) % word_mod) page_size) flags

-- One byte of the memory that words make up.
abbrev pub put_byte : Words → ℕ → ℕ → Words
put_byte words a b =
    let base = a / 8 * 8 in
    let unit = 256 ^ (a % 8) in
    put_word words base (words base - words base / unit % 256 * unit + b * unit)

unfoldable pub put_bytes : Words → ℕ → List ℕ → Words
put_bytes words a [] = words
put_bytes words a (b ∷ bytes) = put_bytes (put_byte words a b) (a + 1) bytes

-- The loop of `write_process_memory` over the bytes that are left: a chunk ends with its page.
unfoldable pub write_chunks : ℕ → Mm → ℕ → ℕ → List ℕ → Bool × Mm
write_chunks zero m cr3 address bytes = (true, m)
write_chunks (suc fuel) m cr3 address bytes =
    let room = page_size - bit_and address 0xfff in
    let chunk = if ltb (length bytes) room then length bytes else room in
    if length bytes == 0 then (true, m) else elim (translate m cr3 address) [
      | none ↦ (false, m)
      | some physical ↦
          write_chunks fuel
            (record m { words = put_bytes m.words (phys_to_virt m physical) (take chunk bytes) })
            cr3 ((address + chunk) % word_mod) (drop chunk bytes)
    ]

unfoldable pub write_process_memory : Mm → ℕ → ℕ → List ℕ → Bool × Mm
write_process_memory m cr3 virtual bytes =
    write_chunks (page_rounds (length bytes)) m cr3 virtual bytes
