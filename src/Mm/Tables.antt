-- ===== src/Mm/Tables.antt =====
-- The page tables of mm/mm.c: one page mapped, one address translated.
use Prim.Native.Nat.{bit_and, bit_or}
use xbks.Prelude.{
  ℕ, ◌+◌, ◌*◌, ◌/◌, ◌^◌, Bool, true, false, not, ◌||◌, Option, none, some, ◌==◌, if◌then◌else◌,
}
use xbks.Mm.Frames.{Mm, put_word, phys_to_virt, alloc_frame}

-- XBKS_PAGE_PRESENT, XBKS_PAGE_WRITABLE, XBKS_PAGE_USER
abbrev pub page_present : ℕ
page_present = 1

abbrev pub page_writable : ℕ
page_writable = 2

abbrev pub page_user : ℕ
page_user = 4

abbrev pub frame_mask : ℕ
frame_mask = 0x000ffffffffff000

-- `(entry & XBKS_PAGE_PRESENT) != 0`
unfoldable pub is_present : ℕ → Bool
is_present entry = not (bit_and entry page_present == 0)

-- `(virtual_address >> shift) & 0x1ff`
unfoldable pub table_index : ℕ → ℕ → ℕ
table_index shift virtual = bit_and (virtual / 2 ^ shift) 0x1ff

-- `table[index]`
abbrev pub entry_address : ℕ → ℕ → ℕ
entry_address table index = table + 8 * index

abbrev pub load_entry : Mm → ℕ → ℕ → ℕ
load_entry m table index = m.words (entry_address table index)

abbrev pub store_entry : Mm → ℕ → ℕ → ℕ → Mm
store_entry m table index v = record m { words = put_word m.words (entry_address table index) v }

unfoldable pub page_table_from_entry : Mm → ℕ → ℕ
page_table_from_entry m entry = phys_to_virt m (bit_and entry frame_mask)

-- The word that `ensure_next_table` puts into a table.
unfoldable pub table_entry : ℕ → ℕ → ℕ
table_entry frame flags =
    bit_or (bit_or (bit_or (bit_or frame flags) page_present) page_writable) page_user

-- `ensure_next_table`: the next table, or `none` where no frame is free.
unfoldable pub ensure_next_table : Mm → ℕ → ℕ → ℕ → Option ℕ × Mm
ensure_next_table m table index flags =
    if is_present (load_entry m table index)
    then (some (page_table_from_entry m (load_entry m table index)), m)
    else let (frame, m') = alloc_frame m in
      if frame == 0
      then (none, m')
      else let m'' = store_entry m' table index (table_entry frame flags) in
        (some (page_table_from_entry m'' (load_entry m'' table index)), m'')

-- The word that `xbks_vmm_map_page` puts into the last table.
unfoldable pub leaf_entry : ℕ → ℕ → ℕ
leaf_entry physical flags = bit_or (bit_or physical flags) page_present

-- What `xbks_vmm_map_page` does with the last table.
unfoldable pub map_leaf : Mm → ℕ → ℕ → ℕ → ℕ → Bool × Mm
map_leaf m pt virtual physical flags =
    if is_present (load_entry m pt (table_index 12 virtual))
    then (false, m)
    else (true, store_entry m pt (table_index 12 virtual) (leaf_entry physical flags))

-- `if (!ensure_next_table(...)) return false;`, and what follows.
unfoldable pub with_table : Option ℕ × Mm → (ℕ → Mm → Bool × Mm) → Bool × Mm
with_table (none, m) next = (false, m)
with_table (some table, m) next = next table m

-- `xbks_vmm_map_page`. A call that fails keeps the tables that it has put in.
unfoldable pub map_page : Mm → ℕ → ℕ → ℕ → ℕ → Bool × Mm
map_page m pml4_frame virtual physical flags =
    if not (bit_and virtual 0xfff == 0) || not (bit_and physical 0xfff == 0)
    then (false, m)
    else with_table (ensure_next_table m (phys_to_virt m pml4_frame) (table_index 39 virtual) flags)
        λ pdpt m₁. with_table (ensure_next_table m₁ pdpt (table_index 30 virtual) flags) λ pd m₂.
          with_table (ensure_next_table m₂ pd (table_index 21 virtual) flags)
            λ pt m₃. map_leaf m₃ pt virtual physical flags

-- `xbks_vmm_translate` with a pointer for the result.
unfoldable pub translate : Mm → ℕ → ℕ → Option ℕ
translate m pml4_frame virtual =
    let pml4 = phys_to_virt m pml4_frame in
    let pml4e = load_entry m pml4 (table_index 39 virtual) in
    if not (is_present pml4e)
    then none
    else let pdpte = load_entry m (page_table_from_entry m pml4e) (table_index 30 virtual) in
      if not (is_present pdpte)
      then none
      else let pde = load_entry m (page_table_from_entry m pdpte) (table_index 21 virtual) in
        if not (is_present pde)
        then none
        else let pte = load_entry m (page_table_from_entry m pde) (table_index 12 virtual) in
          if not (is_present pte)
          then none
          else some (bit_or (bit_and pte frame_mask) (bit_and virtual 0xfff))
