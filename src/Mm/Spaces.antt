-- ===== src/Mm/Spaces.antt =====
-- Whole address spaces of mm/mm.c: the kernel's half, the copy of the user's half, its release.
-- Each of the four nested loops is a function of the rounds left and the index.
use Prim.Native.Nat.{bit_and, bit_or}
use xbks.Prelude.{
  ℕ, zero, suc, ◌+◌, ◌*◌, ◌-◌, ◌^◌, Bool, true, false, not, ltb, ◌==◌, if◌then◌else◌,
}
use xbks.Mm.Frames.{Mm, word_mod, copy_page, phys_to_virt, alloc_frame, free_frame}
use xbks.Mm.Tables.{
  frame_mask, is_present, load_entry, store_entry, page_table_from_entry, map_page,
}

copy_entries : ℕ → Mm → ℕ → ℕ → ℕ → Mm
copy_entries zero m new old i = m
copy_entries (suc n) m new old i =
    copy_entries n (store_entry m new i (load_entry m old i)) new old (i + 1)

-- `xbks_create_kernel_mapped_pml4`: 0 where no frame is free.
unfoldable pub create_kernel_mapped_pml4 : Mm → ℕ × Mm
unfolding copy_entries
create_kernel_mapped_pml4 m =
    let (frame, m') = alloc_frame m in
    if frame == 0 then (0, m') else (
      frame,
      copy_entries 256 m' (phys_to_virt m' frame)
          (phys_to_virt m' (bit_and m'.kernel_cr3 (word_mod - 1 - 0xfff))) 256,
    )

unfoldable pub clone_page_flags : ℕ → ℕ
clone_page_flags entry = bit_and entry 0xfff

-- The address that four indices stand for.
unfoldable pub address_of_indices : ℕ → ℕ → ℕ → ℕ → ℕ
address_of_indices i₄ i₃ i₂ i₁ =
    bit_or (bit_or (bit_or (i₄ * 2 ^ 39) (i₃ * 2 ^ 30)) (i₂ * 2 ^ 21)) (i₁ * 2 ^ 12)

-- The innermost body of the copy for a present entry: false where the copy fails.
unfoldable pub clone_page : Mm → ℕ → ℕ → ℕ → ℕ → Bool × Mm
clone_page m dest_pml4 user_top virtual entry =
    if not (ltb virtual user_top)
    then (true, m)
    else let source_physical = bit_and entry frame_mask in
      let (dest_physical, m₁) = alloc_frame m in
      if dest_physical == 0
      then (false, m₁)
      else let m₂ = record m₁ {
        words =
            copy_page m₁.words (phys_to_virt m₁ dest_physical) (phys_to_virt m₁ source_physical);
      } in
        let (done, m₃) = map_page m₂ dest_pml4 virtual dest_physical (clone_page_flags entry) in
        if done then (true, m₃) else (false, free_frame m₃ dest_physical)

-- One round after another, until one fails.
rounds : ℕ → (ℕ → Mm → Bool × Mm) → ℕ → Mm → Bool × Mm
rounds zero body i m = (true, m)
rounds (suc n) body i m =
    let (going, m') = body i m in
    elim going [ true ↦ rounds n body (i + 1) m' | false ↦ (false, m') ]

-- A round does nothing at an entry that is not present.
abbrev if_present : Mm → ℕ → ℕ → (ℕ → Mm → Bool × Mm) → Bool × Mm
if_present m table i body =
    if is_present (load_entry m table i) then body (load_entry m table i) m else (true, m)

-- `xbks_vmm_clone_user_space`
unfoldable pub clone_user_space : Mm → ℕ → ℕ → ℕ → Bool × Mm
unfolding rounds
clone_user_space m source_pml4 dest_pml4 user_top =
    let pml4 = phys_to_virt m source_pml4 in
    rounds 256
      (λ i₄ m₄. if_present m₄ pml4 i₄ λ e₄ n₄.
        let pdpt = page_table_from_entry n₄ e₄ in
        rounds 512
          (λ i₃ m₃. if_present m₃ pdpt i₃ λ e₃ n₃.
            let pd = page_table_from_entry n₃ e₃ in
            rounds 512
              (λ i₂ m₂. if_present m₂ pd i₂ λ e₂ n₂.
                let pt = page_table_from_entry n₂ e₂ in
                rounds 512
                  (λ i₁ m₁.
                    if_present m₁ pt i₁
                      λ e₁ n₁. clone_page n₁ dest_pml4 user_top (address_of_indices i₄ i₃ i₂ i₁) e₁)
                  0 n₂)
              0 n₃)
          0 n₄)
      0 m

-- The innermost body of the release for a present entry.
unfoldable pub destroy_page : Mm → ℕ → ℕ → ℕ → ℕ → Mm
destroy_page m pt i₁ user_top virtual =
    if ltb virtual user_top
    then store_entry (free_frame m (bit_and (load_entry m pt i₁) frame_mask)) pt i₁ 0
    else m

-- What follows an inner loop: the table is freed and its entry cleared.
unfoldable pub release_table : Mm → ℕ → ℕ → Mm
release_table m table i =
    store_entry (free_frame m (bit_and (load_entry m table i) frame_mask)) table i 0

all_rounds : ℕ → (ℕ → Mm → Mm) → ℕ → Mm → Mm
all_rounds zero body i m = m
all_rounds (suc n) body i m = all_rounds n body (i + 1) (body i m)

abbrev when_present : Mm → ℕ → ℕ → (ℕ → Mm → Mm) → Mm
when_present m table i body =
    if is_present (load_entry m table i) then body (load_entry m table i) m else m

-- `xbks_vmm_destroy_user_space`
unfoldable pub destroy_user_space : Mm → ℕ → ℕ → Mm
unfolding all_rounds
destroy_user_space m pml4_frame user_top =
    if pml4_frame == 0
    then m
    else let pml4 = phys_to_virt m pml4_frame in
      free_frame
        (all_rounds 256
          (λ i₄ m₄. when_present m₄ pml4 i₄ λ e₄ n₄.
            let pdpt = page_table_from_entry n₄ e₄ in
            release_table
              (all_rounds 512
                (λ i₃ m₃. when_present m₃ pdpt i₃ λ e₃ n₃.
                  let pd = page_table_from_entry n₃ e₃ in
                  release_table
                    (all_rounds 512
                      (λ i₂ m₂. when_present m₂ pd i₂ λ e₂ n₂.
                        let pt = page_table_from_entry n₂ e₂ in
                        release_table
                          (all_rounds 512
                            (λ i₁ m₁. when_present m₁ pt i₁ λ e₁ n₁.
                              destroy_page n₁ pt i₁ user_top (address_of_indices i₄ i₃ i₂ i₁))
                            0 n₂)
                          pd i₂)
                      0 n₃)
                    pdpt i₃)
                0 n₄)
              pml4 i₄)
          0 m)
        pml4_frame
