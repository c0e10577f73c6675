-- ===== src/Mm/Tests.antt =====
-- Concrete runs of the theorems on the frame allocator of mm/mm.c.
use xbks.Prelude.{
  ℕ, suc, ◌<◌, ◌^◌, ◌≡◌, refl, inl, inr, true, false, Bool-cases, [], ◌∷◌, ◌==◌, if◌then◌else◌,
  arith,
}
use xbks.Mm.Frames.{Mm, align_down, virt_to_phys, phys_to_virt, alloc_frame, free_frame, page_size}
use xbks.Mm.Tables.{is_present, entry_address, load_entry, map_page}
use xbks.Mm.Tree.{Role, free, table, IsFrame, IsTree, is_present_lem}
use xbks.Mm.Ensured.{slots_bound}
use xbks.Mm.MapPage.{MapEnd, map_page-MapEnd}
use xbks.Mm.FreeList.{
  end, node, IsPool, first_frame, alloc_frame-IsPool, free_frame-IsPool, alloc_frame-free_frame,
}

-- Two free frames, at 0x3000 and at 0x5000.
abbrev two_frames : Mm
two_frames = record {
  hhdm_offset = 0;
  kernel_cr3 = 0;
  free_frames = 0x3000;
  free_frame_count = 2;
  words = λ a. if a == 0x3000 then 0x5000 else 0;
}

two_frames-IsPool : IsPool two_frames (0x3000 ∷ 0x5000 ∷ [])
two_frames-IsPool = record {
  nodes = node (omega arith) refl (node (omega arith) refl end);
  distinct = ((ground arith, tt), (tt, tt));
  count = refl;
  small = omega arith;
}

alloc_frame-IsPool_example :
    ((alloc_frame two_frames).0 ≡ first_frame two_frames (0x3000 ∷ 0x5000 ∷ []))
    × IsPool (alloc_frame two_frames).1 (0x5000 ∷ [])
alloc_frame-IsPool_example = alloc_frame-IsPool two_frames (0x3000 ∷ 0x5000 ∷ []) two_frames-IsPool

seventh : phys_to_virt two_frames (align_down 0x7008 page_size) ≡ 0x7000
unfolding phys_to_virt align_down
seventh = refl

free_frame-IsPool_example :
    IsPool
      (free_frame two_frames 0x7008)
      (phys_to_virt two_frames (align_down 0x7008 page_size) ∷ 0x3000 ∷ 0x5000 ∷ [])
free_frame-IsPool_example =
    free_frame-IsPool two_frames 0x7008 (0x3000 ∷ 0x5000 ∷ []) two_frames-IsPool (omega arith)
      (omega arith) refl (rw seventh (omega arith)) (rw seventh (ground arith, (ground arith, tt)))
      (omega arith)

alloc_frame-free_frame_example :
    ((alloc_frame (free_frame two_frames 0x7008)).0 ≡ align_down 0x7008 page_size)
    × ((alloc_frame (free_frame two_frames 0x7008)).1.free_frames ≡ 0x3000)
    × ((alloc_frame (free_frame two_frames 0x7008)).1.free_frame_count ≡ 2)
alloc_frame-free_frame_example =
    alloc_frame-free_frame two_frames 0x7008 (omega arith) (omega arith) (omega arith)
      (rw seventh (omega arith)) (omega arith)

-- A PML4 with no entry at 0x1000, and free frames at 0x3000, 0x5000 and 0x7000.
abbrev new_space : Mm
new_space = record {
  hhdm_offset = 0;
  kernel_cr3 = 0x1000;
  free_frames = 0x3000;
  free_frame_count = 3;
  words = λ a. if a == 0x3000 then 0x5000 else if a == 0x5000 then 0x7000 else 0;
}

abbrev new_roles : ℕ → Role
new_roles q = if q == 0x1000 then table 3 else free

new_space-table : (t n : ℕ) → new_roles t ≡ table n → t ≡ 0x1000
new_space-table t n e = elim (Bool-cases (t == 0x1000)) [
  | inl is_it ↦ ground arith
  | inr not_it ↦ cc (rw not_it at e)
]

new_space-vacant :
    (t n i : ℕ) → new_roles t ≡ table n → i < 512 → is_present (load_entry new_space t i) ≡ false
new_space-vacant t n i e b =
    let at_t = new_space-table t n e in
    let out : (entry_address t i == 0x3000) ≡ false = ground arith in
    let out' : (entry_address t i == 0x5000) ≡ false = ground arith in
    rw (out, out') (ground (arith, is_present_lem 0))

new_space-IsFrame : (p : ℕ) → p < 2 ^ 52 → 0 < p → IsFrame new_space p
unfolding virt_to_phys
new_space-IsFrame p b nz = record {
  bound = omega arith;
  frame_bound = omega arith;
  not_null = λ e. omega arith;
}

new_space-IsTree : IsTree new_space (0x3000 ∷ 0x5000 ∷ 0x7000 ∷ []) new_roles
new_space-IsTree = record {
  offset_aligned = refl;
  offset_bound = omega arith;
  pool = record {
    nodes = node (omega arith) refl (node (omega arith) refl (node (omega arith) refl end));
    distinct = ((ground arith, (ground arith, tt)), ((ground arith, tt), (tt, tt)));
    count = refl;
    small = omega arith;
  };
  all_free = (refl, (refl, (refl, tt)));
  frames = (
    new_space-IsFrame 0x3000 (omega arith) (omega arith),
    (
      new_space-IsFrame 0x5000 (omega arith) (omega arith),
      (new_space-IsFrame 0x7000 (omega arith) (omega arith), tt),
    ),
  );
  aligned = λ t n e. rw (new_space-table t n e) refl;
  children = λ t n i e b present.
      cc (new_space-vacant t (suc n) i e (omega (arith, slots_bound (suc n))), present);
  one_parent = λ t u n i j et eu bi bj present present' same.
      cc (new_space-vacant t (suc n) i et (omega (arith, slots_bound (suc n))), present);
}

root_at : phys_to_virt new_space 0x1000 ≡ 0x1000
unfolding phys_to_virt
root_at = refl

map_page-MapEnd_example :
    MapEnd new_space new_roles 0x1000 0x400000 0x9000 (map_page new_space 0x1000 0x400000 0x9000 6)
map_page-MapEnd_example =
    map_page-MapEnd new_space (0x3000 ∷ 0x5000 ∷ 0x7000 ∷ []) new_roles 0x1000 0x400000 0x9000 6
      new_space-IsTree (rw root_at refl) (omega arith) (omega arith) (omega arith)

-- The call succeeds.
maps : (map_page new_space 0x1000 0x400000 0x9000 6).0 ≡ true
unfolding map_page xbks.Mm.Tables.with_table xbks.Mm.Tables.ensure_next_table is_present
    phys_to_virt xbks.Mm.Tables.table_index alloc_frame virt_to_phys
    xbks.Mm.Tables.page_table_from_entry xbks.Mm.Tables.table_entry xbks.Mm.Tables.map_leaf
maps = refl
