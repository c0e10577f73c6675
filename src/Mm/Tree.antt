-- ===== src/Mm/Tree.antt =====
-- The page tables of mm/mm.c as a tree: each page is free, a table of a level, or something else.
use xbks.Prelude.{
  ℕ, suc, ◌+◌, ◌%◌, ◌^◌, ◌<◌, ◌≡◌, ◌≢◌, ap, true, ◌==◌, List, [], ◌∷◌, All, if◌then◌else◌, arith,
}
use xbks.Prelude.Bits.{bit_and-frame_mask, bit_and-ones}
use xbks.Prelude.Or.{bit_or_flag, bit_or_lowest}
use Prim.Native.Nat.{bit_and, bit_or}
use xbks.Mm.Frames.{Mm, word_mod, page_size, phys_to_virt, virt_to_phys}
use xbks.Mm.Tables.{
  frame_mask, is_present, entry_address, load_entry, page_table_from_entry, table_entry, leaf_entry,
}
use xbks.Mm.FreeList.{IsPool}

-- A table of level 3 is a PML4, one of level 0 holds the leaves.
pub data Role : Type 0 where
  free other : Role
  table : ℕ → Role

-- The indices of a table that belong to the user: half of a PML4, all of the others.
abbrev pub user_slots : ℕ → ℕ
user_slots n = if n == 3 then 256 else 512

-- A page whose frame fits an entry, and is not the null frame.
pub record IsFrame (m : Mm) (p : ℕ) : Type 0 where
  pub bound : p < word_mod
  pub frame_bound : virt_to_phys m p < 2 ^ 52
  pub not_null : virt_to_phys m p ≢ 0

-- The free list, and that every present entry of a table's user half leads to a table of the level
-- below, of which it is the only parent.
pub record IsTree (m : Mm) (ps : List ℕ) (role : ℕ → Role) : Type 0 where
  pub offset_aligned : m.hhdm_offset % page_size ≡ 0
  pub offset_bound : m.hhdm_offset < word_mod
  pub pool : IsPool m ps
  pub all_free : All (λ p. role p ≡ free) ps
  pub frames : All (IsFrame m) ps
  pub aligned : (t n : ℕ) → role t ≡ table n → t % page_size ≡ 0
  pub children :
      (t n i : ℕ)
      → role t ≡ table (suc n)
      → i < user_slots (suc n)
      → is_present (load_entry m t i) ≡ true
      → role (page_table_from_entry m (load_entry m t i)) ≡ table n
  pub one_parent :
      (t u n i j : ℕ)
      → role t ≡ table (suc n)
      → role u ≡ table (suc n)
      → i < user_slots (suc n)
      → j < user_slots (suc n)
      → is_present (load_entry m t i) ≡ true
      → is_present (load_entry m u j) ≡ true
      → page_table_from_entry m (load_entry m t i) ≡ page_table_from_entry m (load_entry m u j)
      → (t ≡ u) × (i ≡ j)

-- `entry & 1`
pub is_present_lem : (entry : ℕ) → is_present entry ≡ (entry % 2 == 1)
unfolding is_present
is_present_lem entry = ground (arith, bit_and-ones 1 entry)

pub table_entry-is_present : (frame flags : ℕ) → is_present (table_entry frame flags) ≡ true
unfolding table_entry
table_entry-is_present frame flags = ground (
  arith,
  is_present_lem (table_entry frame flags),
  bit_or_lowest (bit_or (bit_or (bit_or frame flags) 1) 2) 4,
  bit_or_lowest (bit_or (bit_or frame flags) 1) 2,
  bit_or_lowest (bit_or frame flags) 1,
)

pub leaf_entry-is_present : (frame flags : ℕ) → is_present (leaf_entry frame flags) ≡ true
unfolding leaf_entry
leaf_entry-is_present frame flags =
    ground (arith, is_present_lem (leaf_entry frame flags), bit_or_lowest (bit_or frame flags) 1)

-- The frame that an entry keeps.
pub table_entry-frame :
    (frame flags : ℕ)
    → frame % page_size ≡ 0
    → frame < 2 ^ 52
    → flags < page_size
    → bit_and (table_entry frame flags) frame_mask ≡ frame
unfolding table_entry
table_entry-frame frame flags aligned bound low = omega (
  arith,
  bit_and-frame_mask (table_entry frame flags),
  bit_or_flag (bit_or (bit_or (bit_or frame flags) 1) 2) 4 (omega arith),
  bit_or_flag (bit_or (bit_or frame flags) 1) 2 (omega arith),
  bit_or_flag (bit_or frame flags) 1 (omega arith),
  bit_or_flag frame flags low,
)

pub leaf_entry-frame :
    (frame flags : ℕ)
    → frame % page_size ≡ 0
    → frame < 2 ^ 52
    → flags < page_size
    → bit_and (leaf_entry frame flags) frame_mask ≡ frame
unfolding leaf_entry
leaf_entry-frame frame flags aligned bound low = omega (
  arith,
  bit_and-frame_mask (leaf_entry frame flags),
  bit_or_flag (bit_or frame flags) 1 (omega arith),
  bit_or_flag frame flags low,
)

-- The direct map, there and back.
pub phys_to_virt-virt_to_phys :
    (m : Mm) (p : ℕ)
    → p < word_mod
    → m.hhdm_offset < word_mod
    → phys_to_virt m (virt_to_phys m p) ≡ p
unfolding phys_to_virt virt_to_phys
phys_to_virt-virt_to_phys m p bound offset = omega arith

pub virt_to_phys_aligned :
    (m : Mm) (p : ℕ)
    → p % page_size ≡ 0
    → m.hhdm_offset % page_size ≡ 0
    → m.hhdm_offset < word_mod
    → virt_to_phys m p % page_size ≡ 0
unfolding virt_to_phys
virt_to_phys_aligned m p aligned offset bound = omega arith

-- The entries of two tables stand at different addresses.
pub entry_apart :
    (t u i j : ℕ)
    → t % page_size ≡ 0
    → u % page_size ≡ 0
    → i < 512
    → j < 512
    → entry_address t i ≡ entry_address u j
    → (t ≡ u) × (i ≡ j)
entry_apart t u i j at au bi bj e = (omega arith, omega arith)

-- Where an entry leads depends on the direct map alone.
pub page_table_from_entry-offset :
    (m m' : Mm) (entry : ℕ)
    → m'.hhdm_offset ≡ m.hhdm_offset
    → page_table_from_entry m' entry ≡ page_table_from_entry m entry
unfolding page_table_from_entry phys_to_virt
page_table_from_entry-offset m m' entry e = ap (λ o. (bit_and entry frame_mask + o) % word_mod) e

pub IsFrame-offset :
    (m m' : Mm) (ps : List ℕ)
    → m'.hhdm_offset ≡ m.hhdm_offset
    → All (IsFrame m) ps
    → All (IsFrame m') ps
unfolding virt_to_phys
IsFrame-offset m m' [] e h = tt
IsFrame-offset m m' (q ∷ qs) e (f, h) = (
  record { bound = f.bound; frame_bound = rw e f.frame_bound; not_null = rw e f.not_null },
  IsFrame-offset m m' qs e h,
)
