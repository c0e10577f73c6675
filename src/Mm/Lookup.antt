-- ===== src/Mm/Lookup.antt =====
-- The walk of `xbks_vmm_translate` of mm/mm.c as a recursion on the level of the table.
use xbks.Prelude.{
  ℕ, zero, suc, ◌+◌, ◌*◌, ◌/◌, ◌%◌, ◌^◌, ◌<◌, ◌≡◌, refl, inl, inr, true, Bool-cases, Option, none,
  some, ◌==◌, if◌then◌else◌, arith,
}
use Prim.Native.Nat.{bit_and, bit_or}
use xbks.Prelude.Bits.{bit_and-ones}
use xbks.Mm.Frames.{Mm, phys_to_virt}
use xbks.Mm.Tables.{
  frame_mask, is_present, table_index, load_entry, page_table_from_entry, translate,
}
use xbks.Mm.Tree.{user_slots}

abbrev pub index_at : ℕ → ℕ → ℕ
index_at level v = table_index (12 + 9 * level) v

-- The frame that a table of a level holds for an address.
unfoldable pub lookup : Mm → ℕ → ℕ → ℕ → Option ℕ
lookup m zero t v =
    let e = load_entry m t (index_at 0 v) in
    if is_present e then some (bit_and e frame_mask) else none
lookup m (suc n) t v =
    let e = load_entry m t (index_at (suc n) v) in
    let rest = lookup m n (page_table_from_entry m e) v in if is_present e then rest else none

-- The physical address in a frame.
abbrev pub in_frame : ℕ → Option ℕ → Option ℕ
in_frame v none = none
in_frame v (some frame) = some (bit_or frame (bit_and v 0xfff))

pub translate-lookup :
    (m : Mm) (pml4 v : ℕ) → translate m pml4 v ≡ in_frame v (lookup m 3 (phys_to_virt m pml4) v)
unfolding translate lookup
translate-lookup m pml4 v =
    let e₃ = load_entry m (phys_to_virt m pml4) (index_at 3 v) in
    let e₂ = load_entry m (page_table_from_entry m e₃) (index_at 2 v) in
    let e₁ = load_entry m (page_table_from_entry m e₂) (index_at 1 v) in
    let e₀ = load_entry m (page_table_from_entry m e₁) (index_at 0 v) in
    elim (Bool-cases (is_present e₃)) [
      | inr absent ↦ rw absent refl
      | inl present₃ ↦ rw present₃ (elim (Bool-cases (is_present e₂)) [
        | inr absent ↦ rw absent refl
        | inl present₂ ↦ rw present₂ (elim (Bool-cases (is_present e₁)) [
          | inr absent ↦ rw absent refl
          | inl present₁ ↦ rw present₁ (elim (Bool-cases (is_present e₀)) [
            | inr absent ↦ rw absent refl
            | inl present₀ ↦ rw present₀ refl
          ])
        ])
      ])
    ]

-- The walk ends in a table of leaves.
abbrev pub Reaches : Mm → ℕ → ℕ → ℕ → ℕ → Type 0
Reaches m zero q v t = q ≡ t
Reaches m (suc k) q v t =
    (is_present (load_entry m q (index_at (suc k) v)) ≡ true)
    × Reaches m k (page_table_from_entry m (load_entry m q (index_at (suc k) v))) v t

index_at_lem : (level v : ℕ) → index_at level v ≡ v / 2 ^ (12 + 9 * level) % 512
unfolding table_index
index_at_lem level v = bit_and-ones 9 (v / 2 ^ (12 + 9 * level))

pub index_at_bound : (level v : ℕ) → index_at level v < 512
index_at_bound level v = omega (arith, index_at_lem level v)

-- The user's addresses have the indices of the user's half.
pub index_at_user : (level v : ℕ) → v < 2 ^ 47 → index_at level v < user_slots level
index_at_user level v user = elim (Bool-cases (level == 3)) [
  | inr other ↦ rw other (index_at_bound level v)
  | inl top ↦ let e : level ≡ 3 = ground arith in rw e (omega (arith, index_at_lem 3 v))
]

pub same_page :
    (v w : ℕ)
    → v < 2 ^ 47
    → w < 2 ^ 47
    → index_at 0 v ≡ index_at 0 w
    → index_at 1 v ≡ index_at 1 w
    → index_at 2 v ≡ index_at 2 w
    → index_at 3 v ≡ index_at 3 w
    → v / 4096 ≡ w / 4096
same_page v w bv bw a b c d = omega (
  arith,
  index_at_lem 0 v,
  index_at_lem 1 v,
  index_at_lem 2 v,
  index_at_lem 3 v,
  index_at_lem 0 w,
  index_at_lem 1 w,
  index_at_lem 2 w,
  index_at_lem 3 w,
)
