-- ===== src/Mm/Ensure.antt =====
-- `ensure_next_table` of mm/mm.c keeps the tree of page tables, and leads to a table of the level
-- below.
use xbks.Prelude.{
  ℕ, suc, ◌<◌, ◌≡◌, inl, inr, refl, false, Bool-cases, Option, none, some, ◌==◌, List, [], ◌∷◌,
  if◌then◌else◌, arith,
}
use xbks.Mm.Frames.{Mm, page_size, virt_to_phys, alloc_frame}
use xbks.Mm.Tables.{
  is_present, load_entry, store_entry, page_table_from_entry, table_entry, ensure_next_table,
}
use xbks.Mm.FreeList.{alloc_frame-taken, alloc_frame-none}
use xbks.Mm.Tree.{Role, table, user_slots, IsTree}
use xbks.Mm.Ensured.{Ensured, Ensured-old}
use xbks.Mm.Fresh.{after, entry, at_entry, entry_leads, Ensured-new}

-- What a call of `ensure_next_table` ends with.
abbrev pub EnsureEnd : Mm → (ℕ → Role) → (t i n : ℕ) → Option ℕ × Mm → Type 0
EnsureEnd m role t i n (none, m') = m' ≡ m
EnsureEnd m role t i n (some t', m') = Ensured m m' role t i n t'

pub ensure_next_table-EnsureEnd :
    (m : Mm) (ps : List ℕ) (role : ℕ → Role) (t i n flags : ℕ)
    → IsTree m ps role
    → role t ≡ table (suc n)
    → i < user_slots (suc n)
    → flags < page_size
    → EnsureEnd m role t i n (ensure_next_table m t i flags)
unfolding ensure_next_table after entry
ensure_next_table-EnsureEnd m ps role t i n flags tree rt bi low =
    elim (Bool-cases (is_present (load_entry m t i))) [
      | inl old ↦ rw old (Ensured-old m ps role t i n tree rt bi old)
      | inr new ↦ rw new (absent new ps tree)
    ]
  where
    absent :
        is_present (load_entry m t i) ≡ false
        → (ps : List ℕ) → IsTree m ps role
        → EnsureEnd m role t i n (
            let (frame, m') = alloc_frame m in
            if frame == 0
            then (none, m')
            else let m'' = store_entry m' t i (table_entry frame flags) in
              (some (page_table_from_entry m'' (load_entry m'' t i)), m''))
    absent new [] tree = rw (alloc_frame-none m tree.pool) refl
    absent new (p ∷ ps) tree =
        let some_frame : (virt_to_phys m p == 0) ≡ false = ground (arith, tree.frames.0.not_null) in
        rw (alloc_frame-taken m p ps tree.pool, some_frame)
          (rw
            (
              at_entry m p ps role t i n flags tree rt bi low new,
              entry_leads m p ps role t i n flags tree rt bi low new,
            )
            (Ensured-new m p ps role t i n flags tree rt bi low new))
