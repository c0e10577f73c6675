-- ===== src/Mm/MapPage.antt =====
-- `xbks_vmm_map_page` of mm/mm.c changes the address spaces at one page, or not at all.
use xbks.Prelude.{
  ℕ, ◌/◌, ◌^◌, ◌<◌, ◌≡◌, ◌≢◌, ◌⊎◌, inl, inr, refl, sym, ap, ◌∙◌, Bool, true, false, Bool-cases,
  Option, none, some, ◌==◌, List, arith,
}
use Prim.Native.Nat.{bit_and}
use mathlib.Core.Path.{subst}
use xbks.Prelude.Bits.{bit_and-ones}
use xbks.Prelude.Or.{bit_or-zero}
use xbks.Mm.Frames.{Mm, page_size, phys_to_virt}
use xbks.Mm.Tables.{is_present, load_entry, leaf_entry, with_table, map_leaf, map_page, translate}
use xbks.Mm.Lookup.{
  in_frame, translate-lookup, Reaches, index_at, index_at_bound, index_at_user, same_page,
}
use xbks.Mm.Tree.{
  Role, table, IsTree, leaf_entry-is_present, leaf_entry-frame, page_table_from_entry-offset,
}
use xbks.Mm.Ensured.{Ensured}
use xbks.Mm.Ensure.{EnsureEnd, ensure_next_table-EnsureEnd}
use xbks.Mm.Leaf.{stored, IsTree-stored, lookup_hit, lookup_miss, Reaches-unique}
use xbks.Mm.Mapping.{Kept, kept_none, kept_table, phys_to_virt-offset, Ensured-load}

-- An address space that has one more page.
pub record PageMapped (m m' : Mm) (role : ℕ → Role) (pml4 v p : ℕ) : Type 0 where
  pub ps' : List ℕ
  pub role' : ℕ → Role
  pub tree : IsTree m' ps' role'
  pub grows : (q k : ℕ) → role q ≡ table k → role' q ≡ table k
  pub found : translate m' pml4 v ≡ some p
  pub others :
      (root w : ℕ)
      → w < 2 ^ 47
      → role (phys_to_virt m root) ≡ table 3
      → (phys_to_virt m root ≢ phys_to_virt m pml4) ⊎ (w / page_size ≢ v / page_size)
      → translate m' root w ≡ translate m root w

-- What a call of `xbks_vmm_map_page` ends with.
abbrev pub MapEnd : Mm → (ℕ → Role) → (pml4 v p : ℕ) → Bool × Mm → Type 0
MapEnd m role pml4 v p (false, m') = Kept m m' role
MapEnd m role pml4 v p (true, m') = PageMapped m m' role pml4 v p

-- The three tables that a call goes through.
walk-Reaches :
    (m m₁ m₂ m₃ : Mm) (role : ℕ → Role) (t₃ t₂ t₁ t₀ v : ℕ)
    → role t₃ ≡ table 3
    → (a : Ensured m m₁ role t₃ (index_at 3 v) 2 t₂)
    → (b : Ensured m₁ m₂ a.role' t₂ (index_at 2 v) 1 t₁)
    → Ensured m₂ m₃ b.role' t₁ (index_at 1 v) 0 t₀
    → Reaches m₃ 3 t₃ v t₀
walk-Reaches m m₁ m₂ m₃ role t₃ t₂ t₁ t₀ v rt a b c =
    let r₃ = a.grows t₃ 3 rt in
    let s₃ =
      Ensured-load m₂ m₃ b.role' t₁ (index_at 1 v) 0 t₀ t₃ 3 (index_at 3 v) b.next c
        (b.grows t₃ 3 r₃) (λ e. absurd (omega arith)) (index_at_bound 3 v)
      ∙ Ensured-load m₁ m₂ a.role' t₂ (index_at 2 v) 1 t₁ t₃ 3 (index_at 3 v) a.next b r₃
          (λ e. absurd (omega arith)) (index_at_bound 3 v) in
    let s₂ =
      Ensured-load m₂ m₃ b.role' t₁ (index_at 1 v) 0 t₀ t₂ 2 (index_at 2 v) b.next c
        (b.grows t₂ 2 a.next) (λ e. absurd (omega arith)) (index_at_bound 2 v) in
    let l₃ =
      page_table_from_entry-offset m₁ m₃ (load_entry m₁ t₃ (index_at 3 v)) (c.offset ∙ b.offset)
      ∙ a.leads in
    let l₂ =
      page_table_from_entry-offset m₂ m₃ (load_entry m₂ t₂ (index_at 2 v)) c.offset ∙ b.leads in
    (rw s₃ a.present, rw (s₃, l₃) (rw s₂ b.present, rw (s₂, l₂) (c.present, c.leads)))

in_frame_aligned : (m : Mm) (v p : ℕ) → bit_and v 0xfff ≡ 0 → in_frame v (some p) ≡ some p
in_frame_aligned m v p e = rw e (ap some (bit_or-zero p))

-- Another page, or another address space, has another entry.
not_this :
    (m : Mm) (ps : List ℕ) (role : ℕ → Role) (root q t v w : ℕ)
    → IsTree m ps role
    → v < 2 ^ 47
    → w < 2 ^ 47
    → role root ≡ table 3
    → role q ≡ table 3
    → (q ≢ root) ⊎ (w / page_size ≢ v / page_size)
    → Reaches m 3 root v t
    → Reaches m 3 q w t
    → index_at 0 w ≢ index_at 0 v
not_this m ps role root q t v w tree bv bw rr rq away walk other last =
    let (tables, (i₃, (i₂, (i₁, done)))) =
      Reaches-unique m ps role 3 q root w v t tree bw bv rq rr other walk in
    elim away [ inl ne ↦ ne tables | inr ne ↦ ne (same_page w v bw bv last i₁ i₂ i₃) ]

-- The last step: the entry of a table of leaves.
map_leaf-MapEnd :
    (m m₃ : Mm) (role : ℕ → Role) (pml4 v p flags t : ℕ) (kept : Kept m m₃ role)
    → role (phys_to_virt m pml4) ≡ table 3
    → v < 2 ^ 47
    → p < 2 ^ 52
    → flags < page_size
    → bit_and v 0xfff ≡ 0
    → bit_and p 0xfff ≡ 0
    → kept.role' t ≡ table 0
    → Reaches m₃ 3 (phys_to_virt m pml4) v t
    → MapEnd m role pml4 v p (map_leaf m₃ t v p flags)
unfolding map_leaf stored
map_leaf-MapEnd m m₃ role pml4 v p flags t kept rt user fits low av ap_ rt₀ walk =
    elim (Bool-cases (is_present (load_entry m₃ t (index_at 0 v)))) [
      | inl there ↦ rw there kept
      | inr vacant ↦
          let i = index_at 0 v in
          let e = leaf_entry p flags in
          let bi = index_at_bound 0 v in
          let root = phys_to_virt m pml4 in
          let m' = stored m₃ kept.ps' kept.role' t i e kept.tree rt₀ bi in
          let frame = leaf_entry-frame p flags (omega (arith, bit_and-ones 12 p)) fits low in
          rw vacant (record {
            ps' = kept.ps';
            role' = kept.role';
            tree = IsTree-stored m₃ kept.ps' kept.role' t i e kept.tree rt₀ bi;
            grows = kept.grows;
            found =
                rw
                  (
                    translate-lookup m' pml4 v,
                    phys_to_virt-offset m m' pml4 kept.offset,
                    lookup_hit m₃ kept.ps' kept.role' t i e kept.tree rt₀ bi 3 root v user
                        (kept.grows root 3 rt) walk refl (leaf_entry-is_present p flags),
                    frame,
                  )
                  (in_frame_aligned m v p av);
            others = λ other w user_w is_root away.
                let q = phys_to_virt m other in
                rw
                  (
                    translate-lookup m' other w,
                    phys_to_virt-offset m m' other kept.offset,
                    lookup_miss m₃ kept.ps' kept.role' t i e kept.tree rt₀ bi 3 q w user_w
                        (kept.grows q 3 is_root)
                        (not_this m₃ kept.ps' kept.role' root q t v w kept.tree user user_w
                          (kept.grows root 3 rt) (kept.grows q 3 is_root) away walk),
                    kept.lookups 3 q w user_w is_root,
                    translate-lookup m other w,
                  )
                  refl;
          })
    ]

with_table-MapEnd :
    (m m₁ : Mm) (role role₁ : ℕ → Role) (pml4 v p t i n : ℕ) (r : Option ℕ × Mm)
    (next : ℕ → Mm → Bool × Mm)
    → EnsureEnd m₁ role₁ t i n r
    → Kept m m₁ role
    → ((t' : ℕ) (m' : Mm) → Ensured m₁ m' role₁ t i n t' → MapEnd m role pml4 v p (next t' m'))
    → MapEnd m role pml4 v p (with_table r next)
unfolding with_table
with_table-MapEnd m m₁ role role₁ pml4 v p t i n (none, m') next same kept more =
    subst (λ x. Kept m x role) (sym same) kept
with_table-MapEnd m m₁ role role₁ pml4 v p t i n (some t', m') next made kept more = more t' m' made

-- Let the page tables form a tree: free pages that fit an entry, tables of the four levels, where
-- every present entry of a user's index leads to a table of the level below and is its only
-- parent. A call of map_page on a root of the tree, with a user address, a frame below 2^52 and
-- flags below 4096, keeps a tree in which the old tables are tables still. If the call fails, no
-- address space translates a user address differently. If it succeeds, the address translates to
-- the frame, and every user address of another page or another root translates as before.
pub map_page-MapEnd :
    (m : Mm) (ps : List ℕ) (role : ℕ → Role) (pml4 v p flags : ℕ)
    → IsTree m ps role
    → role (phys_to_virt m pml4) ≡ table 3
    → v < 2 ^ 47
    → p < 2 ^ 52
    → flags < page_size
    → MapEnd m role pml4 v p (map_page m pml4 v p flags)
unfolding map_page kept_none kept_table
map_page-MapEnd m ps role pml4 v p flags tree rt user fits low =
    let same = kept_none m ps role tree in
    let top = phys_to_virt m pml4 in
    elim (Bool-cases (bit_and v 0xfff == 0)) [
      | inr odd ↦ rw odd same
      | inl aligned_v ↦ elim (Bool-cases (bit_and p 0xfff == 0)) [
        | inr odd ↦ rw (aligned_v, odd) same
        | inl aligned_p ↦
            rw (aligned_v, aligned_p)
              (with_table-MapEnd m m role role pml4 v p top (index_at 3 v) 2 _ _
                (ensure_next_table-EnsureEnd m ps role top (index_at 3 v) 2 flags tree rt
                  (index_at_user 3 v user) low)
                same
                λ t₂ m₁ a.
                  let kept₁ = kept_table m m m₁ role top (index_at 3 v) 2 t₂ same a in
                  with_table-MapEnd m m₁ role a.role' pml4 v p t₂ (index_at 2 v) 1 _ _
                    (ensure_next_table-EnsureEnd m₁ a.ps' a.role' t₂ (index_at 2 v) 1 flags a.tree
                      a.next (index_at_user 2 v user) low)
                    kept₁
                    λ t₁ m₂ b.
                      let kept₂ = kept_table m m₁ m₂ role t₂ (index_at 2 v) 1 t₁ kept₁ b in
                      with_table-MapEnd m m₂ role b.role' pml4 v p t₁ (index_at 1 v) 0 _ _
                        (ensure_next_table-EnsureEnd m₂ b.ps' b.role' t₁ (index_at 1 v) 0 flags
                          b.tree b.next (index_at_user 1 v user) low)
                        kept₂
                        λ t₀ m₃ c.
                          map_leaf-MapEnd m m₃ role pml4 v p flags t₀
                            (kept_table m m₂ m₃ role t₁ (index_at 1 v) 0 t₀ kept₂ c) rt user fits
                            low (ground arith) (ground arith) c.next
                            (walk-Reaches m m₁ m₂ m₃ role top t₂ t₁ t₀ v rt a b c))
      ]
    ]
