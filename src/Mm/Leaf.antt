-- ===== src/Mm/Leaf.antt =====
-- The last store of `xbks_vmm_map_page` of mm/mm.c: an entry of a table of leaves.
use xbks.Prelude.{
  ℕ, zero, suc, ◌^◌, ◌<◌, ◌≡◌, ◌≢◌, ◌⊎◌, inl, inr, refl, sym, ◌∙◌, true, false, Bool-cases, some,
  ◌==◌, List, arith,
}
use Prim.Native.Nat.{bit_and}
use xbks.Mm.Frames.{Mm}
use xbks.Mm.Tables.{
  frame_mask, is_present, entry_address, load_entry, store_entry, page_table_from_entry,
}
use xbks.Mm.Lookup.{lookup, Reaches, index_at, index_at_bound, index_at_user}
use xbks.Mm.Tree.{
  Role, table, user_slots, IsTree, IsFrame-offset, page_table_from_entry-offset, entry_apart,
}
use xbks.Mm.Ensured.{table_inj, slots_bound, IsPool-store, All-IsNew}

-- The indices of two addresses agree in the levels from one up to another.
abbrev pub SameIndices : ℕ → ℕ → ℕ → Type 0
SameIndices zero v w = Unit
SameIndices (suc k) v w = (index_at (suc k) v ≡ index_at (suc k) w) × SameIndices k v w

module _ (m : Mm) (ps : List ℕ) (role : ℕ → Role) (t i e : ℕ) (tree : IsTree m ps role)
    (rt : role t ≡ table 0) (bi : i < 512) where
  unfoldable pub stored : Mm
  stored = store_entry m t i e

  leaf_hit : load_entry stored t i ≡ e
  unfolding stored
  leaf_hit =
      let here : (entry_address t i == entry_address t i) ≡ true = ground arith in rw here refl

  leaf_miss :
      (q k j : ℕ)
      → role q ≡ table k
      → j < 512
      → (q ≢ t) ⊎ (j ≢ i)
      → load_entry stored q j ≡ load_entry m q j
  unfolding stored
  leaf_miss q k j rq bj ne =
      let apart : (entry_address q j == entry_address t i) ≡ false =
        ground (arith, entry_apart q t j i (tree.aligned q k rq) (tree.aligned t 0 rt) bj bi) in
      rw apart refl

  upper : (q k j : ℕ) → role q ≡ table (suc k) → j < 512 → load_entry stored q j ≡ load_entry m q j
  upper q k j rq bj =
      leaf_miss q (suc k) j rq bj
        (inl λ is_t. absurd (omega (arith, table_inj (sym (rw is_t at rq) ∙ rt))))

  upper_user :
      (q k j : ℕ)
      → role q ≡ table (suc k)
      → j < user_slots (suc k)
      → load_entry stored q j ≡ load_entry m q j
  upper_user q k j rq bj = upper q k j rq (omega (arith, slots_bound (suc k)))

  child_kept : (x : ℕ) → page_table_from_entry stored x ≡ page_table_from_entry m x
  unfolding stored
  child_kept x = page_table_from_entry-offset m stored x refl

  pub IsTree-stored : IsTree stored ps role
  unfolding stored
  IsTree-stored = record {
    offset_aligned = tree.offset_aligned;
    offset_bound = tree.offset_bound;
    pool =
        IsPool-store m ps t i e (tree.aligned t 0 rt) bi (All-IsNew role t 0 ps rt tree.all_free)
          tree.pool;
    all_free = tree.all_free;
    frames = IsFrame-offset m stored ps refl tree.frames;
    aligned = tree.aligned;
    children = λ q k j rq bj present.
        let same = upper_user q k j rq bj in
        rw (same, child_kept (load_entry m q j)) (tree.children q k j rq bj (rw same at present));
    one_parent = λ q u k j l rq ru bj bl pj pl eq.
        let sq = upper_user q k j rq bj in
        let su = upper_user u k l ru bl in
        tree.one_parent q u k j l rq ru bj bl (rw sq at pj) (rw su at pl)
          (rw (sq, su, child_kept (load_entry m q j), child_kept (load_entry m u l)) at eq);
  }

  -- An address whose walk ends at the entry finds the frame in it.
  pub lookup_hit :
      (k q v : ℕ)
      → v < 2 ^ 47
      → role q ≡ table k
      → Reaches m k q v t
      → index_at 0 v ≡ i
      → is_present e ≡ true
      → lookup stored k q v ≡ some (bit_and e frame_mask)
  unfolding lookup
  lookup_hit zero q v user rq eq ei present = rw (eq, ei, leaf_hit, present) refl
  lookup_hit (suc k) q v user rq (there, walk) ei present =
      let j = index_at (suc k) v in
      rw (upper q k j rq (index_at_bound (suc k) v), there, child_kept (load_entry m q j))
        (lookup_hit k (page_table_from_entry m (load_entry m q j)) v user
          (tree.children q k j rq (index_at_user (suc k) v user) there) walk ei present)

  -- Any other address finds what it found.
  pub lookup_miss :
      (k q v : ℕ)
      → v < 2 ^ 47
      → role q ≡ table k
      → (Reaches m k q v t → index_at 0 v ≢ i)
      → lookup stored k q v ≡ lookup m k q v
  unfolding lookup
  lookup_miss zero q v user rq away = elim (Bool-cases (q == t)) [
    | inl is_t ↦
        let eq : q ≡ t = ground arith in
        rw (leaf_miss q 0 (index_at 0 v) rq (index_at_bound 0 v) (inr (away eq))) refl
    | inr other ↦
        rw (leaf_miss q 0 (index_at 0 v) rq (index_at_bound 0 v) (inl (ground arith))) refl
  ]
  lookup_miss (suc k) q v user rq away =
      let j = index_at (suc k) v in
      elim (Bool-cases (is_present (load_entry m q j))) [
        | inr absent ↦ rw (upper q k j rq (index_at_bound (suc k) v), absent) refl
        | inl there ↦
            rw (upper q k j rq (index_at_bound (suc k) v), there, child_kept (load_entry m q j))
              (lookup_miss k (page_table_from_entry m (load_entry m q j)) v user
                (tree.children q k j rq (index_at_user (suc k) v user) there)
                (λ walk. away (there, walk)))
      ]

-- Two walks that end in one table of leaves start in one table, and take the same indices.
pub Reaches-unique :
    (m : Mm) (ps : List ℕ) (role : ℕ → Role) (k q u v w t : ℕ)
    → IsTree m ps role
    → v < 2 ^ 47
    → w < 2 ^ 47
    → role q ≡ table k
    → role u ≡ table k
    → Reaches m k q v t
    → Reaches m k u w t
    → (q ≡ u) × SameIndices k v w
Reaches-unique m ps role zero q u v w t tree bv bw rq ru a b = (a ∙ sym b, tt)
Reaches-unique m ps role (suc k) q u v w t tree bv bw rq ru (pq, a) (pu, b) =
    let j = index_at (suc k) v in
    let l = index_at (suc k) w in
    let bj = index_at_user (suc k) v bv in
    let bl = index_at_user (suc k) w bw in
    let (same, below) =
      Reaches-unique m ps role k (page_table_from_entry m (load_entry m q j))
        (page_table_from_entry m (load_entry m u l)) v w t tree bv bw (tree.children q k j rq bj pq)
        (tree.children u k l ru bl pu) a b in
    let (tables, indices) = tree.one_parent q u k j l rq ru bj bl pq pu same in
    (tables, (indices, below))
