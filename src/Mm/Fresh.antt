-- ===== src/Mm/Fresh.antt =====
-- A fresh page that `ensure_next_table` of mm/mm.c puts into the tree.
use xbks.Prelude.{
  ℕ, zero, suc, ◌+◌, ◌%◌, ◌^◌, ◌<◌, ◌≡◌, ◌≢◌, ◌⊎◌, inl, inr, refl, sym, ap, ◌∙◌, true, false, ◌&&◌,
  Bool-cases, none, ltb, leb, ◌==◌, List, [], ◌∷◌, All, if◌then◌else◌, arith,
}
use mathlib.Core.Path.{subst}
use xbks.Mm.Frames.{Mm, page_size, phys_to_virt, virt_to_phys}
use xbks.Mm.Tables.{
  is_present, entry_address, load_entry, store_entry, page_table_from_entry, table_entry,
}
use xbks.Mm.FreeList.{IsPool, IsNew, alloc_frame-IsPool, taken, Nodes-first, alloc_frame-taken}
use xbks.Mm.Lookup.{lookup, index_at, index_at_bound, index_at_user}
use xbks.Mm.Tree.{
  Role, free, table, user_slots, IsFrame, IsTree, table_entry-is_present, table_entry-frame,
  phys_to_virt-virt_to_phys, virt_to_phys_aligned, page_table_from_entry-offset, entry_apart,
  is_present_lem,
}
use xbks.Mm.Ensured.{Ensured, table_inj, slots_bound, All-IsNew, IsPool-store}

-- A fresh page becomes the next table.
module _ (m : Mm) (p : ℕ) (ps : List ℕ) (role : ℕ → Role) (t i n flags : ℕ)
    (tree : IsTree m (p ∷ ps) role) (rt : role t ≡ table (suc n)) (bi : i < user_slots (suc n))
    (low : flags < page_size) (vacant : is_present (load_entry m t i) ≡ false) where
  unfoldable pub entry : ℕ
  entry = table_entry (virt_to_phys m p) flags

  unfoldable pub after : Mm
  after = store_entry (taken m p) t i entry

  role_after : ℕ → Role
  role_after q = if q == p then table n else role q

  p_aligned : p % page_size ≡ 0
  p_aligned = (Nodes-first tree.pool.nodes).2

  t_aligned : t % page_size ≡ 0
  t_aligned = tree.aligned t (suc n) rt

  i_bound : i < 512
  i_bound = omega (arith, slots_bound (suc n))

  table_not_p : (q k : ℕ) → role q ≡ table k → q ≢ p
  table_not_p q k e same = cc (rw same at e, tree.all_free.0)

  pub at_entry : load_entry after t i ≡ entry
  unfolding after
  at_entry =
      let here : (entry_address t i == entry_address t i) ≡ true = ground arith in rw here refl

  -- The other entries of the tables.
  at_other :
      (q k j : ℕ)
      → role q ≡ table k
      → j < 512
      → (q ≢ t) ⊎ (j ≢ i)
      → load_entry after q j ≡ load_entry m q j
  unfolding after
  at_other q k j e b ne =
      let aq = tree.aligned q k e in
      let apart : (entry_address q j == entry_address t i) ≡ false =
        ground (arith, entry_apart q t j i aq t_aligned b i_bound) in
      let out : (leb p (entry_address q j) && ltb (entry_address q j) (p + page_size)) ≡ false =
        ground (arith, table_not_p q k e, p_aligned, aq) in
      rw (apart, out) refl

  -- The fresh table's entries are clear.
  at_fresh : (j : ℕ) → j < 512 → load_entry after p j ≡ 0
  unfolding after
  at_fresh j b =
      let apart : (entry_address p j == entry_address t i) ≡ false =
        ground
          (arith, entry_apart p t j i p_aligned t_aligned b i_bound, table_not_p t (suc n) rt) in
      let inside : (leb p (entry_address p j) && ltb (entry_address p j) (p + page_size)) ≡ true =
        ground arith in
      rw (apart, inside) refl

  pub entry_leads : page_table_from_entry after entry ≡ p
  unfolding after entry page_table_from_entry
  entry_leads =
      page_table_from_entry-offset m after entry refl
      ∙ ap (phys_to_virt m) (
          table_entry-frame (virt_to_phys m p) flags
            (virt_to_phys_aligned m p p_aligned tree.offset_aligned tree.offset_bound)
            tree.frames.0.frame_bound low)
      ∙ phys_to_virt-virt_to_phys m p tree.frames.0.bound tree.offset_bound

  offset_after : after.hhdm_offset ≡ m.hhdm_offset
  unfolding after
  offset_after = refl

  role_p : role_after p ≡ table n
  unfolding role_after
  role_p = let here : (p == p) ≡ true = ground arith in rw here refl

  role_else : (q : ℕ) → q ≢ p → role_after q ≡ role q
  unfolding role_after
  role_else q ne = let e : (q == p) ≡ false = ground arith in rw e refl

  grows_after : (q k : ℕ) → role q ≡ table k → role_after q ≡ table k
  grows_after q k e = role_else q (table_not_p q k e) ∙ e

  free_after :
      (qs : List ℕ) → IsNew p qs → All (λ q. role q ≡ free) qs → All (λ q. role_after q ≡ free) qs
  free_after [] d h = tt
  free_after (q ∷ qs) (ne, d) (fq, h) = (role_else q ne ∙ fq, free_after qs d h)

  absent_fresh : (j : ℕ) → j < 512 → is_present (load_entry after p j) ≡ false
  absent_fresh j b = rw (at_fresh j b) (ground (arith, is_present_lem 0))

  -- What a present entry of a table is after the store.
  stored_leads : (q j : ℕ) → q ≡ t → j ≡ i → page_table_from_entry after (load_entry after q j) ≡ p
  stored_leads q j a b = rw (a, b, at_entry) entry_leads

  data EntryCase (q k j : ℕ) : Type 0 where
    stored : q ≡ t → j ≡ i → EntryCase q k j
    kept :
        role q ≡ table (suc k)
        → is_present (load_entry m q j) ≡ true
        → page_table_from_entry after (load_entry after q j)
          ≡ page_table_from_entry m (load_entry m q j)
        → EntryCase q k j

  entry_cases :
      (q k j : ℕ)
      → role_after q ≡ table (suc k)
      → j < user_slots (suc k)
      → is_present (load_entry after q j) ≡ true
      → EntryCase q k j
  entry_cases q k j rq b present =
      let b' : j < 512 = omega (arith, slots_bound (suc k)) in
      elim (Bool-cases (q == p)) [
        | inl e ↦ let e' : q ≡ p = ground arith in cc (absent_fresh j b', rw e' at present)
        | inr ne ↦
            let old : role q ≡ table (suc k) = sym (role_else q (ground arith)) ∙ rq in
            elim (Bool-cases (q == t && j == i)) [
              | inl here ↦ stored (ground arith) (ground arith)
              | inr there ↦
                  let same = at_other q (suc k) j old b' (ground arith) in
                  kept old (rw same at present)
                    (rw same (page_table_from_entry-offset m after (load_entry m q j) offset_after))
            ]
      ]

  child_of :
      (q k j : ℕ)
      → role_after q ≡ table (suc k)
      → j < user_slots (suc k)
      → EntryCase q k j
      → role_after (page_table_from_entry after (load_entry after q j)) ≡ table k
  child_of q k j rq b (stored eq ej) =
      let levels : suc k ≡ suc n = table_inj (sym rq ∙ grows_after q (suc n) (rw eq rt)) in
      let kn : k ≡ n = omega arith in rw (stored_leads q j eq ej, kn) role_p
  child_of q k j rq b (kept old present leads) = rw leads (
      grows_after (page_table_from_entry m (load_entry m q j)) k
        (tree.children q k j old b present))

  children_after :
      (q k j : ℕ)
      → role_after q ≡ table (suc k)
      → j < user_slots (suc k)
      → is_present (load_entry after q j) ≡ true
      → role_after (page_table_from_entry after (load_entry after q j)) ≡ table k
  children_after q k j rq b present = child_of q k j rq b (entry_cases q k j rq b present)

  one_parent_cases :
      (q u k j l : ℕ)
      → EntryCase q k j
      → EntryCase u k l
      → j < user_slots (suc k)
      → l < user_slots (suc k)
      → page_table_from_entry after (load_entry after q j)
        ≡ page_table_from_entry after (load_entry after u l)
      → (q ≡ u) × (j ≡ l)
  one_parent_cases q u k j l (stored a b) (stored c d) bj bl e = (a ∙ sym c, b ∙ sym d)
  one_parent_cases q u k j l (kept a b c) (kept a' b' c') bj bl e =
      tree.one_parent q u k j l a a' bj bl b b' (sym c ∙ e ∙ c')
  one_parent_cases q u k j l (stored a b) (kept a' b' c') bj bl e = absurd (
      table_not_p (page_table_from_entry m (load_entry m u l)) k (tree.children u k l a' bl b')
        (sym c' ∙ sym e ∙ stored_leads q j a b))
  one_parent_cases q u k j l (kept a b c) (stored a' b') bj bl e = absurd (
      table_not_p (page_table_from_entry m (load_entry m q j)) k (tree.children q k j a bj b)
        (sym c ∙ e ∙ stored_leads u l a' b'))

  one_parent_after :
      (q u k j l : ℕ)
      → role_after q ≡ table (suc k)
      → role_after u ≡ table (suc k)
      → j < user_slots (suc k)
      → l < user_slots (suc k)
      → is_present (load_entry after q j) ≡ true
      → is_present (load_entry after u l) ≡ true
      → page_table_from_entry after (load_entry after q j)
        ≡ page_table_from_entry after (load_entry after u l)
      → (q ≡ u) × (j ≡ l)
  one_parent_after q u k j l rq ru bj bl pj pl e =
      one_parent_cases q u k j l (entry_cases q k j rq bj pj) (entry_cases u k l ru bl pl) bj bl e

  frames_after : (qs : List ℕ) → All (IsFrame m) qs → All (IsFrame after) qs
  unfolding after virt_to_phys
  frames_after [] h = tt
  frames_after (q ∷ qs) (f, h) = (
    record { bound = f.bound; frame_bound = f.frame_bound; not_null = f.not_null },
    frames_after qs h,
  )

  IsPool-taken : IsPool (taken m p) ps
  IsPool-taken =
      subst (λ m'. IsPool m' ps) (ap (λ (r : ℕ × Mm). r.1) (alloc_frame-taken m p ps tree.pool))
        (alloc_frame-IsPool m (p ∷ ps) tree.pool).1

  IsTree-after : IsTree after ps role_after
  unfolding after
  IsTree-after = record {
    offset_aligned = tree.offset_aligned;
    offset_bound = tree.offset_bound;
    pool =
        IsPool-store (taken m p) ps t i entry t_aligned i_bound
          (All-IsNew role t (suc n) ps rt tree.all_free.1) IsPool-taken;
    all_free = free_after ps tree.pool.distinct.0 tree.all_free.1;
    frames = frames_after ps tree.frames.1;
    aligned = λ q k rq. elim (Bool-cases (q == p)) [
      | inl e ↦ let e' : q ≡ p = ground arith in rw e' p_aligned
      | inr ne ↦ tree.aligned q k (sym (role_else q (ground arith)) ∙ rq)
    ];
    children = children_after;
    one_parent = one_parent_after;
  }

  -- A table that is clear holds nothing.
  lookup_clear : (k v : ℕ) → lookup after k p v ≡ none
  unfolding lookup
  lookup_clear zero v =
      let absent : is_present (load_entry after p (index_at 0 v)) ≡ false =
        absent_fresh (index_at 0 v) (index_at_bound 0 v) in
      rw absent refl
  lookup_clear (suc k) v =
      let absent : is_present (load_entry after p (index_at (suc k) v)) ≡ false =
        absent_fresh (index_at (suc k) v) (index_at_bound (suc k) v) in
      rw absent refl

  lookup-after : (k q v : ℕ) → v < 2 ^ 47 → role q ≡ table k → lookup after k q v ≡ lookup m k q v
  unfolding lookup
  lookup-after zero q v user e =
      let same =
        at_other q 0 (index_at 0 v) e (index_at_bound 0 v)
          (inl λ is_t. absurd (omega (arith, table_inj (sym (rw is_t at e) ∙ rt)))) in
      rw same refl
  lookup-after (suc k) q v user e = elim (Bool-cases (q == t && index_at (suc k) v == i)) [
    | inl here ↦
        let eq : q ≡ t = ground arith in
        let ei : index_at (suc k) v ≡ i = ground arith in
        rw (eq, ei, at_entry, entry_leads, lookup_clear k v, vacant)
          (elim (Bool-cases (is_present entry)) [ inl y ↦ rw y refl | inr n ↦ rw n refl ])
    | inr there ↦
        let same =
          at_other q (suc k) (index_at (suc k) v) e (index_at_bound (suc k) v) (ground arith) in
        elim (Bool-cases (is_present (load_entry m q (index_at (suc k) v)))) [
          | inr absent ↦ rw (same, absent) refl
          | inl present ↦
              let child = load_entry m q (index_at (suc k) v) in
              rw (same, present, page_table_from_entry-offset m after child offset_after)
                (lookup-after k (page_table_from_entry m child) v user
                  (tree.children q k (index_at (suc k) v) e (index_at_user (suc k) v user) present))
        ]
  ]

  pub Ensured-new : Ensured m after role t i n p
  unfolding entry
  Ensured-new = record {
    ps' = ps;
    role' = role_after;
    tree = IsTree-after;
    grows = grows_after;
    next = role_p;
    present = rw at_entry (table_entry-is_present (virt_to_phys m p) flags);
    leads = rw at_entry entry_leads;
    keeps = at_other;
    offset = offset_after;
    lookups = lookup-after;
  }
