-- ===== src/Mm/Ensured.antt =====
-- What `ensure_next_table` of mm/mm.c ends with when there is a table of the level below.
use xbks.Prelude.{
  ℕ, suc, ◌%◌, ◌^◌, ◌≤◌, ◌<◌, ◌≡◌, ◌≢◌, ◌⊎◌, refl, true, false, ◌==◌, List, [], ◌∷◌, All, arith,
}
use xbks.Mm.Frames.{Mm, page_size, put_word}
use xbks.Mm.Tables.{is_present, entry_address, load_entry, store_entry, page_table_from_entry}
use xbks.Mm.FreeList.{IsPool, IsNew, Nodes-keep}
use xbks.Mm.Lookup.{lookup}
use xbks.Mm.Tree.{Role, free, table, user_slots, IsTree}

pub record Ensured (m m' : Mm) (role : ℕ → Role) (t i n t' : ℕ) : Type 0 where
  pub ps' : List ℕ
  pub role' : ℕ → Role
  pub tree : IsTree m' ps' role'
  pub grows : (q k : ℕ) → role q ≡ table k → role' q ≡ table k
  pub next : role' t' ≡ table n
  pub present : is_present (load_entry m' t i) ≡ true
  pub leads : page_table_from_entry m' (load_entry m' t i) ≡ t'
  pub keeps :
      (q k j : ℕ)
      → role q ≡ table k
      → j < 512
      → (q ≢ t) ⊎ (j ≢ i)
      → load_entry m' q j ≡ load_entry m q j
  pub offset : m'.hhdm_offset ≡ m.hhdm_offset
  pub lookups : (k q v : ℕ) → v < 2 ^ 47 → role q ≡ table k → lookup m' k q v ≡ lookup m k q v

pub table_inj : {k n : ℕ} → table k ≡ table n → k ≡ n
table_inj e = cc

pub slots_bound : (n : ℕ) → user_slots n ≤ 512
slots_bound n = ground arith

pub All-IsNew :
    (role : ℕ → Role) (t n : ℕ) (ps : List ℕ)
    → role t ≡ table n
    → All (λ p. role p ≡ free) ps
    → IsNew t ps
All-IsNew role t n [] rt h = tt
All-IsNew role t n (p ∷ ps) rt (fp, h) = ((λ e. cc (rw e at fp, rt)), All-IsNew role t n ps rt h)

-- A store into a table's entry touches no node of the free list.
pub IsPool-store :
    (m : Mm) (ps : List ℕ) (t i v : ℕ)
    → t % page_size ≡ 0
    → i < 512
    → IsNew t ps
    → IsPool m ps
    → IsPool (store_entry m t i v) ps
IsPool-store m ps t i v at bi new pool = record {
  nodes =
      Nodes-keep t (put_word m.words (entry_address t i) v)
        (λ q aq ne. let out : (q == entry_address t i) ≡ false = ground arith in rw out refl)
        pool.nodes new;
  distinct = pool.distinct;
  count = pool.count;
  small = pool.small;
}

-- What the tree is where an entry is present.
pub Ensured-old :
    (m : Mm) (ps : List ℕ) (role : ℕ → Role) (t i n : ℕ)
    → IsTree m ps role
    → role t ≡ table (suc n)
    → i < user_slots (suc n)
    → is_present (load_entry m t i) ≡ true
    → Ensured m m role t i n (page_table_from_entry m (load_entry m t i))
Ensured-old m ps role t i n tree rt bi old = record {
  ps' = ps;
  role' = role;
  tree = tree;
  grows = λ q k e. e;
  next = tree.children t n i rt bi old;
  present = old;
  leads = refl;
  keeps = λ q k j e b ne. refl;
  offset = refl;
  lookups = λ k q v user e. refl;
}
