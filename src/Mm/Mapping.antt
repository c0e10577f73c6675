-- ===== src/Mm/Mapping.antt =====
-- `xbks_vmm_map_page` and `xbks_vmm_translate` of mm/mm.c: a call changes the address spaces at one
-- page, or not at all.
use xbks.Prelude.{ℕ, suc, ◌+◌, ◌%◌, ◌^◌, ◌<◌, ◌≡◌, ◌≢◌, inl, refl, sym, ap, ◌∙◌, List}
use xbks.Mm.Frames.{Mm, word_mod, phys_to_virt}
use xbks.Mm.Tables.{load_entry, translate}
use xbks.Mm.Lookup.{lookup, translate-lookup}
use xbks.Mm.Tree.{Role, table, IsTree}
use xbks.Mm.Ensured.{Ensured, table_inj}

-- The tables of before are tables, and hold the same frames.
pub record Kept (m m' : Mm) (role : ℕ → Role) : Type 0 where
  pub ps' : List ℕ
  pub role' : ℕ → Role
  pub tree : IsTree m' ps' role'
  pub grows : (q k : ℕ) → role q ≡ table k → role' q ≡ table k
  pub offset : m'.hhdm_offset ≡ m.hhdm_offset
  pub lookups : (k q v : ℕ) → v < 2 ^ 47 → role q ≡ table k → lookup m' k q v ≡ lookup m k q v

unfoldable pub kept_none :
    (m : Mm) (ps : List ℕ) (role : ℕ → Role) → IsTree m ps role → Kept m m role
kept_none m ps role tree = record {
  ps' = ps;
  role' = role;
  tree = tree;
  grows = λ q k e. e;
  offset = refl;
  lookups = λ k q v user e. refl;
}

-- One more table.
unfoldable pub kept_table :
    (m m' m'' : Mm) (role : ℕ → Role) (t i n t' : ℕ) (kept : Kept m m' role)
    → Ensured m' m'' kept.role' t i n t'
    → Kept m m'' role
kept_table m m' m'' role t i n t' kept more = record {
  ps' = more.ps';
  role' = more.role';
  tree = more.tree;
  grows = λ q k e. more.grows q k (kept.grows q k e);
  offset = more.offset ∙ kept.offset;
  lookups = λ k q v user e. more.lookups k q v user (kept.grows q k e) ∙ kept.lookups k q v user e;
}

pub phys_to_virt-offset :
    (m m' : Mm) (frame : ℕ)
    → m'.hhdm_offset ≡ m.hhdm_offset
    → phys_to_virt m' frame ≡ phys_to_virt m frame
unfolding phys_to_virt
phys_to_virt-offset m m' frame e = ap (λ o. (frame + o) % word_mod) e

-- Every address space translates as before.
pub Kept-translate :
    (m m' : Mm) (role : ℕ → Role) (root v : ℕ)
    → Kept m m' role
    → v < 2 ^ 47
    → role (phys_to_virt m root) ≡ table 3
    → translate m' root v ≡ translate m root v
Kept-translate m m' role root v kept user is_root =
    translate-lookup m' root v
    ∙ (rw
        (
          phys_to_virt-offset m m' root kept.offset,
          kept.lookups 3 (phys_to_virt m root) v user is_root,
        )
        refl)
    ∙ sym (translate-lookup m root v)

-- A walk goes on through the next table where there is one.
pub Ensured-load :
    (m m' : Mm) (role : ℕ → Role) (t i n t' q k j : ℕ)
    → role t ≡ table (suc n)
    → Ensured m m' role t i n t'
    → role q ≡ table k
    → k ≢ suc n
    → j < 512
    → load_entry m' q j ≡ load_entry m q j
Ensured-load m m' role t i n t' q k j rt more rq ne bj =
    more.keeps q k j rq bj (inl λ is_t. absurd (ne (table_inj (sym (rw is_t at rq) ∙ rt))))
