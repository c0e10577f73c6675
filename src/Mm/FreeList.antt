-- ===== src/Mm/FreeList.antt =====
-- The free list of mm/mm.c: what `xbks_pmm_alloc_frame` and `xbks_pmm_free_frame` do to it.
use xbks.Prelude.{
  ℕ, ◌+◌, ◌-◌, ap, ◌%◌, ◌<◌, ◌≡◌, ◌≢◌, refl, true, false, ◌==◌, ◌&&◌, List, [], ◌∷◌, All, length,
  ltb, leb, arith,
}
use xbks.Prelude.Bits.{bit_and-page_mask}
use xbks.Mm.Frames.{
  Mm, Words, word_mod, page_size, put_word, clear_page, align_down, phys_to_virt, virt_to_phys,
  alloc_frame, free_frame,
}

-- The nodes from a pointer on, each at the start of a page.
pub data Nodes (words : Words) : ℕ → List ℕ → Type 0 where
  end : Nodes words 0 []
  node :
      {p : ℕ} {ps : List ℕ}
      → p ≢ 0
      → p % page_size ≡ 0
      → Nodes words (words p) ps
      → Nodes words p (p ∷ ps)

abbrev pub Distinct : List ℕ → Type 0
Distinct [] = Unit {0}
Distinct (p ∷ ps) = All (λ q. q ≢ p) ps × Distinct ps

-- The free list holds these pages, each once, and the count is theirs.
pub record IsPool (m : Mm) (ps : List ℕ) : Type 0 where
  pub nodes : Nodes m.words m.free_frames ps
  pub distinct : Distinct ps
  pub count : m.free_frame_count ≡ length ps
  pub small : length ps < word_mod

-- Whether a node is one of them.
abbrev pub IsNew : ℕ → List ℕ → Type 0
IsNew p ps = All (λ q. q ≢ p) ps

-- A list stays where the first words of its pages do.
pub Nodes-keep :
    {words : Words} {p : ℕ} {ps : List ℕ} (n : ℕ) (words' : Words)
    → ((q : ℕ) → q % page_size ≡ 0 → q ≢ n → words' q ≡ words q)
    → Nodes words p ps
    → IsNew n ps
    → Nodes words' p ps
Nodes-keep n words' same end new = end
Nodes-keep {words} {p} n words' same (node nz aligned rest) (ne, new) =
    node nz aligned (rw (same p aligned ne) (Nodes-keep n words' same rest new))

clear_page_apart :
    (words : Words) (n q : ℕ)
    → n % page_size ≡ 0
    → q % page_size ≡ 0
    → q ≢ n
    → clear_page words n q ≡ words q
clear_page_apart words n q an aq ne =
    let out : (leb n q && ltb q (n + page_size)) ≡ false = ground arith in rw out refl

-- What an allocation returns for a list of pages.
abbrev pub first_frame : Mm → List ℕ → ℕ
first_frame m [] = 0
first_frame m (p ∷ ps) = virt_to_phys m p

abbrev pub rest_of : List ℕ → List ℕ
rest_of [] = []
rest_of (p ∷ ps) = ps

alloc_frame_cases :
    (m : Mm) (head : ℕ) (ps : List ℕ)
    → m.free_frames ≡ head
    → Nodes m.words head ps
    → Distinct ps
    → m.free_frame_count ≡ length ps
    → length ps < word_mod
    → ((alloc_frame m).0 ≡ first_frame m ps) × IsPool (alloc_frame m).1 (rest_of ps)
unfolding alloc_frame
alloc_frame_cases m _ _ at end distinct count small =
    rw at (refl, record { nodes = end; distinct = tt; count = count; small = small })
alloc_frame_cases m head _ at (node {ps} nz aligned rest) (new, distinct) count small =
    let used : (head == 0) ≡ false = ground arith in
    rw (at, used)
      (
        refl,
        record {
          nodes =
              Nodes-keep head (clear_page m.words head)
                (λ q aq ne. clear_page_apart m.words head q aligned aq ne) rest new;
          distinct = distinct;
          count = omega (arith, count);
          small = omega arith;
        },
      )

-- The allocator after the first page is taken.
abbrev pub taken : Mm → ℕ → Mm
taken m p = record m {
  free_frames = m.words p;
  free_frame_count = (m.free_frame_count + word_mod - 1) % word_mod;
  words = clear_page m.words p;
}

pub Nodes-first :
    {words : Words} {h p : ℕ} {ps : List ℕ}
    → Nodes words h (p ∷ ps)
    → (h ≡ p) × (p ≢ 0) × (p % page_size ≡ 0)
Nodes-first (node nz aligned rest) = (refl, nz, aligned)

pub alloc_frame-taken :
    (m : Mm) (p : ℕ) (ps : List ℕ)
    → IsPool m (p ∷ ps)
    → alloc_frame m ≡ (virt_to_phys m p, taken m p)
unfolding alloc_frame
alloc_frame-taken m p ps pool =
    let (first, nz, aligned) = Nodes-first pool.nodes in
    let used : (m.free_frames == 0) ≡ false = ground arith in
    rw used (ap (λ h. (virt_to_phys m h, taken m h)) first)

Nodes-none : {words : Words} {h : ℕ} → Nodes words h [] → h ≡ 0
Nodes-none end = refl

pub alloc_frame-none : (m : Mm) → IsPool m [] → alloc_frame m ≡ (0, m)
unfolding alloc_frame
alloc_frame-none m pool =
    let empty : (m.free_frames == 0) ≡ true = ground (arith, Nodes-none pool.nodes) in rw empty refl

-- If the free list holds distinct pages and the count is theirs, an allocation returns the frame
-- of the first, or 0 where there is none, and the free list holds the others with their count.
pub alloc_frame-IsPool :
    (m : Mm) (ps : List ℕ)
    → IsPool m ps
    → ((alloc_frame m).0 ≡ first_frame m ps) × IsPool (alloc_frame m).1 (rest_of ps)
alloc_frame-IsPool m ps pool =
    alloc_frame_cases m m.free_frames ps refl pool.nodes pool.distinct pool.count pool.small

-- If the free list holds distinct pages and the count is theirs, a 64-bit frame address that is
-- not null and whose page, at an address that is not null, is not among them is put in front of
-- them by free_frame, and the count is theirs; the direct map starts at a page, and fewer than
-- 2^64 pages are counted.
pub free_frame-IsPool :
    (m : Mm) (frame : ℕ) (ps : List ℕ)
    → IsPool m ps
    → frame ≢ 0
    → frame < word_mod
    → m.hhdm_offset % page_size ≡ 0
    → phys_to_virt m (align_down frame page_size) ≢ 0
    → IsNew (phys_to_virt m (align_down frame page_size)) ps
    → length ps + 1 < word_mod
    → IsPool (free_frame m frame) (phys_to_virt m (align_down frame page_size) ∷ ps)
unfolding free_frame phys_to_virt align_down
free_frame-IsPool m frame ps pool some_frame bound offset mapped new room =
    let some_frame' : (frame == 0) ≡ false = ground arith in
    let p = phys_to_virt m (align_down frame page_size) in
    let aligned : p % page_size ≡ 0 = omega (arith, bit_and-page_mask frame bound) in
    let here : (p == p) ≡ true = ground arith in
    rw some_frame' (record {
      nodes = node mapped aligned (
          rw here (
            Nodes-keep p (put_word m.words p m.free_frames)
              (λ q aq ne. let other : (q == p) ≡ false = ground arith in rw other refl) pool.nodes
              new));
      distinct = (new, pool.distinct);
      count = omega (arith, pool.count);
      small = omega arith;
    })

-- Where the offset of the direct map and the count are 64-bit values, a 64-bit frame address that
-- is not null, whose page is at an address that is not null, comes back, rounded down to its page,
-- from the allocation after its release, and the head of the free list and the count are then as
-- before the release.
pub alloc_frame-free_frame :
    (m : Mm) (frame : ℕ)
    → frame ≢ 0
    → frame < word_mod
    → m.hhdm_offset < word_mod
    → phys_to_virt m (align_down frame page_size) ≢ 0
    → m.free_frame_count < word_mod
    → ((alloc_frame (free_frame m frame)).0 ≡ align_down frame page_size)
      × ((alloc_frame (free_frame m frame)).1.free_frames ≡ m.free_frames)
      × ((alloc_frame (free_frame m frame)).1.free_frame_count ≡ m.free_frame_count)
unfolding alloc_frame free_frame phys_to_virt virt_to_phys align_down
alloc_frame-free_frame m frame some_frame bound offset mapped count =
    let some_frame' : (frame == 0) ≡ false = ground arith in
    let p = phys_to_virt m (align_down frame page_size) in
    let used : (p == 0) ≡ false = ground arith in
    let here : (p == p) ≡ true = ground arith in
    rw (some_frame', used, here) (omega (arith, bit_and-page_mask frame bound), refl, omega arith)
