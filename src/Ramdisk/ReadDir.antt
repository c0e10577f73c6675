-- ===== src/Ramdisk/ReadDir.antt =====
-- `xbks_ramdisk_read_dir` of fs/ramdisk.c enumerates the children of a directory, each once.
use xbks.Prelude.{
  ℕ, zero, suc, ◌+◌, ◌-◌, ◌*◌, ◌≤◌, ◌<◌, ◌≡◌, ◌≢◌, refl, ap, inl, inr, true, Bool-cases,
  Option-cases, some, List, [], ◌∷◌, ◌++◌, ltb, ◌==◌, length, get_elem?, arith,
}
use xbks.Ramdisk.Path.{path_size, normalize_path}
use xbks.Ramdisk.Tar.{Ramdisk, RamdiskFile, Entry, tar_block_size, entry_at, next_offset}
use xbks.Ramdisk.Files.{
  rounds, child_of_entry, child_seen_before, child_file, read_dir_loop, read_dir,
}
use xbks.Ramdisk.Listing.{shown, listing, Lists, listing-Lists}
use xbks.Ramdisk.Members.{Members, stop, next, IsValid, entry_at-Within, length-lt-rounds}

-- The entries between two offsets.
data Passed (r : Ramdisk) : ℕ → List Entry → ℕ → Type 0 where
  here : {offset : ℕ} → Passed r offset [] offset
  step :
      {offset offset' : ℕ} {e : Entry} {es : List Entry}
      → entry_at r offset ≡ some e
      → Passed r (next_offset e) es offset'
      → Passed r offset (e ∷ es) offset'

Passed-snoc :
    {r : Ramdisk} {o o' : ℕ} {e : Entry} {es : List Entry}
    → Passed r o es o'
    → entry_at r o' ≡ some e
    → Passed r o (es ++ e ∷ []) (next_offset e)
Passed-snoc here got = step got here
Passed-snoc (step first p) got = step first (Passed-snoc p got)

Passed-bound :
    {r : Ramdisk} {o o' : ℕ} {es : List Entry}
    → IsValid r
    → o ≤ r.size + 511
    → Passed r o es o'
    → tar_block_size * length es + o ≤ o'
Passed-bound v h here = omega arith
Passed-bound {r} {o} v h (step {e} got p) =
    let w = entry_at-Within r o e v (omega arith) got in
    omega (arith, Passed-bound v w.end p, w.forward)

child_seen_before-shown :
    (fuel : ℕ) {r : Ramdisk} {o o' : ℕ} {es : List Entry} (directory child : List ℕ)
    → IsValid r
    → o ≤ r.size + 511
    → Passed r o es o'
    → length es < fuel
    → child_seen_before fuel r directory child o' o ≡ shown directory child es
unfolding child_seen_before
child_seen_before-shown zero directory child v h p f = absurd (omega arith)
child_seen_before-shown (suc fuel) directory child v h here f = ground arith
child_seen_before-shown (suc fuel) {r} {o} {o'} directory child v h (step {e} {es} got p) f =
    let w = entry_at-Within r o e v (omega arith) got in
    let before : ltb o o' ≡ true = ground (arith, Passed-bound v w.end p, w.forward) in
    let later : child_seen_before fuel r directory child o' (next_offset e)
        ≡ shown directory child es =
      child_seen_before-shown fuel directory child v w.end p (omega arith) in
    rw (before, got, later)

sub_step : (a b : ℕ) → a - (b + 1) ≡ a - b - 1
sub_step a b = omega arith

sub_zero : (a : ℕ) → a - 0 ≡ a
sub_zero a = omega arith

get_elem?-cons :
    (x : RamdiskFile) (xs : List RamdiskFile) (n : ℕ)
    → n ≢ 0
    → get_elem? (x ∷ xs) n ≡ get_elem? xs (n - 1)
get_elem?-cons x xs zero h = absurd (h refl)
get_elem?-cons x xs (suc n) h = ap (get_elem? xs) (omega arith)

read_dir_loop-listing :
    (fuel : ℕ) {r : Ramdisk} {o : ℕ} {before es : List Entry} (directory : List ℕ)
    (index current : ℕ)
    → IsValid r
    → o ≤ r.size + 511
    → Passed r 0 before o
    → Members r o es
    → length es < fuel
    → current ≤ index
    → read_dir_loop fuel r directory index o current
      ≡ get_elem? (listing directory before es) (index - current)
unfolding read_dir_loop listing
read_dir_loop-listing zero directory index current v h p m f le = absurd (omega arith)
read_dir_loop-listing (suc fuel) directory index current v h p (stop ends) f le =
    rw (ends, read_dir_loop)
read_dir_loop-listing (suc fuel) {r} {o} {before} directory index current v h p
      (next {e} {es} got m) f le =
    let w = entry_at-Within r o e v (omega arith) got in
    let later = λ (c : ℕ) (b : c ≤ index).
      read_dir_loop-listing fuel directory index c v w.end (Passed-snoc p got) m (omega arith) b in
    elim (Option-cases (child_of_entry directory e)) [
      | inl elsewhere ↦ ground (arith, later current le)
      | inr ((child, nested), is_child) ↦
          let seen : child_seen_before (rounds r) r directory child o 0
              ≡ shown directory child before =
            child_seen_before-shown (rounds r) directory child v (omega arith) p
              (omega (arith, Passed-bound v (omega arith) p, w.after_header, w.fits)) in
          elim (Bool-cases (shown directory child before)) [
            | inl old ↦ ground (arith, later current le)
            | inr new ↦ elim (Bool-cases (current == index)) [
              | inl now ↦ let e : index - current ≡ 0 = ground arith in rw e (ground arith)
              | inr not_yet ↦ ground (
                arith,
                later (current + 1) (ground arith),
                get_elem?-cons (child_file directory e child nested)
                    (listing directory (before ++ e ∷ []) es) (index - current),
                ap (get_elem? (listing directory (before ++ e ∷ []) es)) (sub_step index current),
              )
            ]
          ]
    ]

pub read_dir-listing :
    (r : Ramdisk) (path : List ℕ) (index : ℕ) {es : List Entry}
    → IsValid r
    → r.available ≡ true
    → Members r 0 es
    → read_dir r path index ≡ get_elem? (listing (normalize_path path [] path_size) [] es) index
unfolding read_dir
read_dir-listing r path index {es} v on m = ground (
  arith,
  read_dir_loop-listing (rounds r) (normalize_path path [] path_size) index 0 v (omega arith) here m
      (length-lt-rounds v m) (omega arith),
  ap (get_elem? (listing (normalize_path path [] path_size) [] es)) (sub_zero index),
)

-- In an available archive of at most 2^63 bytes a directory has a list of lines, and read_dir with
-- an index returns the line at that index, and fails past the last. In the order of the archive
-- there is a line for each entry that shows a child which no entry before it shows, with
-- child_file's attributes, and no other line. An entry shows a child if its path is the
-- directory's path and a slash (nothing, at the root), the child, which is not empty and has no
-- slash, and then its end or a slash.
pub read_dir-nth :
    (r : Ramdisk) (path : List ℕ) {es : List Entry}
    → IsValid r
    → r.available ≡ true
    → Members r 0 es
    → (lines : List RamdiskFile) × Lists (normalize_path path [] path_size) [] es lines
      × ((index : ℕ) → read_dir r path index ≡ get_elem? lines index)
read_dir-nth r path {es} v on m =
    let directory = normalize_path path [] path_size in
    (
      listing directory [] es,
      listing-Lists directory [] es,
      λ index. read_dir-listing r path index v on m,
    )
