-- ===== src/Ramdisk/Listing.antt =====
-- The lines that `xbks_ramdisk_read_dir` of fs/ramdisk.c has for a directory.
use xbks.Prelude.{
  ℕ, ◌≡◌, sym, ◌∙◌, inl, inr, Bool, true, false, Bool-cases, Option-cases, Option, none, some, List,
  [], ◌∷◌, ◌++◌, All, Any, if◌then◌else◌, arith,
}
use mathlib.Core.Path.{subst}
use xbks.CString.Text.{text}
use xbks.Ramdisk.Tar.{Entry, RamdiskFile}
use xbks.Ramdisk.Files.{child_of_entry, same_child, child_file}
use xbks.Ramdisk.Terminated.{NoNul}
use xbks.Ramdisk.Bounds.{tar_path-IsEntryPath}
use xbks.Ramdisk.Children.{text_whole}
use xbks.Ramdisk.Shown.{Shows, NoNul-front, Under-fits, child_of_entry-Shows, Shows-child_of_entry}
use xbks.Ramdisk.Find.{same_text_iff}

-- The entry shows the child, as a file or with more below it.
abbrev pub HasChild : List ℕ → List ℕ → Entry → Type 0
HasChild directory child e = (nested : Bool) × Shows directory e child nested

-- The lines for entries that come after others: one for each entry that shows a child which no entry
-- before it shows.
pub data Lists (directory : List ℕ) : List Entry → List Entry → List RamdiskFile → Type 0 where
  done : {before : List Entry} → Lists directory before [] []
  elsewhere :
      {before es : List Entry} {e : Entry} {lines : List RamdiskFile}
      → ((child : List ℕ) → ¬ HasChild directory child e)
      → Lists directory (before ++ e ∷ []) es lines
      → Lists directory before (e ∷ es) lines
  repeated :
      {before es : List Entry} {e : Entry} {lines : List RamdiskFile} {child : List ℕ}
      → HasChild directory child e
      → Any (HasChild directory child) before
      → Lists directory (before ++ e ∷ []) es lines
      → Lists directory before (e ∷ es) lines
  fresh :
      {before es : List Entry} {e : Entry} {lines : List RamdiskFile} {child : List ℕ}
      {nested : Bool}
      → Shows directory e child nested
      → All (λ b. ¬ HasChild directory child b) before
      → Lists directory (before ++ e ∷ []) es lines
      → Lists directory before (e ∷ es) (child_file directory e child nested ∷ lines)

-- Whether one of the entries shows the child.
abbrev pub shown : List ℕ → List ℕ → List Entry → Bool
shown directory child [] = false
shown directory child (b ∷ bs) =
    if same_child child (child_of_entry directory b) then true else shown directory child bs

abbrev pub add_line :
    List ℕ → List Entry → Entry → Option (List ℕ × Bool) → List RamdiskFile → List RamdiskFile
add_line directory before e none rest = rest
add_line directory before e (some (child, nested)) rest =
    if shown directory child before then rest else child_file directory e child nested ∷ rest

-- The listing: an entry that shows a child which no entry before it shows gives a line.
unfoldable pub listing : List ℕ → List Entry → List Entry → List RamdiskFile
listing directory before [] = []
listing directory before (e ∷ es) =
    add_line directory before e (child_of_entry directory e)
      (listing directory (before ++ e ∷ []) es)

Shows-NoNul :
    (directory : List ℕ) (e : Entry) (child : List ℕ) (nested : Bool)
    → Shows directory e child nested
    → NoNul child
Shows-NoNul directory e child nested (path, relative, named, under, s, (plain, ends)) =
    let p = tar_path-IsEntryPath e.header path named in
    let full = (Under-fits directory path relative p.full p.normal.short under).0 in
    elim ends [
      | inl (last, is) ↦ subst NoNul is full
      | inr (more, rest, is) ↦ NoNul-front child (47 ∷ rest) (subst NoNul is full)
    ]

-- The code's test finds out whether the entry shows the child.
same_child-HasChild :
    (directory child : List ℕ) (e : Entry)
    → NoNul child
    → same_child child (child_of_entry directory e) ≡ true
    → HasChild directory child e
unfolding same_child
same_child-HasChild directory child e full same = elim (Option-cases (child_of_entry directory e)) [
  | inl nothing ↦ cc (rw (nothing, same_child) at same)
  | inr ((previous, nested), got) ↦
      let shows = child_of_entry-Shows directory e previous nested got in
      let same' = rw (got, same_child) at same in
      let texts : text previous ≡ text child =
        ground (arith, same', same_text_iff previous child) in
      let is : previous ≡ child =
        sym (text_whole previous (Shows-NoNul directory e previous nested shows))
        ∙ texts
        ∙ text_whole child full in
      (nested, subst (λ c. Shows directory e c nested) is shows)
]

HasChild-same_child :
    (directory child : List ℕ) (e : Entry)
    → HasChild directory child e
    → same_child child (child_of_entry directory e) ≡ true
unfolding same_child
HasChild-same_child directory child e (nested, shows) =
    rw (Shows-child_of_entry directory e child nested shows, same_child)
      (ground (arith, same_text_iff child child))

shown-Any :
    (directory child : List ℕ) (before : List Entry)
    → NoNul child
    → shown directory child before ≡ true
    → Any (HasChild directory child) before
shown-Any directory child [] full h = absurd (ground arith)
shown-Any directory child (b ∷ bs) full h =
    elim (Bool-cases (same_child child (child_of_entry directory b))) [
      | inl same ↦ inl (same_child-HasChild directory child b full same)
      | inr other ↦ inr (shown-Any directory child bs full (rw other at h))
    ]

shown-All :
    (directory child : List ℕ) (before : List Entry)
    → shown directory child before ≡ false
    → All (λ b. ¬ HasChild directory child b) before
shown-All directory child [] h = tt
shown-All directory child (b ∷ bs) h =
    elim (Bool-cases (same_child child (child_of_entry directory b))) [
      | inl same ↦ absurd (ground arith)
      | inr other ↦ (
        λ has. cc (HasChild-same_child directory child b has, other),
        shown-All directory child bs (rw other at h),
      )
    ]

pub listing-Lists :
    (directory : List ℕ) (before es : List Entry)
    → Lists directory before es (listing directory before es)
unfolding listing
listing-Lists directory before [] = done
listing-Lists directory before (e ∷ es) =
    let later = listing-Lists directory (before ++ e ∷ []) es in
    elim (Option-cases (child_of_entry directory e)) [
      | inl nothing ↦ rw nothing (
          elsewhere (λ child has. cc (Shows-child_of_entry directory e child has.0 has.1, nothing))
            later)
      | inr ((child, nested), got) ↦
          let shows = child_of_entry-Shows directory e child nested got in
          let full = Shows-NoNul directory e child nested shows in
          elim (Bool-cases (shown directory child before)) [
            | inl old ↦
                rw (got, old)
                  (repeated (nested, shows) (shown-Any directory child before full old) later)
            | inr new ↦ rw (got, new) (fresh shows (shown-All directory child before new) later)
          ]
    ]
