-- ===== src/Ramdisk/Shown.antt =====
-- `child_of_entry`, that is `tar_path` and `child_name_for_directory` of fs/ramdisk.c, finds the child
-- that an entry's path shows.
use xbks.Prelude.{
  ℕ, ◌-◌, ◌≤◌, ◌≡◌, ◌≢◌, refl, inl, inr, Bool, true, false, ◌||◌, ◌==◌, ap, some, some_inj, List,
  [], ◌∷◌, ◌++◌, length, length-append, take, length-take, get_or, leb, Bool-cases, Option-cases,
  arith,
}
use mathlib.Core.Path.{subst}
use xbks.CString.{char_at}
use xbks.CString.Text.{text}
use xbks.Ramdisk.Path.{
  path_size, copy_bytes, component_length, relative_path, child_of_relative,
  child_name_for_directory,
}
use xbks.Ramdisk.Tar.{Entry, tar_path}
use xbks.Ramdisk.Files.{child_of_entry}
use xbks.Ramdisk.Terminated.{NoNul}
use xbks.Ramdisk.Bounds.{tar_path-IsEntryPath}
use xbks.Ramdisk.Prefix.{take-front}
use xbks.Ramdisk.Children.{
  Under, IsFirst, relative_path-Under, Under-relative_path, component-IsFirst,
  component_length-first,
}

-- The entry's path is the directory's, a slash (at the root: nothing), and the child, after which
-- either the path ends or a slash follows.
abbrev pub Shows : List ℕ → Entry → List ℕ → Bool → Type 0
Shows directory e child nested =
    (path relative : List ℕ) × (tar_path e.header ≡ some path)
    × Under directory path relative
    × (child ≢ [])
    × IsFirst relative child nested

NoNul-back : (u v : List ℕ) → NoNul (u ++ v) → NoNul v
NoNul-back [] v h = h
NoNul-back (c ∷ u) v (ne, h) = NoNul-back u v h

pub NoNul-front : (u v : List ℕ) → NoNul (u ++ v) → NoNul u
NoNul-front [] v h = tt
NoNul-front (c ∷ u) v (ne, h) = (ne, NoNul-front u v h)

-- A rest fits where its path does.
pub Under-fits :
    (directory path relative : List ℕ)
    → NoNul path
    → length path ≤ path_size - 1
    → Under directory path relative
    → NoNul relative × (length relative ≤ path_size - 1)
Under-fits directory path relative full short (inl (root, is)) = rw is (full, short)
Under-fits directory path relative full short (inr (some_directory, is)) =
    let full' = rw is at full in
    let whole = NoNul-back (text directory) (47 ∷ relative) full' in
    (whole.1, omega (arith, ap length is, length-append (text directory) (47 ∷ relative), short))

component_length-le : (s : List ℕ) → component_length s ≤ length s
unfolding component_length
component_length-le [] = omega arith
component_length-le (c ∷ s) = ground (arith, component_length-le s)

copy_bytes-short : (s : List ℕ) (n : ℕ) → n ≤ path_size - 1 → copy_bytes [] path_size s n ≡ take n s
unfolding copy_bytes
copy_bytes-short s n h = let e : leb path_size n ≡ false = ground arith in rw e refl

not_empty : (s : List ℕ) (n : ℕ) → n ≢ 0 → n ≤ length s → take n s ≢ []
not_empty s n some_chars h e = absurd (omega (arith, ap length e, length-take n s))

relative-IsFirst :
    (relative child : List ℕ) (nested : Bool)
    → NoNul relative
    → length relative ≤ path_size - 1
    → child_of_relative relative path_size ≡ some (child, nested)
    → (child ≢ []) × IsFirst relative child nested
unfolding child_of_relative
relative-IsFirst relative child nested full short e =
    let n = component_length relative in
    let le = component_length-le relative in
    elim (Bool-cases ((char_at relative == 0) || (n == 0))) [
      | inl nothing ↦ cc (rw nothing at e)
      | inr something ↦
          let copied = copy_bytes-short relative n (omega (arith, le, short)) in
          let pair = some_inj (rw (something, copied) at e) in
          let is : take n relative ≡ child = ap (λ (x : List ℕ × Bool). x.0) pair in
          let is' : (get_or relative n 0 == 47) ≡ nested = ap (λ (x : List ℕ × Bool). x.1) pair in
          (
            subst (λ c. c ≢ []) is (not_empty relative n (ground arith) le),
            subst (λ c. IsFirst relative c nested) is
                (subst (IsFirst relative (take n relative)) is' (component-IsFirst relative full)),
          )
    ]

pub child_of_entry-Shows :
    (directory : List ℕ) (e : Entry) (child : List ℕ) (nested : Bool)
    → child_of_entry directory e ≡ some (child, nested)
    → Shows directory e child nested
unfolding child_of_entry child_name_for_directory
child_of_entry-Shows directory e child nested got = elim (Option-cases (tar_path e.header)) [
  | inl unnamed ↦ cc (rw (unnamed, child_of_entry) at got)
  | inr (path, named) ↦
      let p = tar_path-IsEntryPath e.header path named in
      elim (Option-cases (relative_path path directory)) [
        | inl apart ↦ cc (rw (named, child_of_entry, child_name_for_directory, apart) at got)
        | inr (relative, below) ↦
            let under = relative_path-Under path directory relative p.full below in
            let (full, short) = Under-fits directory path relative p.full p.normal.short under in
            let first =
              relative-IsFirst relative child nested full short
                (rw (named, child_of_entry, child_name_for_directory, below) at got) in
            (path, relative, named, under, first.0, first.1)
      ]
]

child_of_relative_lem :
    (relative child : List ℕ) (nested : Bool) (n : ℕ)
    → component_length relative ≡ n
    → char_at relative ≢ 0
    → n ≢ 0
    → n ≤ path_size - 1
    → take n relative ≡ child
    → (get_or relative n 0 == 47) ≡ nested
    → child_of_relative relative path_size ≡ some (child, nested)
unfolding child_of_relative
child_of_relative_lem relative child nested n e full filled short is ends =
    let something : ((char_at relative == 0) || (n == 0)) ≡ false = ground arith in
    rw (e, child_of_relative, something, copy_bytes-short relative n short, is, ends) refl

first-relative :
    (relative child : List ℕ) (nested : Bool)
    → NoNul relative
    → length relative ≤ path_size - 1
    → child ≢ []
    → IsFirst relative child nested
    → child_of_relative relative path_size ≡ some (child, nested)
first-relative relative [] nested full short some_child first = absurd (some_child refl)
first-relative relative (c ∷ child) nested full short some_child (plain, inl (last, is)) =
    let full' = rw is at full in
    let (a, b, x, y, z) = component_length-first (c ∷ child) [] full' plain in
    rw (is, last)
      (child_of_relative_lem (c ∷ child) (c ∷ child) false (length (c ∷ child)) a full'.0
        (omega arith) (omega (arith, short, ap length is)) z (rw x refl))
first-relative relative (c ∷ child) nested full short some_child (plain, inr (more, rest, is)) =
    let full' = rw is at full in
    let (a, b, x, y, z) =
      component_length-first (c ∷ child) rest (NoNul-front (c ∷ child) (47 ∷ rest) full') plain in
    rw (is, more)
      (child_of_relative_lem ((c ∷ child) ++ 47 ∷ rest) (c ∷ child) true (length (c ∷ child)) b
        full'.0 (omega arith)
        (omega (arith, short, ap length is, length-append (c ∷ child) (47 ∷ rest)))
        (take-front (c ∷ child) (47 ∷ rest)) (rw y refl))

pub Shows-child_of_entry :
    (directory : List ℕ) (e : Entry) (child : List ℕ) (nested : Bool)
    → Shows directory e child nested
    → child_of_entry directory e ≡ some (child, nested)
unfolding child_of_entry child_name_for_directory
Shows-child_of_entry directory e child nested (path, relative, named, under, some_child, first) =
    let p = tar_path-IsEntryPath e.header path named in
    let (full, short) = Under-fits directory path relative p.full p.normal.short under in
    rw
      (
        named,
        child_of_entry,
        child_name_for_directory,
        Under-relative_path path directory relative p.full under,
      )
      (first-relative relative child nested full short some_child first)
