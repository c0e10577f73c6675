-- ===== src/Ramdisk/Bounds.antt =====
-- Where the files of fs/ramdisk.c lie in the archive, and what their entries' paths look like.
use xbks.Prelude.{
  ℕ, zero, suc, ◌+◌, ◌≤◌, ◌≡◌, refl, inl, inr, Bool, true, false, ◌||◌, Bool-cases, Option-cases,
  none, some, List, [], ◌∷◌, ◌++◌, ltb, ◌==◌, take, arith,
}
use xbks.CString.{char_at, strlen, strcmp, is_zero}
use xbks.Ramdisk.Path.{path_size, bounded_strlen, copy_bytes, normalize_path}
use xbks.Ramdisk.Tar.{
  Ramdisk, TarHeader, RamdiskFile, Entry, prefix_part, combined_path, tar_path, header_is_directory,
  fill_file, entry_at, next_offset,
}
use xbks.Ramdisk.Files.{
  Found, found, missing, is_directory_prefix, find_header, rounds, child_of_entry,
  child_seen_before, child_file, read_dir_loop, read_dir, find, file_of_found, directory_file,
}
use xbks.Ramdisk.Members.{IsValid, entry_at-Within}
use xbks.Ramdisk.Terminated.{NoNul, strlen-NoNul, normalize_path-NoNul}
use xbks.Ramdisk.Normal.{IsNormal, normalize_path-IsNormal}

-- The file's bytes lie inside the archive.
abbrev pub InArchive : Ramdisk → RamdiskFile → Type 0
InArchive r f = elim f.contents [ none ↦ Unit {0} | some at ↦ at + f.size ≤ r.size ]

find_header-InArchive :
    (fuel : ℕ) (r : Ramdisk) (query : List ℕ) (offset : ℕ) (d : Bool) (f : RamdiskFile)
    → IsValid r
    → offset ≤ r.size + 511
    → find_header fuel r query offset d ≡ found f
    → InArchive r f
unfolding find_header fill_file
find_header-InArchive zero r query offset d f v h got = absurd (ground arith)
find_header-InArchive (suc fuel) r query offset d f v h got =
    elim (Option-cases (entry_at r offset)) [
      | inl ends ↦ absurd (ground arith)
      | inr (e, at) ↦
          let w = entry_at-Within r offset e v (omega arith) at in
          elim (Option-cases (tar_path e.header)) [
            | inl unnamed ↦
                find_header-InArchive fuel r query (next_offset e) d f v w.end (ground arith)
            | inr (path, named) ↦ elim (Bool-cases (is_zero (strcmp path query))) [
              | inl same ↦
                  let is : f ≡ fill_file e.header path e.data_offset e.file_size = ground arith in
                  rw is w.fits
              | inr other ↦
                  find_header-InArchive fuel r query (next_offset e)
                    (d || is_directory_prefix path query) f v w.end (ground arith)
            ]
          ]
    ]

child_file-InArchive :
    (r : Ramdisk) (directory : List ℕ) (e : Entry) (child : List ℕ) (nested : Bool)
    → e.data_offset + e.file_size ≤ r.size
    → InArchive r (child_file directory e child nested)
unfolding child_file
child_file-InArchive r directory e child true h = tt
child_file-InArchive r directory e child false h = h

of_some : (r : Ramdisk) (g f : RamdiskFile) → InArchive r g → some g ≡ some f → InArchive r f
of_some r g f h e = let e' : f ≡ g = cc in rw e' h

file_of_found-InArchive :
    (r : Ramdisk) (normalized : List ℕ) (x : Found) (f : RamdiskFile)
    → ((g : RamdiskFile) → x ≡ found g → InArchive r g)
    → file_of_found normalized x ≡ some f
    → InArchive r f
unfolding file_of_found
file_of_found-InArchive r normalized (found g) f h e = of_some r g f (h g refl) e
file_of_found-InArchive r normalized (missing true) f h e =
    of_some r (directory_file normalized) f tt e
file_of_found-InArchive r normalized (missing false) f h e = absurd (ground arith)

-- In an archive of at most 2^63 bytes, the bytes of every file that find returns lie inside the
-- archive.
pub find-InArchive :
    (r : Ramdisk) (path : List ℕ) (f : RamdiskFile)
    → IsValid r
    → find r path ≡ some f
    → InArchive r f
unfolding find
find-InArchive r path f v got = elim (Bool-cases r.available) [
  | inr off ↦ absurd (ground arith)
  | inl on ↦ elim (Bool-cases (char_at (normalize_path path [] path_size) == 0)) [
    | inl root ↦ of_some r (directory_file (normalize_path path [] path_size)) f tt (ground arith)
    | inr inner ↦
        file_of_found-InArchive r (normalize_path path [] path_size) _ f
          (λ g e.
            find_header-InArchive (rounds r) r (normalize_path path [] path_size) 0 false g v
              (omega arith) e)
          (ground arith)
  ]
]

read_dir_loop-InArchive :
    (fuel : ℕ) (r : Ramdisk) (directory : List ℕ) (index offset current : ℕ) (f : RamdiskFile)
    → IsValid r
    → offset ≤ r.size + 511
    → read_dir_loop fuel r directory index offset current ≡ some f
    → InArchive r f
unfolding read_dir_loop
read_dir_loop-InArchive zero r directory index offset current f v h got = absurd (ground arith)
read_dir_loop-InArchive (suc fuel) r directory index offset current f v h got =
    elim (Option-cases (entry_at r offset)) [
      | inl ends ↦ absurd (ground arith)
      | inr (e, at) ↦
          let w = entry_at-Within r offset e v (omega arith) at in
          let later =
            λ (c : ℕ). read_dir_loop-InArchive fuel r directory index (next_offset e) c f v w.end in
          elim (Option-cases (child_of_entry directory e)) [
            | inl elsewhere ↦ later current (ground arith)
            | inr ((child, nested), is_child) ↦
                elim (Bool-cases (child_seen_before (rounds r) r directory child offset 0)) [
                  | inl seen ↦ later current (ground arith)
                  | inr new ↦ elim (Bool-cases (current == index)) [
                    | inl here ↦
                        of_some r (child_file directory e child nested) f
                          (child_file-InArchive r directory e child nested w.fits) (ground arith)
                    | inr not_yet ↦ later (current + 1) (ground arith)
                  ]
                ]
          ]
    ]

-- In an archive of at most 2^63 bytes, the bytes of every file that read_dir returns lie inside
-- the archive.
pub read_dir-InArchive :
    (r : Ramdisk) (path : List ℕ) (index : ℕ) (f : RamdiskFile)
    → IsValid r
    → read_dir r path index ≡ some f
    → InArchive r f
unfolding read_dir
read_dir-InArchive r path index f v got = elim (Bool-cases r.available) [
  | inr off ↦ absurd (ground arith)
  | inl on ↦
      read_dir_loop-InArchive (rounds r) r (normalize_path path [] path_size) index 0 0 f v
        (omega arith) (ground arith)
]

-- The path of every entry is in normal form, not empty, and ends at its first NUL.
pub record IsEntryPath (p : List ℕ) : Type 0 where
  pub normal : IsNormal p
  pub full : NoNul p
  pub inner : (char_at p == 0) ≡ false

take_bounded : (s : List ℕ) (limit k : ℕ) → k ≤ bounded_strlen s limit → NoNul (take k s)
unfolding bounded_strlen
take_bounded s limit zero h = tt
take_bounded [] limit (suc k) h = tt
take_bounded (c ∷ s) zero (suc k) h = absurd (omega arith)
take_bounded (c ∷ s) (suc limit) (suc k) h = elim (Bool-cases (c == 0)) [
  | inl nul ↦ absurd (ground arith)
  | inr char ↦ (ground arith, take_bounded s limit k (ground arith))
]

bounded-NoNul :
    (s : List ℕ) (limit capacity : ℕ) → NoNul (copy_bytes [] capacity s (bounded_strlen s limit))
unfolding copy_bytes
bounded-NoNul s limit capacity = elim (Bool-cases (capacity == 0)) [
  | inl nothing ↦ rw nothing tt
  | inr room ↦ rw room (take_bounded s limit _ (ground arith))
]

append-NoNul : (s t : List ℕ) → NoNul s → NoNul t → NoNul (s ++ t)
append-NoNul [] t h k = k
append-NoNul (c ∷ s) t (ne, h) k = (ne, append-NoNul s t h k)

prefix_part-NoNul : (s : List ℕ) → NoNul (prefix_part s)
unfolding prefix_part
prefix_part-NoNul s = elim (Bool-cases (bounded_strlen s 155 == 0)) [
  | inl nothing ↦ rw nothing tt
  | inr some_chars ↦
      rw some_chars
        (elim (Bool-cases
          (ltb (strlen (copy_bytes [] path_size s (bounded_strlen s 155)) + 1) path_size)) [
            | inl room ↦ rw room (append-NoNul _ _ (bounded-NoNul s 155 path_size) (omega arith))
            | inr full ↦ rw full (bounded-NoNul s 155 path_size)
          ])
]

combined_path-NoNul : (h : TarHeader) → NoNul (combined_path h)
unfolding combined_path
combined_path-NoNul h = append-NoNul _ _ (prefix_part-NoNul h.prefix) (bounded-NoNul h.name 100 _)

-- The path that tar_path gives for a header is in normal form, has no NUL in it and is not empty.
pub tar_path-IsEntryPath : (h : TarHeader) (p : List ℕ) → tar_path h ≡ some p → IsEntryPath p
unfolding tar_path
tar_path-IsEntryPath h p got =
    let is : p ≡ normalize_path (combined_path h) [] path_size = ground arith in
    record {
      normal = rw is (normalize_path-IsNormal (combined_path h));
      full = rw is (normalize_path-NoNul (combined_path h) (combined_path-NoNul h));
      inner = ground arith;
    }

-- For the path that tar_path gives for a header, header_is_directory is true exactly if the type
-- flag is 5: the test for a slash at the path's end never holds.
pub header_is_directory_lem :
    (h : TarHeader) (p : List ℕ)
    → tar_path h ≡ some p
    → header_is_directory h p ≡ (h.typeflag == b'5')
unfolding header_is_directory
header_is_directory_lem h p got =
    let is = tar_path-IsEntryPath h p got in
    ground (arith, strlen-NoNul p is.full, is.normal.no_trailing_slash)
