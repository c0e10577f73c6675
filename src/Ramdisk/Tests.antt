-- ===== src/Ramdisk/Tests.antt =====
-- Concrete runs of the theorems on fs/ramdisk.c, on an archive with one file `a/b`.
use xbks.Prelude.{
  Any, ◌↔◌, ℕ, ◌≡◌, ◌≢◌, ◌<◌, ap, sym, ◌∙◌, refl, inl, true, false, none, some, some_inj, List, [],
  ◌∷◌, ◌++◌, replicate, get_or, get_elem?, ◌==◌, arith,
}
use xbks.CString.{codes, char_at}
use xbks.CString.Text.{text}
use xbks.Ramdisk.Path.{path_size, normalize_path, make_public_path}
use xbks.Ramdisk.Tar.{
  Ramdisk, TarHeader, RamdiskFile, Entry, tar_path, fill_file, header_at, header_is_directory,
  entry_at, next_offset,
}
use xbks.Ramdisk.Files.{rounds, directory_file, find, read_dir}
use xbks.Ramdisk.Members.{Members, stop, next, IsValid, Members-total, length-lt-rounds}
use xbks.Ramdisk.Below.{Below}
use xbks.Ramdisk.Find.{Names, find-first, find_implied_directory, find_absent}
use xbks.Ramdisk.Listing.{listing, Lists}
use xbks.Ramdisk.ReadDir.{read_dir-listing, read_dir-nth}
use xbks.Ramdisk.Bounds.{
  InArchive, find-InArchive, read_dir-InArchive, IsEntryPath, tar_path-IsEntryPath,
  header_is_directory_lem,
}
use xbks.Ramdisk.Normal.{IsNormal, normalize_path-IsNormal, normalize_path-make_public_path}

abbrev zeros : ℕ → List ℕ
zeros n = replicate n 0

-- The bytes of the header: its name, mode, size, type and no prefix.
abbrev header_bytes : List ℕ
header_bytes =
    codes "a/b"
    ++ zeros 97
    ++ codes "0000755"
    ++ zeros 17
    ++ codes "00000000003"
    ++ zeros 21
    ++ codes "0"
    ++ zeros 355
    ++ codes "xyz"

abbrev archive : Ramdisk
archive = record { bytes = λ a. get_or header_bytes a 0; size = 1536; available = true }

abbrev entry : Entry
entry = record { header = header_at archive.bytes 0; offset = 0; data_offset = 512; file_size = 3 }

archive-IsValid : IsValid archive
archive-IsValid = record { small = omega arith }

first_entry : entry_at archive 0 ≡ some entry
unfolding entry_at xbks.Ramdisk.Tar.block_is_zero xbks.Ramdisk.Tar.parse_octal header_at
first_entry = refl

no_more : entry_at archive (next_offset entry) ≡ none
unfolding entry_at next_offset xbks.Ramdisk.Tar.align_to_tar_block xbks.Ramdisk.Tar.block_is_zero
no_more = refl

archive-Members : Members archive 0 (entry ∷ [])
archive-Members = next first_entry (stop no_more)

entry_path : tar_path entry.header ≡ some (codes "a/b")
unfolding tar_path xbks.Ramdisk.Path.bounded_strlen header_at normalize_path
    xbks.Ramdisk.Path.trim_slashes xbks.Ramdisk.Path.skip_prefix xbks.Ramdisk.Path.skip_dots
    xbks.Ramdisk.Path.skip_slashes xbks.Ramdisk.Tar.combined_path xbks.Ramdisk.Tar.prefix_part
    xbks.Ramdisk.Path.copy_bytes
entry_path = refl

query_file : normalize_path (codes "/a/b") [] path_size ≡ codes "a/b"
unfolding normalize_path xbks.Ramdisk.Path.trim_slashes xbks.Ramdisk.Path.skip_prefix
    xbks.Ramdisk.Path.skip_dots xbks.Ramdisk.Path.skip_slashes
query_file = refl

query_directory : normalize_path (codes "./a") [] path_size ≡ codes "a"
unfolding normalize_path xbks.Ramdisk.Path.trim_slashes xbks.Ramdisk.Path.skip_prefix
    xbks.Ramdisk.Path.skip_dots xbks.Ramdisk.Path.skip_slashes
query_directory = refl

query_other : normalize_path (codes "c") [] path_size ≡ codes "c"
unfolding normalize_path xbks.Ramdisk.Path.trim_slashes xbks.Ramdisk.Path.skip_prefix
    xbks.Ramdisk.Path.skip_dots xbks.Ramdisk.Path.skip_slashes
query_other = refl

same_path : (p : List ℕ) → tar_path entry.header ≡ some p → codes "a/b" ≡ p
same_path p is = some_inj (sym entry_path ∙ is)

not_named : (query : List ℕ) → text (codes "a/b") ≢ text query → ¬ Names query entry
not_named query differ (p, is, t) = differ (ap text (same_path p is) ∙ t)

find-first_example : find archive (codes "/a/b") ≡ some (fill_file entry.header (codes "a/b") 512 3)
find-first_example =
    find-first archive (codes "/a/b") (entry ∷ []) archive-IsValid refl archive-Members
      (rw query_file (ground arith)) [] [] entry (codes "a/b") refl tt entry_path
      (sym (ap text query_file))

directory_differs : text (codes "a/b") ≢ text (codes "a")
unfolding text
directory_differs e = cc (e)

other_differs : text (codes "a/b") ≢ text (codes "c")
unfolding text
other_differs e = cc (e)

lies_below : text (codes "a/b") ≡ text (codes "a") ++ 47 ∷ codes "b"
unfolding text
lies_below = refl

some_text : text (codes "a") ≢ []
unfolding text
some_text e = cc e

lies_apart : (rest : List ℕ) → text (codes "a/b") ≢ text (codes "c") ++ 47 ∷ rest
unfolding text
lies_apart rest e =
    let letter : 97 ≡ 99 = ap (λ t. get_or t 0 0) e in absurd (omega (arith, letter))

find_implied_directory_example :
    Any (Below (normalize_path (codes "./a") [] path_size)) (entry ∷ []) ↔ (
      find archive (codes "./a")
      ≡ some (directory_file (normalize_path (codes "./a") [] path_size)))
find_implied_directory_example =
    find_implied_directory archive (codes "./a") (entry ∷ []) archive-IsValid refl archive-Members
      (rw query_directory (ground arith))
      (rw query_directory (not_named (codes "a") directory_differs), tt)

-- The entry `a/b` lies below `a`.
implies_directory :
    find archive (codes "./a") ≡ some (directory_file (normalize_path (codes "./a") [] path_size))
implies_directory =
    (find_implied_directory archive (codes "./a") (entry ∷ []) archive-IsValid refl archive-Members
        (rw query_directory (ground arith))
        (rw query_directory (not_named (codes "a") directory_differs), tt)).0
      (inl (
        codes "a/b",
        codes "b",
        entry_path,
        rw query_directory some_text,
        rw query_directory lies_below,
      ))

find_absent_example : find archive (codes "c") ≡ none
find_absent_example =
    find_absent archive (codes "c") (entry ∷ []) archive-IsValid refl archive-Members
      (rw query_other (ground arith)) (rw query_other (not_named (codes "c") other_differs), tt)
      ((λ x. not_below x), tt)
  where
    not_below : ¬ Below (normalize_path (codes "c") [] path_size) entry
    not_below (p, rest, is, filled, t) =
        lies_apart rest (rw (query_other, sym (same_path p is)) at t)

read_dir-nth_example :
    (lines : List RamdiskFile) × Lists
      (normalize_path (codes "/a") [] path_size)
      []
      (entry ∷ [])
      lines
    × ((index : ℕ) → read_dir archive (codes "/a") index ≡ get_elem? lines index)
read_dir-nth_example = read_dir-nth archive (codes "/a") archive-IsValid refl archive-Members

find-InArchive_example : InArchive archive (fill_file entry.header (codes "a/b") 512 3)
find-InArchive_example =
    find-InArchive archive (codes "/a/b") (fill_file entry.header (codes "a/b") 512 3)
      archive-IsValid
      (find-first archive (codes "/a/b") (entry ∷ []) archive-IsValid refl archive-Members
        (rw query_file (ground arith)) [] [] entry (codes "a/b") refl tt entry_path
        (sym (ap text query_file)))

Members-total_example : (es : List Entry) × Members archive 0 es
Members-total_example = Members-total archive archive-IsValid

length-lt-rounds_example : 1 < rounds archive
length-lt-rounds_example = length-lt-rounds archive-IsValid archive-Members

tar_path-IsEntryPath_example : IsEntryPath (codes "a/b")
tar_path-IsEntryPath_example = tar_path-IsEntryPath entry.header (codes "a/b") entry_path

header_is_directory_lem_example :
    header_is_directory entry.header (codes "a/b") ≡ (entry.header.typeflag == b'5')
header_is_directory_lem_example = header_is_directory_lem entry.header (codes "a/b") entry_path

normalize_path-IsNormal_example : IsNormal (normalize_path (codes "/./a//") [] path_size)
normalize_path-IsNormal_example = normalize_path-IsNormal (codes "/./a//")

normalize_path-make_public_path_example :
    normalize_path (make_public_path (codes "a/b") [] path_size) [] path_size ≡ codes "a/b"
normalize_path-make_public_path_example =
    normalize_path-make_public_path (codes "a/b")
      (record {
        short = omega arith;
        no_leading_slash = refl;
        no_leading_dot = refl;
        no_trailing_slash = refl;
      })
      (ground arith, (ground arith, (ground arith, tt))) (omega arith)

query_a : normalize_path (codes "/a") [] path_size ≡ codes "a"
unfolding normalize_path xbks.Ramdisk.Path.trim_slashes xbks.Ramdisk.Path.skip_prefix
    xbks.Ramdisk.Path.skip_dots xbks.Ramdisk.Path.skip_slashes
query_a = refl

-- The child `b` of the directory `a`.
abbrev child_b : RamdiskFile
child_b = xbks.Ramdisk.Files.child_file (codes "a") entry (codes "b") false

name_b :
    xbks.Ramdisk.Path.child_name_for_directory (codes "a/b") (codes "a") path_size
    ≡ some (codes "b", false)
unfolding xbks.Ramdisk.Path.child_name_for_directory xbks.Ramdisk.Path.relative_path
    xbks.Ramdisk.Path.child_of_relative xbks.Ramdisk.Path.component_length
    xbks.Ramdisk.Path.copy_bytes xbks.CString.strlen xbks.CString.strncmp
name_b = refl

shows_b : xbks.Ramdisk.Files.child_of_entry (codes "a") entry ≡ some (codes "b", false)
unfolding xbks.Ramdisk.Files.child_of_entry
shows_b = rw (entry_path, xbks.Ramdisk.Files.child_of_entry) name_b

listed : get_elem? (listing (codes "a") [] (entry ∷ [])) 0 ≡ some child_b
unfolding listing
listed = rw shows_b refl

read_dir-InArchive_example : InArchive archive child_b
read_dir-InArchive_example = read_dir-InArchive archive (codes "/a") 0 child_b archive-IsValid (
    read_dir-listing archive (codes "/a") 0 archive-IsValid refl archive-Members
    ∙ rw query_a listed)
