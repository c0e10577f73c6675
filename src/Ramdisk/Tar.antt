-- ===== src/Ramdisk/Tar.antt =====
-- The archive of fs/ramdisk.c: its headers, their fields, and the step from one entry to the next.
use Prim.Native.Nat.{bit_and}
use xbks.Prelude.{
  ℕ, zero, suc, ◌+◌, ◌-◌, ◌*◌, ◌%◌, ◌^◌, Bool, true, false, not, ◌&&◌, ◌||◌, Option, none, some,
  List, [], ◌∷◌, ◌++◌, ltb, ◌==◌, if◌then◌else◌, length, get_or,
}
use xbks.CString.{char_at, strlen}
use xbks.Ramdisk.Path.{path_size, bounded_strlen, copy_bytes, normalize_path, make_public_path}

abbrev pub tar_block_size : ℕ
tar_block_size = 512

abbrev pub size_mod : ℕ
size_mod = 2 ^ 64

-- `ramdisk_data` gives the archive's bytes by their offset.
pub record Ramdisk : Type 0 where
  pub bytes : ℕ → ℕ
  pub size : ℕ
  pub available : Bool

-- The fields of `struct tar_header` that are read.
pub record TarHeader : Type 0 where
  pub name : List ℕ
  pub mode : List ℕ
  pub size : List ℕ
  pub typeflag : ℕ
  pub prefix : List ℕ

-- `data` is an offset into the archive, or the null pointer.
pub record RamdiskFile : Type 0 where
  pub path : List ℕ
  pub contents : Option ℕ
  pub size : ℕ
  pub directory : Bool
  pub executable : Bool

abbrev pub slice : (ℕ → ℕ) → ℕ → ℕ → List ℕ
slice bytes from zero = []
slice bytes from (suc n) = bytes from ∷ slice bytes (from + 1) n

unfoldable pub header_at : (ℕ → ℕ) → ℕ → TarHeader
header_at bytes offset = record {
  name = slice bytes offset 100;
  mode = slice bytes (offset + 100) 8;
  size = slice bytes (offset + 124) 12;
  typeflag = bytes (offset + 156);
  prefix = slice bytes (offset + 345) 155;
}

unfoldable pub zero_bytes : (ℕ → ℕ) → ℕ → ℕ → Bool
zero_bytes bytes from zero = true
zero_bytes bytes from (suc n) =
    let rest = zero_bytes bytes (from + 1) n in if not (bytes from == 0) then false else rest

unfoldable pub block_is_zero : (ℕ → ℕ) → ℕ → Bool
unfolding zero_bytes
block_is_zero bytes offset = zero_bytes bytes offset tar_block_size

unfoldable pub skip_blanks : List ℕ → List ℕ
skip_blanks [] = []
skip_blanks (c ∷ s) = if (c == b' ') || (c == 0) then skip_blanks s else c ∷ s

unfoldable pub octal_digits : List ℕ → ℕ → ℕ
octal_digits [] value = value
octal_digits (c ∷ s) value =
    let rest = octal_digits s ((value * 8 + (c - b'0')) % size_mod) in
    if ltb c b'0' || ltb b'7' c then value else rest

-- A whole field of the header.
unfoldable pub parse_octal : List ℕ → ℕ
unfolding skip_blanks octal_digits
parse_octal s = octal_digits (skip_blanks s) 0

unfoldable pub align_to_tar_block : ℕ → ℕ
align_to_tar_block value =
    bit_and ((value + (tar_block_size - 1)) % size_mod) (size_mod - tar_block_size)

-- The prefix, and its slash if there is room.
unfoldable pub prefix_part : List ℕ → List ℕ
prefix_part prefix =
    let copied = copy_bytes [] path_size prefix (bounded_strlen prefix 155) in
    if not (bounded_strlen prefix 155 == 0)
    then if ltb (strlen copied + 1) path_size then copied ++ b'/' ∷ [] else copied
    else []

-- The prefix and the name, before they are normalised.
unfoldable pub combined_path : TarHeader → List ℕ
combined_path header =
    let start = prefix_part header.prefix in
    start ++ copy_bytes [] (path_size - length start) header.name (bounded_strlen header.name 100)

-- `none` where the function returns false.
unfoldable pub tar_path : TarHeader → Option (List ℕ)
tar_path header =
    if bounded_strlen header.name 100 == 0
    then none
    else let out = normalize_path (combined_path header) [] path_size in
      if char_at out == 0 then none else some out

unfoldable pub header_is_directory : TarHeader → List ℕ → Bool
header_is_directory header normalized_path =
    if header.typeflag == b'5'
    then true
    else not (strlen normalized_path == 0)
      && (get_or normalized_path (strlen normalized_path - 1) 0 == b'/')

-- `(mode & 0111) != 0`
unfoldable pub is_executable : TarHeader → Bool
unfolding parse_octal
is_executable header = not (bit_and (parse_octal header.mode) 0o111 == 0)

unfoldable pub fill_file : TarHeader → List ℕ → ℕ → ℕ → RamdiskFile
fill_file header normalized_path contents size = record {
  path = make_public_path normalized_path [] path_size;
  contents = some contents;
  size = size;
  directory = header_is_directory header normalized_path;
  executable = is_executable header;
}

-- An entry that the loops accept at an offset.
pub record Entry : Type 0 where
  pub header : TarHeader
  pub offset : ℕ
  pub data_offset : ℕ
  pub file_size : ℕ

-- The tests with which each of the three loops begins a round; `none` ends the loop.
unfoldable pub entry_at : Ramdisk → ℕ → Option Entry
entry_at r offset =
    let header = header_at r.bytes offset in
    let file_size = parse_octal header.size in
    let data_offset = (offset + tar_block_size) % size_mod in
    if ltb r.size data_offset || block_is_zero r.bytes offset
    then none
    else if ltb r.size data_offset || ltb (r.size - data_offset) file_size
    then none
    else some (record {
      header = header;
      offset = offset;
      data_offset = data_offset;
      file_size = file_size;
    })

unfoldable pub next_offset : Entry → ℕ
next_offset e = (e.data_offset + align_to_tar_block e.file_size) % size_mod
