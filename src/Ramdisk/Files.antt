-- ===== src/Ramdisk/Files.antt =====
-- The exported functions of fs/ramdisk.c and the loops over the archive's entries. A loop runs on
-- fuel; every entry takes a block, so one round more than the archive has blocks is enough.
use xbks.Prelude.{
  ℕ, zero, suc, ◌+◌, ◌-◌, ◌/◌, Bool, true, false, not, ◌&&◌, ◌||◌, Option, none, some, List, [],
  ◌∷◌, ◌++◌, ltb, ◌==◌, if◌then◌else◌, get_or,
}
use xbks.CString.{codes, char_at, strlen, strcmp, strncmp, is_zero}
use xbks.Ramdisk.Path.{
  path_size, copy_bytes, string_ends_with, normalize_path, make_public_path,
  child_name_for_directory,
}
use xbks.Ramdisk.Tar.{
  Ramdisk, RamdiskFile, Entry, tar_block_size, tar_path, fill_file, header_is_directory,
  is_executable, entry_at, next_offset,
}

abbrev pub rounds : Ramdisk → ℕ
rounds r = r.size / tar_block_size + 1

-- What `find_header` leaves: the file, or whether the path is a prefix of some entry's.
pub data Found : Type 0 where
  found : RamdiskFile → Found
  missing : Bool → Found

-- The test on an entry's path that sets `directory_prefix`.
unfoldable pub is_directory_prefix : List ℕ → List ℕ → Bool
is_directory_prefix path query =
    not (strlen query == 0)
    && is_zero (strncmp (strlen query) path query)
    && (get_or path (strlen query) 0 == b'/')

unfoldable pub find_header : ℕ → Ramdisk → List ℕ → ℕ → Bool → Found
find_header zero r query offset directory_prefix = missing directory_prefix
find_header (suc fuel) r query offset directory_prefix = elim (entry_at r offset) [
  | none ↦ missing directory_prefix
  | some e ↦ elim (tar_path e.header) [
    | none ↦ find_header fuel r query (next_offset e) directory_prefix
    | some path ↦
        let rest =
          find_header fuel r query (next_offset e)
            (directory_prefix || is_directory_prefix path query) in
        if is_zero (strcmp path query)
        then found (fill_file e.header path e.data_offset e.file_size)
        else rest
  ]
]

abbrev pub directory_file : List ℕ → RamdiskFile
directory_file normalized = record {
  path = make_public_path normalized [] path_size;
  contents = none;
  size = 0;
  directory = true;
  executable = false;
}

unfoldable pub file_of_found : List ℕ → Found → Option RamdiskFile
file_of_found normalized (found f) = some f
file_of_found normalized (missing directory_prefix) =
    if directory_prefix then some (directory_file normalized) else none

-- `xbks_ramdisk_find` with neither pointer null.
unfoldable pub find : Ramdisk → List ℕ → Option RamdiskFile
find r path =
    let normalized = normalize_path path [] path_size in
    if not r.available
    then none
    else if char_at normalized == 0
    then some (directory_file normalized)
    else file_of_found normalized (find_header (rounds r) r normalized 0 false)

-- `tar_path(...) && child_name_for_directory(...)`: the child of the directory that the entry shows.
unfoldable pub child_of_entry : List ℕ → Entry → Option (List ℕ × Bool)
child_of_entry directory e = elim (tar_path e.header) [
  | none ↦ none
  | some path ↦ child_name_for_directory path directory path_size
]

unfoldable pub same_child : List ℕ → Option (List ℕ × Bool) → Bool
same_child child none = false
same_child child (some (previous, nested)) = is_zero (strcmp previous child)

-- Whether an entry before `current_offset` shows the same child.
unfoldable pub child_seen_before : ℕ → Ramdisk → List ℕ → List ℕ → ℕ → ℕ → Bool
child_seen_before zero r directory child current_offset offset = false
child_seen_before (suc fuel) r directory child current_offset offset =
    let rest : Bool = elim (entry_at r offset) [
      | none ↦ false
      | some e ↦
          let later = child_seen_before fuel r directory child current_offset (next_offset e) in
          if same_child child (child_of_entry directory e) then true else later
    ] in
    if ltb offset current_offset then rest else false

-- The path of a child below a normalised directory, in a buffer of `path_size`.
unfoldable pub child_path : List ℕ → List ℕ → List ℕ
child_path normalized child =
    if char_at normalized == 0
    then copy_bytes [] path_size child (strlen child)
    else let copied = copy_bytes [] path_size normalized (strlen normalized) in
      let start = if ltb (strlen copied + 1) path_size then copied ++ b'/' ∷ [] else copied in
      start ++ copy_bytes [] (path_size - strlen start) child (strlen child)

-- The text in `entry_path` after `tar_path` has returned true.
abbrev pub path_of_entry : Entry → List ℕ
path_of_entry e = elim (tar_path e.header) [ none ↦ [] | some path ↦ path ]

unfoldable pub child_file : List ℕ → Entry → List ℕ → Bool → RamdiskFile
child_file normalized e child nested =
    let directory = nested || header_is_directory e.header (path_of_entry e) in
    record {
      path = make_public_path (child_path normalized child) [] path_size;
      contents = if nested then none else some e.data_offset;
      size = if nested then 0 else e.file_size;
      directory = directory;
      executable = not directory && is_executable e.header;
    }

unfoldable pub read_dir_loop : ℕ → Ramdisk → List ℕ → ℕ → ℕ → ℕ → Option RamdiskFile
read_dir_loop zero r normalized index offset current_index = none
read_dir_loop (suc fuel) r normalized index offset current_index = elim (entry_at r offset) [
  | none ↦ none
  | some e ↦ elim (child_of_entry normalized e) [
    | none ↦ read_dir_loop fuel r normalized index (next_offset e) current_index
    | some (child, nested) ↦
        let seen = child_seen_before (rounds r) r normalized child offset 0 in
        let rest =
          read_dir_loop fuel r normalized index (next_offset e)
            (if seen then current_index else current_index + 1) in
        if not seen && (current_index == index)
        then some (child_file normalized e child nested)
        else rest
  ]
]

-- `xbks_ramdisk_read_dir` with neither pointer null.
unfoldable pub read_dir : Ramdisk → List ℕ → ℕ → Option RamdiskFile
read_dir r path index =
    if not r.available
    then none
    else read_dir_loop (rounds r) r (normalize_path path [] path_size) index 0 0

-- A boot module; each pointer may be null.
pub record LimineFile : Type 0 where
  pub address : Option (ℕ → ℕ)
  pub size : ℕ
  pub string : Option (List ℕ)
  pub path : Option (List ℕ)

abbrev pub string_or_empty : Option (List ℕ) → List ℕ
string_or_empty none = []
string_or_empty (some s) = s

abbrev pub no_ramdisk : Ramdisk
no_ramdisk = record { bytes = λ a. 0; size = 0; available = false }

-- The archive in a module, unless the module, its address or its size is null.
unfoldable pub load_module : Option LimineFile → Option Ramdisk
load_module none = none
load_module (some m) = elim m.address [
  | none ↦ none
  | some bytes ↦
      if m.size == 0 then none else some (record { bytes = bytes; size = m.size; available = true })
]

-- `strcmp(module_string, "ramdisk") == 0`, or the path ends as the archive's does.
unfoldable pub is_ramdisk_module : Option LimineFile → Bool
is_ramdisk_module none = false
is_ramdisk_module (some m) =
    is_zero (strcmp (string_or_empty m.string) (codes "ramdisk"))
    || string_ends_with (string_or_empty m.path) (codes "/ramdisk.tar")
    || string_ends_with (string_or_empty m.path) (codes "ramdisk.tar")

unfoldable pub find_module : List (Option LimineFile) → Option Ramdisk
find_module [] = none
find_module (m ∷ modules) = elim (load_module m) [
  | none ↦ find_module modules
  | some r ↦ if is_ramdisk_module m then some r else find_module modules
]

unfoldable pub only_module : List (Option LimineFile) → Option Ramdisk
only_module (m ∷ []) = load_module m
only_module _ = none

-- `xbks_ramdisk_init`: the new state, whose `available` is the result.
unfoldable pub init : Option (List (Option LimineFile)) → Ramdisk
init none = no_ramdisk
init (some modules) = elim (find_module modules) [
  | some r ↦ r
  | none ↦ elim (only_module modules) [ some r ↦ r | none ↦ no_ramdisk ]
]
