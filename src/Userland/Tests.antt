-- ===== src/Userland/Tests.antt =====
-- Concrete runs of the theorems on kernel/userland.c, on an archive with one file `a/b`.
use xbks.Prelude.{ℕ, ◌≡◌, refl, true, false, some, List, [], ◌++◌, take, replicate, get_or}
use xbks.CString.{Mem, codes}
use xbks.CString.Text.{text}
use xbks.Ramdisk.Tar.{Ramdisk, RamdiskFile}
use xbks.Ramdisk.Files
use xbks.Userland.Api.{user_api_read_dir, UserDirent}
use xbks.Userland.Exec.{Userland, ExecCall, exits, execs, Machine, user_api_exec}
use xbks.Userland.Nesting.{Returns, user_api_exec-Returns}
use xbks.Userland.Files.{NoSlash, IsFolder, user_api_read_dir-name}

abbrev zeros : ℕ → List ℕ
zeros n = replicate n 0

abbrev header_bytes : List ℕ
header_bytes =
    codes "a/b"
    ++ zeros 97
    ++ codes "0000755"
    ++ zeros 17
    ++ codes "00000000003"
    ++ zeros 21
    ++ codes "0"
    ++ zeros 355
    ++ codes "xyz"

abbrev archive : Ramdisk
archive = record { bytes = λ a. get_or header_bytes a 0; size = 1536; available = true }

abbrev one_file : RamdiskFile
one_file = record {
  path = codes "/a/b";
  contents = some 512;
  size = 3;
  directory = false;
  executable = true;
}

found_file : Files.find archive (codes "/a/b") ≡ some one_file
unfolding Files.find xbks.Ramdisk.Path.normalize_path xbks.Ramdisk.Path.trim_slashes
    xbks.Ramdisk.Path.skip_prefix xbks.Ramdisk.Path.skip_dots xbks.Ramdisk.Path.skip_slashes
    Files.file_of_found Files.find_header xbks.Ramdisk.Tar.entry_at xbks.Ramdisk.Tar.block_is_zero
    xbks.Ramdisk.Tar.parse_octal xbks.Ramdisk.Tar.header_at xbks.Ramdisk.Tar.tar_path
    xbks.Ramdisk.Path.bounded_strlen xbks.Ramdisk.Tar.combined_path xbks.Ramdisk.Tar.prefix_part
    xbks.Ramdisk.Path.copy_bytes xbks.CString.strcmp xbks.CString.strlen xbks.CString.strncmp
    Files.is_directory_prefix xbks.Ramdisk.Path.make_public_path xbks.Ramdisk.Tar.align_to_tar_block
    xbks.Ramdisk.Tar.fill_file xbks.Ramdisk.Tar.header_is_directory xbks.Ramdisk.Tar.is_executable
    xbks.Ramdisk.Tar.next_offset xbks.Ramdisk.Tar.octal_digits xbks.Ramdisk.Tar.skip_blanks
    xbks.Ramdisk.Tar.zero_bytes
found_file = refl

blank : Mem
blank a = 0

-- A program that calls itself, and exits with the status of that call.
abbrev self_call : ExecCall
self_call = record { path = some (codes "/a/b"); negative_argc = false; argv = some [] }

abbrev sample_machine : Machine
sample_machine = record {
  program_at = λ entry argv. execs self_call exits;
  ramdisk = archive;
  cmd_base = 0x100000;
  cmd_size = 0x10000;
  xsh_base = 0x200000;
  xsh_size = 0x10000;
}

abbrev idle : Userland
idle = record { memory = blank; shift_pressed = false; command_running = false }

user_api_exec-Returns_example : Returns false (user_api_exec sample_machine 1 self_call idle)
user_api_exec-Returns_example = user_api_exec-Returns sample_machine 0 self_call idle refl

abbrev blank_entry : UserDirent
blank_entry = record { name = zeros 128; size = 0; kind = 0; executable = 0 }

abbrev listed_file : RamdiskFile
listed_file = record {
  path = codes "/a/b";
  contents = some 512;
  size = 3;
  directory = false;
  executable = true;
}

listed : Files.read_dir archive (codes "/a") 0 ≡ some listed_file
unfolding Files.read_dir Files.read_dir_loop Files.child_of_entry Files.child_seen_before
    Files.child_path Files.child_file Files.same_child xbks.Ramdisk.Path.component_length
    xbks.Ramdisk.Path.relative_path xbks.Ramdisk.Path.child_of_relative
    xbks.Ramdisk.Path.child_name_for_directory xbks.Ramdisk.Path.normalize_path
    xbks.Ramdisk.Path.trim_slashes xbks.Ramdisk.Path.skip_prefix xbks.Ramdisk.Path.skip_dots
    xbks.Ramdisk.Path.skip_slashes Files.file_of_found Files.find_header xbks.Ramdisk.Tar.entry_at
    xbks.Ramdisk.Tar.block_is_zero xbks.Ramdisk.Tar.parse_octal xbks.Ramdisk.Tar.header_at
    xbks.Ramdisk.Tar.tar_path xbks.Ramdisk.Path.bounded_strlen xbks.Ramdisk.Tar.combined_path
    xbks.Ramdisk.Tar.prefix_part xbks.Ramdisk.Path.copy_bytes xbks.CString.strcmp
    xbks.CString.strlen xbks.CString.strncmp Files.is_directory_prefix
    xbks.Ramdisk.Path.make_public_path xbks.Ramdisk.Tar.align_to_tar_block
    xbks.Ramdisk.Tar.fill_file xbks.Ramdisk.Tar.header_is_directory xbks.Ramdisk.Tar.is_executable
    xbks.Ramdisk.Tar.next_offset xbks.Ramdisk.Tar.octal_digits xbks.Ramdisk.Tar.skip_blanks
    xbks.Ramdisk.Tar.zero_bytes
listed = refl

user_api_read_dir-name_example :
    (entry : UserDirent) × (base d : List ℕ) × (user_api_read_dir archive
        (some (codes "/a"))
        0
        (some blank_entry)
      ≡ (0, some entry))
    × (text listed_file.path ≡ d ++ base)
    × IsFolder d
    × NoSlash base
    × (text entry.name ≡ take 127 base)
user_api_read_dir-name_example =
    user_api_read_dir-name archive (codes "/a") 0 blank_entry listed_file listed refl
