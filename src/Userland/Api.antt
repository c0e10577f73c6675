-- ===== src/Userland/Api.antt =====
-- The file and console calls of kernel/userland.c. A pointer to a string is the string, `none` for
-- null; a buffer is its address in the memory. A result is its 64-bit two's complement.
use xbks.Prelude.{
  ℕ, zero, suc, ◌+◌, ◌-◌, Bool, true, not, ◌&&◌, Option, none, some, List, [], ◌∷◌, ◌==◌, ltb, leb,
  set, if◌then◌else◌,
}
use xbks.CString.{Mem, write}
use xbks.Ramdisk.Tar.{Ramdisk, RamdiskFile, slice}
use xbks.Ramdisk.Files
use xbks.Elf.Image.{copy_in}
use xbks.Process.User.{negative_errno}
use xbks.Process.Files.{enoent, ebadf, efault, eisdir}
use xbks.Drivers.Keyboard.{Ports, keyboard_read_char_blocking}
use xbks.Drivers.Console.{Output, console_write}

unfoldable pub user_buffer_is_valid : ℕ → ℕ → Bool
user_buffer_is_valid buffer count = if count == 0 then true else not (buffer == 0)

-- The loop of `user_api_read`: the shift state and the round of the keyboard go on. `none` where the
-- wait for a character runs out of rounds.
unfoldable pub read_chars :
    (rounds : ℕ) → (ℕ → Ports) → (count : ℕ) → ℕ → ℕ → Bool → ℕ → Mem → Option (Bool × ℕ × Mem)
read_chars rounds ports zero buffer i shift round m = some (shift, round, m)
read_chars rounds ports (suc n) buffer i shift round m =
    elim (keyboard_read_char_blocking rounds shift ports round) [
      | none ↦ none
      | some (ch, shift', round') ↦
          read_chars rounds ports n buffer (i + 1) shift' round' (write m (buffer + i) ch)
    ]

unfoldable pub user_api_read :
    (rounds : ℕ)
    → (ℕ → Ports)
    → (fd buffer count : ℕ) → Bool
    → ℕ
    → Mem
    → Option (ℕ × Bool × ℕ × Mem)
user_api_read rounds ports fd buffer count shift round m =
    if not (fd == 0)
    then some (negative_errno ebadf, shift, round, m)
    else if not (user_buffer_is_valid buffer count)
    then some (negative_errno efault, shift, round, m)
    else elim (read_chars rounds ports count buffer 0 shift round m) [
      | none ↦ none
      | some (shift', round', m') ↦ some (count, shift', round', m')
    ]

unfoldable pub user_api_write : Bool → (fd buffer count : ℕ) → Mem → ℕ × List Output
user_api_write available fd buffer count m =
    if not (fd == 1) && not (fd == 2)
    then (negative_errno ebadf, [])
    else if not (user_buffer_is_valid buffer count)
    then (negative_errno efault, [])
    else (count, console_write available (slice m buffer count))

unfoldable pub user_api_exists : Ramdisk → Option (List ℕ) → ℕ
user_api_exists ramdisk none = negative_errno efault
user_api_exists ramdisk (some path) = elim (Files.find ramdisk path) [ none ↦ 0 | some file ↦ 1 ]

unfoldable pub user_api_file_size : Ramdisk → Option (List ℕ) → ℕ
user_api_file_size ramdisk none = negative_errno efault
user_api_file_size ramdisk (some path) = elim (Files.find ramdisk path) [
  | none ↦ negative_errno enoent
  | some file ↦ if file.directory then negative_errno eisdir else file.size
]

-- `(const uint8_t *)file.data + offset`, in the archive.
abbrev pub data_at : RamdiskFile → ℕ → ℕ
data_at file offset = elim file.contents [ none ↦ offset | some at ↦ at + offset ]

-- What `user_api_read_file` does with a file.
unfoldable pub read_from_file : Ramdisk → RamdiskFile → (offset buffer count : ℕ) → Mem → ℕ × Mem
read_from_file ramdisk file offset buffer count m =
    if file.directory
    then (negative_errno eisdir, m)
    else if leb file.size offset
    then (0, m)
    else let available = if ltb count (file.size - offset) then count else file.size - offset in
      (available, copy_in m buffer ramdisk.bytes (data_at file offset) available)

unfoldable pub user_api_read_file :
    Ramdisk → Option (List ℕ) → (offset buffer count : ℕ) → Mem → ℕ × Mem
user_api_read_file ramdisk none offset buffer count m = (negative_errno efault, m)
user_api_read_file ramdisk (some path) offset buffer count m =
    if not (user_buffer_is_valid buffer count)
    then (negative_errno efault, m)
    else elim (Files.find ramdisk path) [
      | none ↦ (negative_errno enoent, m)
      | some file ↦ read_from_file ramdisk file offset buffer count m
    ]

-- The loop of `basename`: the rest of the string, and the base so far.
unfoldable pub basename_loop : List ℕ → List ℕ → List ℕ
basename_loop [] base = base
basename_loop (c ∷ rest) base =
    let after_slash = basename_loop rest rest in
    let going_on = basename_loop rest base in
    if c == 0 then base else if c == 47 then after_slash else going_on

unfoldable pub basename : List ℕ → List ℕ
basename path = basename_loop path path

-- The loop of `copy_string_limited` from an index on.
unfoldable pub copy_limited : List ℕ → ℕ → ℕ → List ℕ → List ℕ
copy_limited dest i capacity [] = set dest i 0
copy_limited dest i capacity (c ∷ src) =
    let rest = copy_limited (set dest i c) (i + 1) capacity src in
    if ltb (i + 1) capacity && not (c == 0) then rest else set dest i 0

unfoldable pub copy_string_limited : List ℕ → ℕ → List ℕ → List ℕ
copy_string_limited dest capacity src =
    if capacity == 0 then dest else copy_limited dest 0 capacity src

-- `struct xbks_user_dirent`
pub record UserDirent : Type 0 where
  pub name : List ℕ
  pub size : ℕ
  pub kind : ℕ
  pub executable : ℕ

unfoldable pub dirent_of : UserDirent → RamdiskFile → UserDirent
dirent_of out file = record {
  name = copy_string_limited out.name 128 (basename file.path);
  size = file.size;
  kind = if file.directory then 2 else 1;
  executable = if file.executable then 1 else 0;
}

-- `user_api_read_dir`, with what `out` holds before.
unfoldable pub user_api_read_dir :
    Ramdisk → Option (List ℕ) → ℕ → Option UserDirent → ℕ × Option UserDirent
user_api_read_dir ramdisk none index out = (negative_errno efault, out)
user_api_read_dir ramdisk (some path) index none = (negative_errno efault, none)
user_api_read_dir ramdisk (some path) index (some out) = elim (Files.read_dir ramdisk path index) [
  | none ↦ (negative_errno enoent, some out)
  | some file ↦ (0, some (dirent_of out file))
]
