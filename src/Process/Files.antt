-- ===== src/Process/Files.antt =====
-- The file system calls of kernel/process.c. Each returns the value for `rax` and the kernel.
use xbks.Prelude.{
  ℕ, zero, suc, ◌+◌, ◌-◌, ◌*◌, ◌%◌, Bool, true, false, not, ◌&&◌, ◌||◌, Option, none, some, List,
  [], ◌∷◌, ◌++◌, ltb, leb, ◌==◌, if◌then◌else◌,
}
use xbks.CString.{codes, strlen}
use xbks.Ramdisk.Tar.{Ramdisk, RamdiskFile, slice}
use xbks.Ramdisk.Files
use xbks.Mm.Frames.{align_up}
use xbks.Process.Types.{
  FdType, fd_stdin, fd_file, fd_dir, ProcessFd, Hardware, Kernel, max_fds, u64_mod, current_process,
  fd_at, put_fd, zero_fd,
}
use xbks.Process.User.{
  negative_errno, user_range_is_valid, max_string, copy_kernel_string, le_bytes, load_user,
  store_user, copy_user_string,
}
use xbks.Process.Table.{is_none, allocate_fd}

abbrev pub enoent : ℕ
enoent = 2

abbrev pub enoexec : ℕ
enoexec = 8

abbrev pub ebadf : ℕ
ebadf = 9

abbrev pub echild : ℕ
echild = 10

abbrev pub eagain : ℕ
eagain = 11

abbrev pub enomem : ℕ
enomem = 12

abbrev pub efault : ℕ
efault = 14

abbrev pub eisdir : ℕ
eisdir = 21

abbrev pub einval : ℕ
einval = 22

abbrev pub emfile : ℕ
emfile = 24

abbrev pub erange : ℕ
erange = 34

abbrev pub enosys : ℕ
enosys = 38

abbrev pub is_file : FdType → Bool
is_file fd_file = true
is_file _ = false

abbrev pub is_dir : FdType → Bool
is_dir fd_dir = true
is_dir _ = false

abbrev pub is_stdin : FdType → Bool
is_stdin fd_stdin = true
is_stdin _ = false

-- `DT_DIR` and `DT_REG`
abbrev pub dirent_kind : Bool → ℕ
dirent_kind directory = if directory then 4 else 8

-- The bytes behind a file's data pointer, from an offset on.
abbrev pub file_bytes : Ramdisk → RamdiskFile → ℕ → ℕ → List ℕ
file_bytes r f offset count = elim f.contents [
  | none ↦ slice (λ a. 0) offset count
  | some at ↦ slice r.bytes (at + offset) count
]

-- The text after the last slash.
unfoldable pub base_name : List ℕ → List ℕ → List ℕ
base_name [] name = name
base_name (c ∷ cursor) name = base_name cursor (if c == b'/' then cursor else name)

-- One `struct linux_dirent64` with its name.
unfoldable pub dirent_bytes : ℕ → ℕ → RamdiskFile → List ℕ → List ℕ
dirent_bytes offset reclen child name =
    le_bytes 8 ((offset + 1) % u64_mod)
    ++ le_bytes 8 ((offset + 1) % u64_mod)
    ++ le_bytes 2 reclen
    ++ dirent_kind child.directory ∷ copy_kernel_string (strlen name + 1) name

-- The fields of `struct xbks_uname`.
abbrev pub uname_fields : List (List ℕ)
uname_fields =
    codes "XiaobaiOS"
    ∷ codes "localhost"
    ∷ codes "0.1.0"
    ∷ codes "xbks ring3"
    ∷ codes "x86_64"
    ∷ codes "localdomain"
    ∷ []

module _ {H : Type 0} (hw : Hardware H) where
  unfoldable pub read_keys : ℕ → Kernel H → ℕ → Kernel H
  read_keys zero k address = k
  read_keys (suc n) k address =
      let (c, h) = hw.read_key k.machine in
      read_keys n (store_user hw (record k { machine = h }) address (c ∷ [])) (address + 1)

  -- The part of `syscall_read` for an FD_FILE descriptor.
  unfoldable pub read_file : Kernel H → ℕ → ℕ → ℕ → ℕ × Kernel H
  read_file k fd buffer count =
      let file = fd_at (current_process k) fd in
      if leb file.file.size file.offset
      then (0, k)
      else let available = file.file.size - file.offset in
        let n = if ltb count available then count else available in
        let k' = store_user hw k buffer (file_bytes k.ramdisk file.file file.offset n) in
        (n, put_fd k' fd (record file { offset = (file.offset + n) % u64_mod }))

  unfoldable pub syscall_read : Kernel H → ℕ → ℕ → ℕ → ℕ × Kernel H
  unfolding read_keys
  syscall_read k fd buffer count =
      let kind = (fd_at (current_process k) fd).kind in
      if not (user_range_is_valid buffer count)
      then (negative_errno efault, k)
      else if leb max_fds fd || is_none kind
      then (negative_errno ebadf, k)
      else if is_stdin kind
      then (count, read_keys count k buffer)
      else if not (is_file kind)
      then (negative_errno eisdir, k)
      else read_file k fd buffer count

  unfoldable pub load_bytes : ℕ → Kernel H → ℕ → List ℕ
  load_bytes zero k address = []
  load_bytes (suc n) k address = load_user hw k address ∷ load_bytes n k (address + 1)

  unfoldable pub syscall_write : Kernel H → ℕ → ℕ → ℕ → ℕ × Kernel H
  unfolding load_bytes
  syscall_write k fd buffer count =
      if not (fd == 1) && not (fd == 2)
      then (negative_errno ebadf, k)
      else if not (user_range_is_valid buffer count)
      then (negative_errno efault, k)
      else (count, record k { machine = hw.console_write k.machine (load_bytes count k buffer) })

  unfoldable pub syscall_open : Kernel H → ℕ → ℕ × Kernel H
  syscall_open k path_address = elim (allocate_fd (current_process k)) [
    | none ↦ (negative_errno emfile, k)
    | some fd ↦ elim (copy_user_string hw max_string k path_address) [
      | none ↦ (negative_errno efault, k)
      | some path ↦ elim (Files.find k.ramdisk path) [
        | none ↦ (negative_errno enoent, k)
        | some f ↦ (
          fd,
          put_fd k fd
              (record { kind = if f.directory then fd_dir else fd_file; file = f; offset = 0 }),
        )
      ]
    ]
  ]

  unfoldable pub syscall_access : Kernel H → ℕ → ℕ × Kernel H
  syscall_access k path_address = elim (copy_user_string hw max_string k path_address) [
    | none ↦ (negative_errno efault, k)
    | some path ↦ elim (Files.find k.ramdisk path) [
      | none ↦ (negative_errno enoent, k)
      | some f ↦ (0, k)
    ]
  ]

  -- A record takes 32 bytes at least, so `count` rounds and one to stop are enough.
  unfoldable pub getdents_loop : ℕ → Kernel H → ℕ → ℕ → ℕ → ℕ → ℕ × Kernel H
  getdents_loop zero k fd buffer count written = (written, k)
  getdents_loop (suc fuel) k fd buffer count written =
      let directory = fd_at (current_process k) fd in
      elim (Files.read_dir k.ramdisk directory.file.path directory.offset) [
        | none ↦ (written, k)
        | some child ↦
            let name = base_name child.path child.path in
            let reclen = align_up (24 + (strlen name + 1)) 8 in
            let k' =
              store_user hw k (buffer + written)
                (dirent_bytes directory.offset reclen child name) in
            let rest =
              getdents_loop fuel
                (put_fd k' fd (record directory { offset = (directory.offset + 1) % u64_mod })) fd
                buffer count (written + reclen) in
            if ltb count (written + reclen) then (written, k) else rest
      ]

  unfoldable pub syscall_getdents64 : Kernel H → ℕ → ℕ → ℕ → ℕ × Kernel H
  syscall_getdents64 k fd buffer count =
      if leb max_fds fd || not (is_dir (fd_at (current_process k) fd).kind)
      then (negative_errno ebadf, k)
      else if not (user_range_is_valid buffer count)
      then (negative_errno efault, k)
      else getdents_loop (count + 1) k fd buffer count 0

  unfoldable pub syscall_getcwd : Kernel H → ℕ → ℕ → ℕ × Kernel H
  syscall_getcwd k buffer size =
      if ltb size 2
      then (negative_errno erange, k)
      else if not (user_range_is_valid buffer 2)
      then (negative_errno efault, k)
      else (buffer, store_user hw k buffer (codes "/" ++ 0 ∷ []))

  -- The six fields of `struct xbks_uname`, 65 bytes each, one after another.
  unfoldable pub store_fields : Kernel H → ℕ → List (List ℕ) → Kernel H
  store_fields k address [] = k
  store_fields k address (s ∷ ss) =
      store_fields (store_user hw k address (copy_kernel_string 65 s)) (address + 65) ss

  unfoldable pub syscall_uname : Kernel H → ℕ → ℕ × Kernel H
  unfolding store_fields
  syscall_uname k buffer =
      if not (user_range_is_valid buffer (6 * 65))
      then (negative_errno efault, k)
      else (0, store_fields k buffer uname_fields)

-- The position that a seek asks for; `none` for a `whence` that is not known.
unfoldable pub next_position : ProcessFd → ℕ → ℕ → Option ℕ
next_position file offset whence =
    if whence == 0
    then some offset
    else if whence == 1
    then some ((file.offset + offset) % u64_mod)
    else if whence == 2
    then some ((file.file.size + offset) % u64_mod)
    else none

module _ {H : Type 0} where
  unfoldable pub syscall_close : Kernel H → ℕ → ℕ × Kernel H
  syscall_close k fd =
      if leb max_fds fd || leb fd 2 || is_none (fd_at (current_process k) fd).kind
      then (negative_errno ebadf, k)
      else (0, put_fd k fd zero_fd)

  unfoldable pub syscall_lseek : Kernel H → ℕ → ℕ → ℕ → ℕ × Kernel H
  syscall_lseek k fd offset whence =
      let file = fd_at (current_process k) fd in
      if leb max_fds fd || not (is_file file.kind)
      then (negative_errno ebadf, k)
      else elim (next_position file offset whence) [
        | none ↦ (negative_errno einval, k)
        | some position ↦ (position, put_fd k fd (record file { offset = position }))
      ]
