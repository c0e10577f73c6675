-- ===== src/Process/Positions.antt =====
-- More calls of kernel/process.c that leave every process's state, pid and link alone: those that
-- close and move descriptors, list directories, and answer queries.
use xbks.Prelude.{
  ℕ, zero, suc, ◌+◌, ◌%◌, ◌<◌, inl, inr, refl, not, ◌||◌, ◌*◌, length, ltb, leb, Bool-cases,
  Option-cases, arith,
}
use xbks.CString.{strlen}
use xbks.Ramdisk.Files
use xbks.Mm.Frames.{align_up}
use xbks.Process.Types.{Hardware, Kernel, u64_mod, max_fds, current_process, fd_at, zero_fd}
use xbks.Process.User.{copy_user_string, max_string, user_range_is_valid}
use xbks.Process.Table.{is_none}
use xbks.Process.Files.{
  is_file, is_dir, syscall_close, syscall_lseek, syscall_access, next_position, base_name,
  dirent_bytes, getdents_loop, syscall_getdents64, syscall_getcwd, syscall_uname, uname_fields,
}
use xbks.Process.Invariant.{SameCore, SameCore-trans, SameCore-current_in, SameCore-put_fd}
use xbks.Process.Calls.{
  SameCore-refl, SameCore-store_user, SameCore-store-put, SameCore-store_fields,
}

module _ {H : Type 0} where
  pub SameCore-syscall_close :
      (hw : Hardware H) (k : Kernel H) (fd : ℕ)
      → k.current < length k.processes
      → SameCore k (syscall_close k fd).1
  unfolding syscall_close
  SameCore-syscall_close hw k fd h =
      elim (Bool-cases
        (leb max_fds fd || leb fd 2 || is_none (fd_at (current_process k) fd).kind)) [
          | inl bad ↦ rw bad (SameCore-refl hw k)
          | inr good ↦ rw good (SameCore-put_fd k fd zero_fd h (inl (ground arith)))
        ]

  pub SameCore-syscall_lseek :
      (hw : Hardware H) (k : Kernel H) (fd offset whence : ℕ)
      → k.current < length k.processes
      → SameCore k (syscall_lseek k fd offset whence).1
  unfolding syscall_lseek
  SameCore-syscall_lseek hw k fd offset whence h =
      elim (Bool-cases (leb max_fds fd || not (is_file (fd_at (current_process k) fd).kind))) [
        | inl bad ↦ rw bad (SameCore-refl hw k)
        | inr good ↦
            rw good
              (elim (Option-cases (next_position (fd_at (current_process k) fd) offset whence)) [
                | inl invalid ↦ rw invalid (SameCore-refl hw k)
                | inr (position, moved) ↦ rw moved (SameCore-put_fd k fd _ h (inr refl))
              ])
      ]

module _ {H : Type 0} (hw : Hardware H) where
  pub SameCore-syscall_access : (k : Kernel H) (at : ℕ) → SameCore k (syscall_access hw k at).1
  unfolding syscall_access
  SameCore-syscall_access k at = elim (Option-cases (copy_user_string hw max_string k at)) [
    | inl fault ↦ rw (fault, syscall_access) (SameCore-refl hw k)
    | inr (path, copied) ↦
        rw (copied, syscall_access)
          (elim (Option-cases (Files.find k.ramdisk path)) [
            | inl absent ↦ rw absent (SameCore-refl hw k)
            | inr (f, found) ↦ rw found (SameCore-refl hw k)
          ])
  ]

  pub SameCore-syscall_getcwd :
      (k : Kernel H) (buffer size : ℕ) → SameCore k (syscall_getcwd hw k buffer size).1
  unfolding syscall_getcwd
  SameCore-syscall_getcwd k buffer size = elim (Bool-cases (ltb size 2)) [
    | inl small ↦ rw small (SameCore-refl hw k)
    | inr room ↦ rw room (elim (Bool-cases (user_range_is_valid buffer 2)) [
      | inr bad ↦ rw bad (SameCore-refl hw k)
      | inl valid ↦ rw valid (SameCore-store_user hw k buffer _)
    ])
  ]

  pub SameCore-syscall_uname :
      (k : Kernel H) (buffer : ℕ) → SameCore k (syscall_uname hw k buffer).1
  unfolding syscall_uname
  SameCore-syscall_uname k buffer = elim (Bool-cases (user_range_is_valid buffer (6 * 65))) [
    | inr bad ↦ rw bad (SameCore-refl hw k)
    | inl valid ↦ rw valid (SameCore-store_fields hw k buffer uname_fields)
  ]

  SameCore-getdents_loop :
      (fuel : ℕ) (k : Kernel H) (fd buffer count written : ℕ)
      → k.current < length k.processes
      → SameCore k (getdents_loop hw fuel k fd buffer count written).1
  unfolding getdents_loop
  SameCore-getdents_loop zero k fd buffer count written h = SameCore-refl hw k
  SameCore-getdents_loop (suc fuel) k fd buffer count written h =
      let directory = fd_at (current_process k) fd in
      elim (Option-cases (Files.read_dir k.ramdisk directory.file.path directory.offset)) [
        | inl end ↦ rw (end, getdents_loop) (SameCore-refl hw k)
        | inr (child, got) ↦
            let name = base_name child.path child.path in
            let reclen = align_up (24 + (strlen name + 1)) 8 in
            rw (got, getdents_loop)
              (elim (Bool-cases (ltb count (written + reclen))) [
                | inl full ↦ rw full (SameCore-refl hw k)
                | inr room ↦
                    let moved =
                      SameCore-store-put hw k (buffer + written)
                        (dirent_bytes directory.offset reclen child name) fd
                        (record directory { offset = (directory.offset + 1) % u64_mod }) h refl in
                    rw room (
                      SameCore-trans k _ _ moved (
                        SameCore-getdents_loop fuel _ fd buffer count (written + reclen)
                          (SameCore-current_in k _ moved h)))
              ])
      ]

  pub SameCore-syscall_getdents64 :
      (k : Kernel H) (fd buffer count : ℕ)
      → k.current < length k.processes
      → SameCore k (syscall_getdents64 hw k fd buffer count).1
  unfolding syscall_getdents64
  SameCore-syscall_getdents64 k fd buffer count h =
      elim (Bool-cases (leb max_fds fd || not (is_dir (fd_at (current_process k) fd).kind))) [
        | inl bad ↦ rw bad (SameCore-refl hw k)
        | inr good ↦ rw good (elim (Bool-cases (user_range_is_valid buffer count)) [
          | inr bad ↦ rw bad (SameCore-refl hw k)
          | inl valid ↦ rw valid (SameCore-getdents_loop (count + 1) k fd buffer count 0 h)
        ])
      ]
