-- ===== src/Process/Calls.antt =====
-- The file calls of kernel/process.c leave every process's state, pid and link alone.
use xbks.Prelude.{
  ℕ, zero, suc, ◌+◌, ◌%◌, ◌<◌, ◌≡◌, inl, inr, refl, not, ◌&&◌, ◌||◌, some, List, [], drop, ◌≤◌, ◌∷◌,
  length, leb, ◌==◌, Bool-cases, Option-cases, arith,
}
use xbks.Ramdisk.Files
use xbks.Process.Types.{
  Hardware, Kernel, ProcessFd, u64_mod, max_fds, current_process, fd_at, put_fd,
}
use xbks.Process.User.{
  store_user, copy_kernel_string, copy_user_string, max_string, user_range_is_valid,
}
use xbks.Process.Table.{is_none, first_free_fd, allocate_fd}
use xbks.Process.Files.{
  is_file, is_stdin, read_keys, read_file, syscall_read, syscall_write, syscall_open, store_fields,
}
use xbks.Process.Invariant.{SameCore, SameCore-of_eq, SameCore-trans, SameCore-put_fd}

module _ {H : Type 0} (hw : Hardware H) where
  pub SameCore-refl : (k : Kernel H) → SameCore k k
  SameCore-refl k = SameCore-of_eq k k refl refl refl

  -- A store changes the memory alone.
  pub store_user_frame :
      (k : Kernel H) (address : ℕ) (bytes : List ℕ)
      → let k' = store_user hw k address bytes in
        (k'.processes ≡ k.processes)
        × (k'.current ≡ k.current)
        × (k'.next_pid ≡ k.next_pid)
        × (k'.ramdisk ≡ k.ramdisk)
        × (k'.machine ≡ k.machine)
  unfolding store_user
  store_user_frame k address [] = (refl, refl, refl, refl, refl)
  store_user_frame k address (b ∷ bytes) =
      store_user_frame (record k { mm = hw.poke k.machine k.mm (address % u64_mod) b })
        (address + 1) bytes

  pub SameCore-store_user :
      (k : Kernel H) (address : ℕ) (bytes : List ℕ) → SameCore k (store_user hw k address bytes)
  SameCore-store_user k address bytes =
      let (ps, c, n, r, h) = store_user_frame k address bytes in
      SameCore-of_eq k (store_user hw k address bytes) ps c n

  -- A descriptor moved on after a store.
  pub SameCore-store-put :
      (k : Kernel H) (address : ℕ) (bytes : List ℕ) (fd : ℕ) (x : ProcessFd)
      → k.current < length k.processes
      → x.kind ≡ (fd_at (current_process k) fd).kind
      → SameCore k (put_fd (store_user hw k address bytes) fd x)
  SameCore-store-put k address bytes fd x h same =
      let k' = store_user hw k address bytes in
      let (ps, c, n, r, m) = store_user_frame k address bytes in
      SameCore-trans k k' _ (SameCore-store_user k address bytes)
        (SameCore-put_fd k' fd x (rw (ps, c) h) (inr (rw (ps, c) same)))

  SameCore-read_keys : (n : ℕ) (k : Kernel H) (address : ℕ) → SameCore k (read_keys hw n k address)
  unfolding read_keys
  SameCore-read_keys zero k address = SameCore-refl k
  SameCore-read_keys (suc n) k address =
      let (c, h) = hw.read_key k.machine in
      let k' = record k { machine = h } in
      let k'' = store_user hw k' address (c ∷ []) in
      SameCore-trans k k' _ (SameCore-of_eq k k' refl refl refl) (
        SameCore-trans k' k'' _ (SameCore-store_user k' address (c ∷ []))
          (SameCore-read_keys n k'' (address + 1)))

  pub SameCore-store_fields :
      (k : Kernel H) (address : ℕ) (ss : List (List ℕ)) → SameCore k (store_fields hw k address ss)
  unfolding store_fields
  SameCore-store_fields k address [] = SameCore-refl k
  SameCore-store_fields k address (s ∷ ss) =
      let k' = store_user hw k address (copy_kernel_string 65 s) in
      SameCore-trans k k' _ (SameCore-store_user k address (copy_kernel_string 65 s))
        (SameCore-store_fields k' (address + 65) ss)

  SameCore-read_file :
      (k : Kernel H) (fd buffer count : ℕ)
      → k.current < length k.processes
      → SameCore k (read_file hw k fd buffer count).1
  unfolding read_file
  SameCore-read_file k fd buffer count h =
      let file = fd_at (current_process k) fd in
      elim (Bool-cases (leb file.file.size file.offset)) [
        | inl done ↦ rw done (SameCore-refl k)
        | inr more ↦ rw more (SameCore-store-put k buffer _ fd _ h refl)
      ]

  pub SameCore-syscall_read :
      (k : Kernel H) (fd buffer count : ℕ)
      → k.current < length k.processes
      → SameCore k (syscall_read hw k fd buffer count).1
  unfolding syscall_read
  SameCore-syscall_read k fd buffer count h = elim (Bool-cases (user_range_is_valid buffer count)) [
    | inr bad ↦ rw bad (SameCore-refl k)
    | inl good ↦
        rw good (elim (Bool-cases (leb max_fds fd || is_none (fd_at (current_process k) fd).kind)) [
          | inl closed ↦ rw closed (SameCore-refl k)
          | inr is_open ↦
              rw is_open (elim (Bool-cases (is_stdin (fd_at (current_process k) fd).kind)) [
                | inl keys ↦ rw keys (SameCore-read_keys count k buffer)
                | inr other ↦
                    rw other (elim (Bool-cases (is_file (fd_at (current_process k) fd).kind)) [
                      | inl file ↦ rw file (SameCore-read_file k fd buffer count h)
                      | inr directory ↦ rw directory (SameCore-refl k)
                    ])
              ])
        ])
  ]

  pub SameCore-syscall_write :
      (k : Kernel H) (fd buffer count : ℕ) → SameCore k (syscall_write hw k fd buffer count).1
  unfolding syscall_write
  SameCore-syscall_write k fd buffer count = elim (Bool-cases (not (fd == 1) && not (fd == 2))) [
    | inl bad ↦ rw bad (SameCore-refl k)
    | inr good ↦ rw good (elim (Bool-cases (user_range_is_valid buffer count)) [
      | inr bad ↦ rw bad (SameCore-refl k)
      | inl valid ↦ rw valid (SameCore-of_eq k _ refl refl refl)
    ])
  ]

  first_free_fd_bound : (xs : List ProcessFd) (i fd : ℕ) → first_free_fd xs i ≡ some fd → i ≤ fd
  unfolding first_free_fd
  first_free_fd_bound [] i fd e = absurd (ground arith)
  first_free_fd_bound (x ∷ xs) i fd e = elim (Bool-cases (is_none x.kind)) [
    | inl free ↦ ground arith
    | inr used ↦ omega (arith, first_free_fd_bound xs (i + 1) fd (ground arith))
  ]

  pub SameCore-syscall_open :
      (k : Kernel H) (at : ℕ) → k.current < length k.processes → SameCore k (syscall_open hw k at).1
  unfolding syscall_open allocate_fd
  SameCore-syscall_open k at h =
      elim (Option-cases (first_free_fd (drop 3 (current_process k).fds) 3)) [
        | inl full ↦ rw (full, syscall_open, allocate_fd) (SameCore-refl k)
        | inr (fd, free) ↦
            rw (free, syscall_open, allocate_fd)
              (elim (Option-cases (copy_user_string hw max_string k at)) [
                | inl fault ↦ rw fault (SameCore-refl k)
                | inr (path, copied) ↦ rw copied (elim (Option-cases (Files.find k.ramdisk path)) [
                  | inl absent ↦ rw absent (SameCore-refl k)
                  | inr (f, found) ↦ rw found (
                      SameCore-put_fd k fd _ h
                        (inl (first_free_fd_bound (drop 3 (current_process k).fds) 3 fd free)))
                ])
              ])
      ]
