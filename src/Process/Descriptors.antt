-- ===== src/Process/Descriptors.antt =====
-- User ranges and file descriptors of kernel/process.c: what the checks and the calls promise.
use xbks.Prelude.{
  ℕ, zero, suc, ◌+◌, ◌-◌, ◌%◌, ◌≤◌, ◌<◌, ◌≡◌, ◌↔◌, ◌⊎◌, inl, inr, refl, sym, ap, ◌∙◌, true, false,
  ◌||◌, Bool-cases, some, List, [], ◌∷◌, ltb, leb, if◌then◌else◌, length, get_or, drop,
  get_or-set_self, arith,
}
use xbks.Process.Types.{
  fd_file, Process, ProcessFd, Hardware, Kernel, max_fds, u64_mod, zero_fd, fd_at, current_process,
  put_fd,
}
use xbks.Process.User.{user_image_min, user_top, user_range_is_valid, negative_errno, store_user}
use xbks.Process.Table.{is_none, first_free_fd, allocate_fd}
use xbks.Process.Files.{ebadf, file_bytes, read_file, syscall_read, syscall_close}
use xbks.Process.Invariant.{process_at-put_self}
use xbks.Process.Calls.{store_user_frame}

-- A user range passes the check exactly if it is empty or lies whole, without wrapping, between
-- the lowest image address and the end of user space.
pub user_range_is_valid_iff :
    (address count : ℕ)
    → (user_range_is_valid address count ≡ true)
      ↔ ((count ≡ 0) ⊎ ((user_image_min ≤ address) × (address + count ≤ user_top)))
unfolding user_range_is_valid
user_range_is_valid_iff address count = ground arith

first_free_fd_lem :
    (fds : List ProcessFd) (i fd : ℕ)
    → first_free_fd fds i ≡ some fd
    → (m : ℕ) × (fd ≡ i + m)
      × (m < length fds)
      × (is_none (get_or fds m zero_fd).kind ≡ true)
      × ((j : ℕ) → j < m → is_none (get_or fds j zero_fd).kind ≡ false)
unfolding first_free_fd
first_free_fd_lem [] i fd e = absurd (ground arith)
first_free_fd_lem (x ∷ fds) i fd e = elim (Bool-cases (is_none x.kind)) [
  | inl free ↦ (0, ground arith, omega arith, free, λ j b. absurd (omega arith))
  | inr used ↦
      let (m, at, bound, free, before) = first_free_fd_lem fds (i + 1) fd (ground arith) in
      (
        suc m,
        omega arith,
        omega arith,
        free,
        elim [ zero ↦ λ b. used | suc j ↦ λ b. before j (omega arith) ],
      )
]

get_or-drop :
    (n : ℕ) (fds : List ProcessFd) (m : ℕ)
    → get_or (drop n fds) m zero_fd ≡ get_or fds (n + m) zero_fd
get_or-drop zero fds m = ap (λ i. get_or fds i zero_fd) (omega arith)
get_or-drop (suc n) [] m = refl
get_or-drop (suc n) (x ∷ fds) m =
    get_or-drop n fds m
    ∙ ap (λ i. get_or (x ∷ fds) i zero_fd) (let e : suc (n + m) ≡ suc n + m = omega arith in e)

length-drop : (n : ℕ) (fds : List ProcessFd) → length (drop n fds) ≡ length fds - n
length-drop zero fds = omega arith
length-drop (suc n) [] = omega arith
length-drop (suc n) (x ∷ fds) = omega (arith, length-drop n fds)

-- The descriptor that allocate_fd gives is in the table and free, and it is the lowest free one
-- from 3 on.
pub allocate_fd_lem :
    (p : Process) (fd : ℕ)
    → allocate_fd p ≡ some fd
    → (3 ≤ fd)
      × (fd < length p.fds)
      × (is_none (fd_at p fd).kind ≡ true)
      × ((j : ℕ) → 3 ≤ j → j < fd → is_none (fd_at p j).kind ≡ false)
unfolding allocate_fd
allocate_fd_lem p fd e =
    let (m, at, bound, free, before) = first_free_fd_lem (drop 3 p.fds) 3 fd e in
    let same = λ (i : ℕ). ap (λ (x : ProcessFd). is_none x.kind) (get_or-drop 3 p.fds i) in
    (
      omega arith,
      omega (arith, length-drop 3 p.fds),
      rw at (sym (same m) ∙ free),
      λ j low high.
          let e' : j ≡ 3 + (j - 3) = omega arith in
          rw e' (sym (same (j - 3)) ∙ before (j - 3) (omega arith)),
    )

-- What a descriptor holds after an assignment.
fd_at-put_fd :
    {H : Type 0} (k : Kernel H) (fd : ℕ) (x : ProcessFd)
    → k.current < length k.processes
    → fd < length (current_process k).fds
    → fd_at (current_process (put_fd k fd x)) fd ≡ x
fd_at-put_fd k fd x cur bound =
    ap (λ (p : Process). fd_at p fd) (process_at-put_self k k.current _ cur)
    ∙ get_or-set_self (current_process k).fds fd x zero_fd bound

abbrev pub smaller : ℕ → ℕ → ℕ
smaller a b = if ltb a b then a else b

-- The descriptor after a read of `n` bytes.
abbrev pub HasMoved : {H : Type 0} → Kernel H → Kernel H → ℕ → ℕ → Type 0
HasMoved k k' fd n =
    let file = fd_at (current_process k) fd in
    let file' = fd_at (current_process k') fd in
    (file'.offset ≡ file.offset + n) × (file'.kind ≡ file.kind) × (file'.file ≡ file.file)

module _ {H : Type 0} (hw : Hardware H) where
  reads_file :
      (k : Kernel H) (fd buffer count : ℕ)
      → fd < max_fds
      → (fd_at (current_process k) fd).kind ≡ fd_file
      → user_range_is_valid buffer count ≡ true
      → syscall_read hw k fd buffer count ≡ read_file hw k fd buffer count
  unfolding syscall_read
  reads_file k fd buffer count small is_regular valid =
      let above : leb max_fds fd ≡ false = ground arith in rw (valid, above, is_regular) refl

  read_file_lem :
      (k : Kernel H) (fd buffer count : ℕ)
      → k.current < length k.processes
      → fd < length (current_process k).fds
      → (fd_at (current_process k) fd).file.size < u64_mod
      → let file = fd_at (current_process k) fd in
        let n = smaller count (file.file.size - file.offset) in
        ((read_file hw k fd buffer count).0 ≡ n)
        × HasMoved k (read_file hw k fd buffer count).1 fd n
  unfolding read_file
  read_file_lem k fd buffer count cur small size =
      let file = fd_at (current_process k) fd in
      elim (Bool-cases (leb file.file.size file.offset)) [
        | inl past ↦
            let n : smaller count (file.file.size - file.offset) ≡ 0 = ground arith in
            rw (past, n) (refl, (omega arith, refl, refl))
        | inr more ↦
            let n = smaller count (file.file.size - file.offset) in
            let bytes = file_bytes k.ramdisk file.file file.offset n in
            let (ps, c, next, r, m) = store_user_frame hw k buffer bytes in
            let here =
              fd_at-put_fd (store_user hw k buffer bytes) fd
                (record file { offset = (file.offset + n) % u64_mod }) (rw (ps, c) cur)
                (rw (ps, c) small) in
            let bound : file.offset + n < u64_mod = ground arith in
            let whole : (file.offset + n) % u64_mod ≡ file.offset + n = omega arith in
            rw more (
              refl,
              (
                ap (λ (x : ProcessFd). x.offset) here ∙ whole,
                ap (λ (x : ProcessFd). x.kind) here,
                ap (λ (x : ProcessFd). x.file) here,
              ),
            )
      ]

  -- A read through a descriptor below 16 of an open file of less than 2^64 bytes, by a process in
  -- the table with its 16 descriptors, into a valid user range returns the smaller of the count
  -- and the bytes left after the file's offset, none if the offset is past the end; it moves the
  -- offset on by that number and leaves the descriptor's kind and file alone.
  pub syscall_read_lem :
      (k : Kernel H) (fd buffer count : ℕ)
      → k.current < length k.processes
      → length (current_process k).fds ≡ max_fds
      → fd < max_fds
      → (fd_at (current_process k) fd).kind ≡ fd_file
      → (fd_at (current_process k) fd).file.size < u64_mod
      → user_range_is_valid buffer count ≡ true
      → let file = fd_at (current_process k) fd in
        let n = smaller count (file.file.size - file.offset) in
        ((syscall_read hw k fd buffer count).0 ≡ n)
        × HasMoved k (syscall_read hw k fd buffer count).1 fd n
  syscall_read_lem k fd buffer count cur len small is_regular size valid =
      rw (reads_file k fd buffer count small is_regular valid)
        (read_file_lem k fd buffer count cur (rw len small) size)

module _ {H : Type 0} where
  -- `EBADF` or a descriptor that is in use.
  close_cases :
      (k : Kernel H) (fd : ℕ)
      → (syscall_close k fd).0 ≡ 0
      → (fd < max_fds)
        × (2 < fd)
        × (is_none (fd_at (current_process k) fd).kind ≡ false)
        × ((syscall_close k fd).1 ≡ put_fd k fd zero_fd)
  unfolding syscall_close negative_errno
  close_cases k fd done =
      elim (Bool-cases
        (leb max_fds fd || leb fd 2 || is_none (fd_at (current_process k) fd).kind)) [
          | inl bad ↦ absurd (omega (arith, rw bad at done))
          | inr good ↦ rw good (ground arith, ground arith, ground arith, refl)
        ]

  close_empty :
      (k : Kernel H) (fd : ℕ)
      → is_none (fd_at (current_process k) fd).kind ≡ true
      → (syscall_close k fd).0 ≡ negative_errno ebadf
  unfolding syscall_close
  close_empty k fd empty =
      let bad : (leb max_fds fd || leb fd 2 || is_none (fd_at (current_process k) fd).kind) ≡ true =
        ground arith in
      rw bad refl

  -- After a close that succeeds, by a process in the table with its 16 descriptors, another close
  -- of the same descriptor returns -EBADF.
  pub close_twice :
      (k : Kernel H) (fd : ℕ)
      → k.current < length k.processes
      → length (current_process k).fds ≡ max_fds
      → (syscall_close k fd).0 ≡ 0
      → (syscall_close (syscall_close k fd).1 fd).0 ≡ negative_errno ebadf
  close_twice k fd cur len done =
      let (small, above, used, after) = close_cases k fd done in
      let empty : is_none (fd_at (current_process (syscall_close k fd).1) fd).kind ≡ true =
        ap (λ (k' : Kernel H). is_none (fd_at (current_process k') fd).kind) after
        ∙ ap (λ (x : ProcessFd). is_none x.kind) (fd_at-put_fd k fd zero_fd cur (rw len small)) in
      close_empty (syscall_close k fd).1 fd empty
