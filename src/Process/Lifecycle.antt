-- ===== src/Process/Lifecycle.antt =====
-- vfork, exit and wait4 of kernel/process.c keep the invariant of the process table.
use xbks.Prelude.{
  ℕ, ◌+◌, ◌*◌, ◌%◌, ◌^◌, ◌<◌, ◌≡◌, inl, inr, refl, ap, Bool, true, false, not, ◌&&◌, List, set,
  get_or, get_or-set_self, Bool-cases, Option-cases, ◌==◌, if◌then◌else◌, arith,
}
use xbks.Mm.Spaces.{create_kernel_mapped_pml4, clone_user_space}
use xbks.Process.Types.{
  blocked, Process, SyscallFrame, Hardware, Kernel, zero_process, process_at, current_process,
  int_max,
}
use xbks.Process.User.{user_top, user_range_is_valid, store_user, le_bytes}
use xbks.Process.Table.{first_unused, new_process, allocate_process}
use xbks.Process.Life.{
  is_zombie, first_child, reap, syscall_wait4, syscall_exit, vfork_child, syscall_vfork,
}
use xbks.Process.Invariant.{is_live, state_of, IsSound, SameCore-IsSound, SameCore-of_eq}
use xbks.Process.Calls.{store_user_frame}
use xbks.Process.Images.{Leaves}
use xbks.Process.Changes.{
  slot_free, first_child_lem, cleared, not_live, set_twice, parent, two, forked,
}
use xbks.Process.Endings.{one, exited}
use xbks.Process.Forked.{Forked-IsSound}
use xbks.Process.Exited.{Exited-IsSound}
use xbks.Process.Cleared.{Cleared-IsSound}

module _ {H : Type 0} (hw : Hardware H) where
  pub syscall_vfork-IsSound :
      (k : Kernel H) (frame : SyscallFrame)
      → IsSound k
      → k.next_pid < int_max
      → Leaves IsSound (syscall_vfork hw k frame)
  unfolding syscall_vfork allocate_process new_process parent two
  syscall_vfork-IsSound k frame s room = elim (Option-cases (first_unused k.processes 0)) [
    | inl full ↦ rw (full, syscall_vfork, allocate_process) s
    | inr (i, found) ↦
        let (bound, free) = slot_free k i found in
        let first = new_process k.next_pid in
        let next : (k.next_pid + 1) % 2 ^ 32 ≡ k.next_pid + 1 = omega arith in
        let (cr3, m₁) = create_kernel_mapped_pml4 k.mm in
        let copy =
          (if cr3 == 0
            then (false, m₁)
            else clone_user_space m₁ (current_process k).cr3 cr3 user_top) in
        let old = get_or (set k.processes i first) i zero_process in
        let old' : old ≡ first = get_or-set_self k.processes i first zero_process bound in
        rw (found, syscall_vfork, allocate_process)
          (elim (Bool-cases copy.0) [
            | inl done ↦
                let par = parent k k i first first s bound free in
                let child = vfork_child hw par k.current old cr3 frame in
                let k' = record k {
                  processes =
                      set (set (set k.processes i first) i child) k.current
                        (record par { state = blocked });
                  current = i;
                  next_pid = (k.next_pid + 1) % 2 ^ 32;
                  mm = copy.1;
                  machine = hw.write_cr3 k.machine cr3;
                } in
                rw done (
                  Forked-IsSound
                    (forked k k' i first child s bound free refl refl next
                      (ap (λ (p : Process). p.state) old') (ap (λ (p : Process). p.pid) old') refl
                      refl)
                    s)
            | inr failed ↦
                let k' = record k {
                  processes = set (set k.processes i first) i zero_process;
                  next_pid = (k.next_pid + 1) % 2 ^ 32;
                } in
                rw failed (
                  SameCore-IsSound k' _ (SameCore-of_eq k' _ refl refl refl) (
                    Cleared-IsSound
                      (cleared k k' i (ap is_live free) (set_twice k.processes i first zero_process)
                        refl (omega (arith, next)))
                      s))
          ])
  ]

  pub syscall_exit-IsSound :
      (k : Kernel H) (frame : SyscallFrame) (status : ℕ)
      → IsSound k
      → Leaves IsSound (syscall_exit hw k frame status)
  unfolding syscall_exit one
  syscall_exit-IsSound k frame status s = elim (Option-cases (current_process k).vfork_parent) [
    | inl none_waits ↦ rw (none_waits, syscall_exit) tt
    | inr (p, link) ↦
        rw (link, syscall_exit) (Exited-IsSound (exited k _ p _ s link refl refl refl) s)
  ]

  pub stored_frame :
      (k : Kernel H) (address : ℕ) (bytes : List ℕ) (wanted : Bool)
      → let k' = (if wanted then store_user hw k address bytes else k) in
        (k'.processes ≡ k.processes) × (k'.current ≡ k.current) × (k'.next_pid ≡ k.next_pid)
  stored_frame k address bytes true =
      let (ps, c, n, r, m) = store_user_frame hw k address bytes in (ps, c, n)
  stored_frame k address bytes false = (refl, refl, refl)

  reap-IsSound :
      (k : Kernel H) (i status_address : ℕ)
      → is_zombie (state_of k i) ≡ true
      → IsSound k
      → IsSound (reap hw k i status_address).1
  unfolding reap
  reap-IsSound k i status_address ended s =
      elim (Bool-cases (not (status_address == 0) && not (user_range_is_valid status_address 4))) [
        | inl fault ↦ rw fault s
        | inr fine ↦
            let bytes = le_bytes 4 ((process_at k i).exit_status * 256) in
            let k₁ =
              (if not (status_address == 0) then store_user hw k status_address bytes else k) in
            let (ps, c, n) = stored_frame k status_address bytes (not (status_address == 0)) in
            rw fine (
              Cleared-IsSound
                (cleared k _ i (not_live (state_of k i) ended)
                  (ap (λ (l : List Process). set l i zero_process) ps) c (omega (arith, n)))
                s)
      ]

  pub syscall_wait4-IsSound :
      (k : Kernel H) (pid status_address : ℕ)
      → IsSound k
      → IsSound (syscall_wait4 hw k pid status_address).1
  unfolding syscall_wait4
  syscall_wait4-IsSound k pid status_address s =
      elim (Option-cases (first_child k pid k.processes 0)) [
        | inl childless ↦ rw (childless, syscall_wait4) s
        | inr (i, found) ↦
            let (m, at, bound, fits) = first_child_lem k pid k.processes 0 i found in
            rw (found, syscall_wait4)
              (reap-IsSound k i status_address
                (let e : i ≡ m = omega arith in rw e (ground (arith, fits))) s)
      ]
