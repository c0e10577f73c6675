-- ===== src/Process/Waiting.antt =====
-- What wait4 of kernel/process.c takes away, and what its return values tell.
use xbks.Prelude.{
  ℕ, zero, suc, [], ◌∷◌, ◌+◌, ◌-◌, ◌*◌, ◌<◌, ◌≡◌, ◌⊎◌, inl, inr, ap, true, false, not, ◌&&◌, Option,
  none, some, List, set, length, get_or, Bool-cases, Option-cases, ◌==◌, arith,
}
use xbks.Process.Types.{Process, Hardware, Kernel, u64_mod, int_to_u64, zero_process, process_at}
use xbks.Process.User.{negative_errno, user_range_is_valid, le_bytes}
use xbks.Process.Files.{efault, echild}
use xbks.Process.Life.{is_zombie, points_to, can_reap, first_child, reap, syscall_wait4}
use xbks.Process.Changes.{first_child_lem}
use xbks.Process.Lifecycle.{stored_frame}

-- A child of the current process that has ended and that `pid` asks for.
pub record IsReaped {H : Type 0} (k : Kernel H) (pid i : ℕ) : Type 0 where
  pub in_table : i < length k.processes
  pub ended : is_zombie (process_at k i).state ≡ true
  pub mine : (process_at k i).parent ≡ some k.current
  pub asked : (pid ≡ u64_mod - 1) ⊎ (pid ≡ int_to_u64 (process_at k i).pid)

-- The three ways in which `wait4` ends.
pub data WaitEnd {H : Type 0} (k : Kernel H) (pid : ℕ) : ℕ → Kernel H → Type 0 where
  childless : ((i : ℕ) → ¬ IsReaped k pid i) → WaitEnd k pid (negative_errno echild) k
  fault : {i : ℕ} → IsReaped k pid i → WaitEnd k pid (negative_errno efault) k
  reaped :
      {i : ℕ} {k' : Kernel H}
      → IsReaped k pid i
      → k'.processes ≡ set k.processes i zero_process
      → k'.current ≡ k.current
      → k'.next_pid ≡ k.next_pid
      → WaitEnd k pid (int_to_u64 (process_at k i).pid) k'

points_to_lem : (o : Option ℕ) (i : ℕ) → points_to o i ≡ true → o ≡ some i
points_to_lem none i e = cc e
points_to_lem (some p) i e = ap some (ground arith)

can_reap-IsReaped :
    {H : Type 0} (k : Kernel H) (pid i : ℕ)
    → i < length k.processes
    → can_reap k pid (process_at k i) ≡ true
    → IsReaped k pid i
can_reap-IsReaped k pid i bound fits = record {
  in_table = bound;
  ended = ground arith;
  mine = points_to_lem (process_at k i).parent k.current (ground arith);
  asked = ground arith;
}

can_reap_lem :
    {H : Type 0} (k : Kernel H) (pid i : ℕ)
    → IsReaped k pid i
    → can_reap k pid (process_at k i) ≡ true
can_reap_lem k pid i x = ground (arith, x.ended, x.mine, x.asked)

first_child-none :
    {H : Type 0} (k : Kernel H) (pid : ℕ) (ps : List Process) (i m : ℕ)
    → first_child k pid ps i ≡ none
    → m < length ps
    → can_reap k pid (get_or ps m zero_process) ≡ false
unfolding first_child
first_child-none k pid [] i m e h = absurd (omega arith)
first_child-none k pid (p ∷ ps) i zero e h = elim (Bool-cases (can_reap k pid p)) [
  | inl fits ↦ cc (rw fits at e)
  | inr other ↦ other
]
first_child-none k pid (p ∷ ps) i (suc m) e h = elim (Bool-cases (can_reap k pid p)) [
  | inl fits ↦ cc (rw fits at e)
  | inr other ↦ first_child-none k pid ps (i + 1) m (rw other at e) (omega arith)
]

module _ {H : Type 0} (hw : Hardware H) where
  reap_ends :
      (k : Kernel H) (pid i status_address : ℕ)
      → IsReaped k pid i
      → WaitEnd k pid (reap hw k i status_address).0 (reap hw k i status_address).1
  unfolding reap
  reap_ends k pid i status_address child =
      elim (Bool-cases (not (status_address == 0) && not (user_range_is_valid status_address 4))) [
        | inl bad ↦ rw bad (fault child)
        | inr fine ↦
            let bytes = le_bytes 4 ((process_at k i).exit_status * 256) in
            let (ps, c, n) = stored_frame hw k status_address bytes (not (status_address == 0)) in
            rw fine (reaped child (ap (λ (l : List Process). set l i zero_process) ps) c n)
      ]

  -- A wait4 ends in one of three ways. It returns -ECHILD and changes nothing, and no zombie child
  -- of the current process is asked for; it returns -EFAULT and changes nothing, and there is such
  -- a child; or it returns the pid of such a child, whose slot it clears, and leaves every other
  -- slot, the current process and the next pid as they were.
  pub syscall_wait4_ends :
      (k : Kernel H) (pid status_address : ℕ)
      → WaitEnd k pid
          (syscall_wait4 hw k pid status_address).0
          (syscall_wait4 hw k pid status_address).1
  unfolding syscall_wait4
  syscall_wait4_ends k pid status_address = elim (Option-cases (first_child k pid k.processes 0)) [
    | inl none_fits ↦
        rw (none_fits, syscall_wait4)
          (childless λ i x.
            cc
              (first_child-none k pid k.processes 0 i none_fits x.in_table, can_reap_lem k pid i x))
    | inr (i, found) ↦
        let (m, at, bound, fits) = first_child_lem k pid k.processes 0 i found in
        let e : i ≡ m = omega arith in
        rw (found, syscall_wait4)
          (reap_ends k pid i status_address (can_reap-IsReaped k pid i (rw e bound) (rw e fits)))
  ]
