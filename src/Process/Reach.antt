-- ===== src/Process/Reach.antt =====
-- The states of kernel/process.c from the start of the first process on.
use xbks.Prelude.{
  ℕ, zero, suc, ◌+◌, ◌<◌, ◌≡◌, refl, sym, ap, ◌∙◌, Bool, true, false, Option, none, some, inl, inr,
  List, [], ◌∷◌, set, get_or, replicate, length, Bool-cases, arith,
}
use mathlib.Core.Path.{subst}
use xbks.CString.{codes}
use xbks.Ramdisk.Files
use xbks.Ramdisk.Files.{LimineFile}
use xbks.Mm.Frames.{Mm}
use xbks.Process.Types.{
  unused, running, Process, SyscallFrame, Hardware, Kernel, max_processes, zero_process, process_at,
  int_max,
}
use xbks.Process.Table.{first_unused, new_process, allocate_process}
use xbks.Process.Load.{load_program}
use xbks.Process.Life.{returns, start_init}
use xbks.Process.Dispatch.{call_of_number, syscall_dispatch}
use xbks.Process.Invariant.{
  is_live, HasConsole, state_of, IsSound, SameCore-IsSound, SameCore-of_eq,
}
use xbks.Process.Images.{Leaves, load_program-SameProcess}
use xbks.Process.Changes.{new_process-HasConsole, HasConsole-of_fds}
use xbks.Process.Sound.{dispatch-IsSound}
use xbks.Process.Pids.{pids_of, HasTaken, dispatch-HasTaken}

module _ {H : Type 0} (hw : Hardware H) where
  -- The kernels that come after a kernel, by system calls that return, a number of them vforks, and
  -- by user code, which changes the memory and the devices.
  pub data IsReachable (k₀ : Kernel H) : ℕ → Kernel H → Type 0 where
    start : IsReachable k₀ 0 k₀
    called :
        {n : ℕ} {k k' : Kernel H} (frame frame' : SyscallFrame) (v : ℕ)
        → IsReachable k₀ n k
        → syscall_dispatch hw k frame ≡ returns v frame' k'
        → IsReachable k₀ (n + pids_of (call_of_number frame.rax)) k'
    user_ran :
        {n : ℕ} {k : Kernel H} (m : Mm) (h : H)
        → IsReachable k₀ n k
        → IsReachable k₀ n (record k { mm = m; machine = h })

-- What the start of the first process leaves: a sound table, or an empty one.
abbrev pub IsStarted : {H : Type 0} → Bool × Kernel H → Type 0
IsStarted (true, k) = IsSound k
IsStarted (false, k) = k.processes ≡ replicate max_processes zero_process

get_or-replicate : (n j : ℕ) → get_or (replicate n zero_process) j zero_process ≡ zero_process
get_or-replicate zero j = refl
get_or-replicate (suc n) zero = refl
get_or-replicate (suc n) (suc j) = get_or-replicate n j

-- A table with one process, which runs.
pub alone-IsSound :
    {H : Type 0} (k : Kernel H) (p : Process)
    → k.processes ≡ p ∷ replicate 15 zero_process
    → k.current ≡ 0
    → p.state ≡ running
    → p.pid < k.next_pid
    → p.vfork_parent ≡ none
    → HasConsole p
    → IsSound k
alone-IsSound k p table current st pid link console = record {
  slots = ap length table;
  current_in = rw current (omega arith);
  current_runs = ap (state_of k) current ∙ ap (λ (q : Process). q.state) first ∙ st;
  one_runs = elim [ zero ↦ λ ne. absurd (ne (sym current)) | suc i ↦ λ ne r. cc (rest i, r) ];
  pids = elim [ zero ↦ λ u. rw first pid | suc i ↦ λ u. absurd (u (rest i)) ];
  distinct = elim [
    | zero ↦ elim [ zero ↦ λ ne u v. absurd (ne refl) | suc j ↦ λ ne u v. absurd (v (rest j)) ]
    | suc i ↦ λ j ne u v. absurd (u (rest i))
  ];
  parent_waits = elim [
    | zero ↦ λ j l e. cc (e, ap (λ (q : Process). q.vfork_parent) first, link)
    | suc i ↦ λ j l e. cc (l, ap is_live (rest i))
  ];
  waits_for = elim [
    | zero ↦ λ b. cc (b, ap (λ (q : Process). q.state) first, st)
    | suc j ↦ λ b. cc (b, rest j)
  ];
  one_child = elim [
    | zero ↦ elim [
      | zero ↦ λ j l l' e e'. refl
      | suc i' ↦ λ j l l' e e'. cc (l', ap is_live (rest i'))
    ]
    | suc i ↦ λ i' j l l' e e'. cc (l, ap is_live (rest i))
  ];
  consoles = elim [
    | zero ↦ λ u. subst HasConsole (sym first) console
    | suc i ↦ λ u. absurd (u (rest i))
  ];
}
  where
    first : process_at k 0 ≡ p
    first = ap (λ (ps : List Process). get_or ps 0 zero_process) table

    rest : (j : ℕ) → state_of k (suc j) ≡ unused
    rest j =
        ap (λ (ps : List Process). (get_or ps (suc j) zero_process).state) table
        ∙ ap (λ (q : Process). q.state) (get_or-replicate 15 j)

module _ {H : Type 0} (hw : Hardware H) where
  first_free :
      (ps : List Process) → ps ≡ replicate max_processes zero_process → first_unused ps 0 ≡ some 0
  unfolding first_unused
  first_free ps e = rw e refl

  -- Started with an empty process table and a next pid below INT_MAX, the start of the first
  -- process leaves a sound table where it succeeds, and an empty table where it fails.
  pub start_init-IsStarted :
      (k : Kernel H) (modules : Option (List (Option LimineFile)))
      → k.processes ≡ replicate max_processes zero_process
      → k.next_pid < int_max
      → IsStarted (start_init hw k modules)
  unfolding start_init allocate_process new_process
  start_init-IsStarted k modules table room =
      let r = Files.init modules in
      elim (Bool-cases r.available) [
        | inr missing ↦ rw missing table
        | inl ready ↦
            let free : first_unused k.processes 0 ≡ some 0 = first_free k.processes table in
            let new = new_process k.next_pid in
            let ps = set k.processes 0 new in
            let slot : get_or ps 0 zero_process ≡ new =
              ap (λ (l : List Process). get_or (set l 0 new) 0 zero_process) table in
            let loading =
              load_program r k.mm (get_or ps 0 zero_process) (codes "/bin/xsh") (codes "xsh" ∷ [])
                (codes "PATH=/bin:/sbin:/usr/bin" ∷ []) in
            let same =
              load_program-SameProcess r k.mm (get_or ps 0 zero_process) (codes "/bin/xsh")
                (codes "xsh" ∷ []) (codes "PATH=/bin:/sbin:/usr/bin" ∷ []) in
            rw (ready, free, start_init, allocate_process)
              (elim (Bool-cases loading.0) [
                | inr failed ↦
                    rw failed (ap (λ (l : List Process). set (set l 0 new) 0 zero_process) table)
                | inl loaded ↦ rw loaded (
                    alone-IsSound _ loading.1
                      (ap (λ (l : List Process). set (set l 0 new) 0 loading.1) table) refl
                      (same.state ∙ ap (λ (q : Process). q.state) slot)
                      (omega (arith, room, same.pid, ap (λ (q : Process). q.pid) slot))
                      (same.vfork_parent ∙ ap (λ (q : Process). q.vfork_parent) slot)
                      (HasConsole-of_fds new loading.1 (same.fds ∙ ap (λ (q : Process). q.fds) slot)
                        (new_process-HasConsole k.next_pid)))
              ])
      ]

  Sound_after :
      (k₀ k : Kernel H) (n : ℕ)
      → IsSound k₀
      → k₀.next_pid + n < int_max
      → IsReachable hw k₀ n k
      → IsSound k × HasTaken k₀ n k
  Sound_after k₀ _ _ s room start = (s, omega arith)
  Sound_after k₀ k' _ s room (called {n} {k} frame frame' v r e) =
      let p = pids_of (call_of_number frame.rax) in
      let (sound, taken) = Sound_after k₀ k n s (omega (arith, room)) r in
      let more : HasTaken k p k' =
        subst (Leaves (HasTaken k p)) e (dispatch-HasTaken hw k frame sound) in
      (
        subst (Leaves IsSound) e (dispatch-IsSound hw k frame sound (omega (arith, taken, room))),
        omega (arith, taken, more),
      )
  Sound_after k₀ _ n s room (user_ran {k = k} m h r) =
      let (sound, taken) = Sound_after k₀ k n s room r in
      (SameCore-IsSound _ _ (SameCore-of_eq _ _ refl refl refl) sound, taken)

  -- From a kernel whose process table is sound, every kernel that is reached by system calls that
  -- return, n of them vforks, and by user code that changes the memory and the devices is sound,
  -- if the kernel's next pid and n make less than INT_MAX: 16 slots; the current process, and no
  -- other, runs; the pids in use are distinct and below the next one; a process is blocked exactly
  -- while one running or blocked child of its vfork is there; and every process in use has its
  -- three console descriptors.
  pub reachable-IsSound :
      (k₀ k : Kernel H) (n : ℕ)
      → IsSound k₀
      → k₀.next_pid + n < int_max
      → IsReachable hw k₀ n k
      → IsSound k
  reachable-IsSound k₀ k n s room r = (Sound_after k₀ k n s room r).0
