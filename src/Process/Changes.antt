-- ===== src/Process/Changes.antt =====
-- What vfork, exit and wait4 of kernel/process.c do to the process table.
use xbks.Prelude.{
  ℕ, zero, suc, ◌+◌, ◌<◌, ◌≤◌, ◌≡◌, ◌≢◌, inl, inr, refl, sym, ap, ◌∙◌, true, false, some, List, [],
  ◌∷◌, length, set, get_or, length-set, get_or-set_self, get_or-set_ne, Bool-cases, arith,
}
use xbks.Process.Types.{
  ProcessState, unused, running, blocked, zombie, Process, Kernel, zero_process, process_at,
  ProcessFd, zero_fd,
}
use xbks.Process.Table.{is_unused, first_unused, new_process}
use xbks.Process.Life.{is_zombie, can_reap, first_child}
use xbks.Process.Invariant.{is_live, HasConsole, state_of, IsSound}
use xbks.Process.Forked.{Forked}
use xbks.Process.Cleared.{Cleared}

-- `allocate_process` takes the first unused slot.
first_unused_lem :
    (ps : List Process) (i n : ℕ)
    → first_unused ps i ≡ some n
    → (m : ℕ) × (n ≡ i + m) × (m < length ps) × ((get_or ps m zero_process).state ≡ unused)
unfolding first_unused
first_unused_lem [] i n e = absurd (ground arith)
first_unused_lem (p ∷ ps) i n e = elim (Bool-cases (is_unused p.state)) [
  | inl free ↦ (0, ground arith, omega arith, ground arith)
  | inr used ↦
      let (m, at, bound, free) = first_unused_lem ps (i + 1) n (ground arith) in
      (suc m, omega arith, omega arith, free)
]

pub first_child_lem :
    {H : Type 0} (k : Kernel H) (pid : ℕ) (ps : List Process) (i n : ℕ)
    → first_child k pid ps i ≡ some n
    → (m : ℕ) × (n ≡ i + m) × (m < length ps) × (can_reap k pid (get_or ps m zero_process) ≡ true)
unfolding first_child
first_child_lem k pid [] i n e = absurd (ground arith)
first_child_lem k pid (p ∷ ps) i n e = elim (Bool-cases (can_reap k pid p)) [
  | inl fits ↦ (0, ground arith, omega arith, fits)
  | inr other ↦
      let (m, at, bound, fits) = first_child_lem k pid ps (i + 1) n (ground arith) in
      (suc m, omega arith, omega arith, fits)
]

-- The slot that `allocate_process` fills.
pub slot_free :
    {H : Type 0} (k : Kernel H) (i : ℕ)
    → first_unused k.processes 0 ≡ some i
    → (i < length k.processes) × (state_of k i ≡ unused)
slot_free k i e =
    let (m, at, bound, free) = first_unused_lem k.processes 0 i e in
    let i' : i ≡ m = omega arith in (rw i' bound, rw i' free)

pub new_process-HasConsole : (pid : ℕ) → HasConsole (new_process pid)
unfolding new_process
new_process-HasConsole pid = record { count = refl; input = refl; output = refl; error = refl }

pub HasConsole-of_fds : (p q : Process) → q.fds ≡ p.fds → HasConsole p → HasConsole q
HasConsole-of_fds p q e c = record {
  count = ap length e ∙ c.count;
  input = ap (λ (l : List ProcessFd). (get_or l 0 zero_fd).kind) e ∙ c.input;
  output = ap (λ (l : List ProcessFd). (get_or l 1 zero_fd).kind) e ∙ c.output;
  error = ap (λ (l : List ProcessFd). (get_or l 2 zero_fd).kind) e ∙ c.error;
}

pub set_twice : (ps : List Process) (i : ℕ) (x y : Process) → set (set ps i x) i y ≡ set ps i y
set_twice [] i x y = refl
set_twice (p ∷ ps) zero x y = refl
set_twice (p ∷ ps) (suc i) x y = ap (λ l. p ∷ l) (set_twice ps i x y)

pub not_live : (st : ProcessState) → is_zombie st ≡ true → is_live st ≡ false
not_live zombie e = refl
not_live unused e = refl
not_live running e = absurd (ground arith)
not_live blocked e = absurd (ground arith)

pub cleared :
    {H : Type 0} (k k' : Kernel H) (i : ℕ)
    → is_live (state_of k i) ≡ false
    → k'.processes ≡ set k.processes i zero_process
    → k'.current ≡ k.current
    → k.next_pid ≤ k'.next_pid
    → Cleared k k' i
cleared k k' i d ps c n = record { dead = d; processes = ps; current = c; next_pid = n }

-- The table of a `syscall_vfork` that succeeds.
module _ {H : Type 0} (k k' : Kernel H) (i : ℕ) (first child : Process) (s : IsSound k)
    (bound : i < length k.processes) (free : state_of k i ≡ unused) where
  unfoldable pub parent : Process
  parent = get_or (set k.processes i first) k.current zero_process

  unfoldable pub two : List Process
  two = set (set k.processes i first) i child

  apart : i ≢ k.current
  apart e = cc (rw e at free, s.current_runs)

  parent-same : parent ≡ process_at k k.current
  unfolding parent
  parent-same = get_or-set_ne k.processes i k.current first zero_process apart

  module _ (table : k'.processes ≡ set two k.current (record parent { state = blocked })) where
    look :
        (j : ℕ)
        → process_at k' j
          ≡ get_or (set two k.current (record parent { state = blocked })) j zero_process
    look j = ap (λ (ps : List Process). get_or ps j zero_process) table

    at_child : process_at k' i ≡ child
    unfolding two
    at_child =
        look i
        ∙ get_or-set_ne two k.current i _ zero_process (λ e. apart (sym e))
        ∙ get_or-set_self (set k.processes i first) i child zero_process
            (rw (length-set k.processes i first) bound)

    at_parent : process_at k' k.current ≡ record parent { state = blocked }
    unfolding two
    at_parent =
        look k.current
        ∙ get_or-set_self two k.current _ zero_process (
            rw
              (
                length-set (set k.processes i first) i child,
                length-set k.processes i first,
                s.slots,
              )
              s.current_in)

    at_others : (j : ℕ) → j ≢ i → j ≢ k.current → process_at k' j ≡ process_at k j
    unfolding two
    at_others j ne other =
        look j
        ∙ get_or-set_ne two k.current j _ zero_process (λ e. other (sym e))
        ∙ get_or-set_ne (set k.processes i first) i j child zero_process (λ e. ne (sym e))
        ∙ get_or-set_ne k.processes i j first zero_process (λ e. ne (sym e))

    table_size : length k'.processes ≡ length k.processes
    unfolding two
    table_size =
        ap length table
        ∙ length-set two k.current _
        ∙ length-set (set k.processes i first) i child
        ∙ length-set k.processes i first

    pub forked :
        k'.current ≡ i
        → k'.next_pid ≡ k.next_pid + 1
        → child.state ≡ running
        → child.pid ≡ k.next_pid
        → child.vfork_parent ≡ some k.current
        → child.fds ≡ parent.fds
        → Forked k k' i
    unfolding parent-same
    forked current next st pid link fds = record {
      size = table_size;
      in_table = rw s.slots at bound;
      apart = apart;
      free = free;
      current = current;
      next_pid = next;
      child_runs = ap (λ (p : Process). p.state) at_child ∙ st;
      child_pid = ap (λ (p : Process). p.pid) at_child ∙ pid;
      child_link = ap (λ (p : Process). p.vfork_parent) at_child ∙ link;
      child_console =
          HasConsole-of_fds (process_at k k.current) (process_at k' i)
            (ap (λ (p : Process). p.fds) at_child ∙ fds ∙ ap (λ (p : Process). p.fds) parent-same)
            (s.consoles k.current (rw s.current_runs (ground arith)));
      parent_blocked = ap (λ (p : Process). p.state) at_parent;
      parent_pid = ap (λ (p : Process). p.pid) at_parent ∙ ap (λ (p : Process). p.pid) parent-same;
      parent_link =
          ap (λ (p : Process). p.vfork_parent) at_parent
          ∙ ap (λ (p : Process). p.vfork_parent) parent-same;
      parent_console =
          HasConsole-of_fds (process_at k k.current) (process_at k' k.current)
            (ap (λ (p : Process). p.fds) at_parent ∙ ap (λ (p : Process). p.fds) parent-same);
      others = at_others;
    }
