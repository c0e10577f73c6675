-- ===== src/Process/Invariant.antt =====
-- The invariant of the process table of kernel/process.c, and when a step keeps it.
use xbks.Prelude.{
  ℕ, zero, suc, ◌<◌, ◌≤◌, ◌≡◌, ◌≢◌, ◌⊎◌, inl, inr, refl, ap, sym, ◌∙◌, Bool, true, false, some,
  List, [], ◌∷◌, set, get_or, length, get_or-set_self, get_or-set_ne, length-set, Bool-cases, ◌==◌,
  arith,
}
use mathlib.Core.Path.{subst}
use xbks.Process.Types.{
  ProcessState, unused, running, blocked, fd_stdin, fd_stdout, fd_stderr, Process, ProcessFd,
  Kernel, zero_process, zero_fd, process_at, put_process, current_process, fd_at, put_fd,
  max_processes, max_fds,
}

-- A process that will run again.
abbrev pub is_live : ProcessState → Bool
is_live running = true
is_live blocked = true
is_live _ = false

-- Sixteen descriptors, the first three the console's.
pub record HasConsole (p : Process) : Type 0 where
  pub count : length p.fds ≡ max_fds
  pub input : (fd_at p 0).kind ≡ fd_stdin
  pub output : (fd_at p 1).kind ≡ fd_stdout
  pub error : (fd_at p 2).kind ≡ fd_stderr

set_kind :
    (xs : List ProcessFd) (i : ℕ) (x : ProcessFd)
    → x.kind ≡ (get_or xs i zero_fd).kind
    → (get_or (set xs i x) i zero_fd).kind ≡ (get_or xs i zero_fd).kind
set_kind [] i x e = refl
set_kind (y ∷ ys) zero x e = e
set_kind (y ∷ ys) (suc i) x e = set_kind ys i x e

-- A slot in use is inside the table.
pub in_table :
    (ps : List Process) (i : ℕ) → (get_or ps i zero_process).state ≢ unused → i < length ps
in_table [] i u = absurd (u refl)
in_table (p ∷ ps) zero u = omega arith
in_table (p ∷ ps) (suc i) u = omega (arith, in_table ps i u)

module _ {H : Type 0} where
  abbrev pub state_of : Kernel H → ℕ → ProcessState
  state_of k i = (process_at k i).state

  -- Exactly one process runs, and it is the current one; the pids in use are distinct and below the
  -- next one; a process is blocked exactly while one live child of its vfork holds its memory.
  pub record IsSound (k : Kernel H) : Type 0 where
    pub slots : length k.processes ≡ max_processes
    pub current_in : k.current < max_processes
    pub current_runs : state_of k k.current ≡ running
    pub one_runs : (i : ℕ) → i ≢ k.current → state_of k i ≢ running
    pub pids : (i : ℕ) → state_of k i ≢ unused → (process_at k i).pid < k.next_pid
    pub distinct :
        (i j : ℕ)
        → i ≢ j
        → state_of k i ≢ unused
        → state_of k j ≢ unused
        → (process_at k i).pid ≢ (process_at k j).pid
    pub parent_waits :
        (i j : ℕ)
        → is_live (state_of k i) ≡ true
        → (process_at k i).vfork_parent ≡ some j
        → state_of k j ≡ blocked
    pub waits_for :
        (j : ℕ)
        → state_of k j ≡ blocked
        → (i : ℕ) × (is_live (state_of k i) ≡ true) × ((process_at k i).vfork_parent ≡ some j)
    pub one_child :
        (i i' j : ℕ)
        → is_live (state_of k i) ≡ true
        → is_live (state_of k i') ≡ true
        → (process_at k i).vfork_parent ≡ some j
        → (process_at k i').vfork_parent ≡ some j
        → i ≡ i'
    pub consoles : (i : ℕ) → state_of k i ≢ unused → HasConsole (process_at k i)

  -- A step that leaves states, pids and links alone.
  pub record SameCore (k k' : Kernel H) : Type 0 where
    pub size : length k'.processes ≡ length k.processes
    pub current : k'.current ≡ k.current
    pub next_pid : k'.next_pid ≡ k.next_pid
    pub state : (i : ℕ) → state_of k' i ≡ state_of k i
    pub pid : (i : ℕ) → (process_at k' i).pid ≡ (process_at k i).pid
    pub vfork_parent : (i : ℕ) → (process_at k' i).vfork_parent ≡ (process_at k i).vfork_parent
    pub console : (i : ℕ) → HasConsole (process_at k i) → HasConsole (process_at k' i)

  pub SameCore-IsSound : (k k' : Kernel H) → SameCore k k' → IsSound k → IsSound k'
  SameCore-IsSound k k' c s = record {
    slots = c.size ∙ s.slots;
    current_in = rw c.current s.current_in;
    current_runs = rw (c.current, c.state k.current) s.current_runs;
    one_runs = λ i ne. rw (c.state i) (s.one_runs i (rw c.current at ne));
    pids = λ i u. rw (c.pid i, c.next_pid) (s.pids i (rw (c.state i) at u));
    distinct = λ i j ne u v.
        rw (c.pid i, c.pid j) (s.distinct i j ne (rw (c.state i) at u) (rw (c.state j) at v));
    parent_waits = λ i j l p.
        rw (c.state j) (s.parent_waits i j (rw (c.state i) at l) (rw (c.vfork_parent i) at p));
    waits_for = λ j b.
        let (i, l, p) = s.waits_for j (rw (c.state j) at b) in
        (i, rw (c.state i) l, rw (c.vfork_parent i) p);
    one_child = λ i i' j l l' p p'.
        s.one_child i i' j (rw (c.state i) at l) (rw (c.state i') at l')
          (rw (c.vfork_parent i) at p) (rw (c.vfork_parent i') at p');
    consoles = λ i u. c.console i (s.consoles i (rw (c.state i) at u));
  }

  pub SameCore-current_in :
      (k k' : Kernel H)
      → SameCore k k'
      → k.current < length k.processes
      → k'.current < length k'.processes
  SameCore-current_in k k' c h = rw (c.current, c.size) h

  pub SameCore-trans : (k k' k'' : Kernel H) → SameCore k k' → SameCore k' k'' → SameCore k k''
  SameCore-trans k k' k'' a b = record {
    size = b.size ∙ a.size;
    current = b.current ∙ a.current;
    next_pid = b.next_pid ∙ a.next_pid;
    state = λ i. b.state i ∙ a.state i;
    pid = λ i. b.pid i ∙ a.pid i;
    vfork_parent = λ i. b.vfork_parent i ∙ a.vfork_parent i;
    console = λ i h. b.console i (a.console i h);
  }

  -- The memory and the machine are no part of it.
  pub SameCore-of_eq :
      (k k' : Kernel H)
      → k'.processes ≡ k.processes
      → k'.current ≡ k.current
      → k'.next_pid ≡ k.next_pid
      → SameCore k k'
  SameCore-of_eq k k' ps c n = record {
    size = ap length ps;
    current = c;
    next_pid = n;
    state = λ i. ap (λ (l : List Process). (get_or l i zero_process).state) ps;
    pid = λ i. ap (λ (l : List Process). (get_or l i zero_process).pid) ps;
    vfork_parent = λ i. ap (λ (l : List Process). (get_or l i zero_process).vfork_parent) ps;
    console = λ i h. rw ps h;
  }

  pub process_at-put_self :
      (k : Kernel H) (i : ℕ) (p : Process)
      → i < length k.processes
      → process_at (put_process k i p) i ≡ p
  process_at-put_self k i p h = get_or-set_self k.processes i p zero_process h

  pub process_at-put_ne :
      (k : Kernel H) (i j : ℕ) (p : Process)
      → i ≢ j
      → process_at (put_process k i p) j ≡ process_at k j
  process_at-put_ne k i j p ne = get_or-set_ne k.processes i j p zero_process ne

  -- A process replaced by one with the same state, pid and link.
  pub SameCore-put :
      (k : Kernel H) (i : ℕ) (p : Process)
      → i < length k.processes
      → p.state ≡ state_of k i
      → p.pid ≡ (process_at k i).pid
      → p.vfork_parent ≡ (process_at k i).vfork_parent
      → (HasConsole (process_at k i) → HasConsole p)
      → SameCore k (put_process k i p)
  SameCore-put k i p h st pid link con = record {
    size = length-set k.processes i p;
    current = refl;
    next_pid = refl;
    state = λ j. elim (Bool-cases (i == j)) [
      | inl e ↦
          let e' : j ≡ i = ground arith in
          rw e' (ap (λ (q : Process). q.state) (process_at-put_self k i p h) ∙ st)
      | inr ne ↦ ap (λ (q : Process). q.state) (process_at-put_ne k i j p (ground arith))
    ];
    pid = λ j. elim (Bool-cases (i == j)) [
      | inl e ↦
          let e' : j ≡ i = ground arith in
          rw e' (ap (λ (q : Process). q.pid) (process_at-put_self k i p h) ∙ pid)
      | inr ne ↦ ap (λ (q : Process). q.pid) (process_at-put_ne k i j p (ground arith))
    ];
    vfork_parent = λ j. elim (Bool-cases (i == j)) [
      | inl e ↦
          let e' : j ≡ i = ground arith in
          rw e' (ap (λ (q : Process). q.vfork_parent) (process_at-put_self k i p h) ∙ link)
      | inr ne ↦ ap (λ (q : Process). q.vfork_parent) (process_at-put_ne k i j p (ground arith))
    ];
    console = λ j c. elim (Bool-cases (i == j)) [
      | inl e ↦
          let e' : j ≡ i = ground arith in
          rw e' (subst HasConsole (sym (process_at-put_self k i p h)) (con (rw e' at c)))
      | inr ne ↦ subst HasConsole (sym (process_at-put_ne k i j p (ground arith))) c
    ];
  }

  -- A descriptor behind the console's replaced, or one that keeps its kind.
  pub SameCore-put_fd :
      (k : Kernel H) (fd : ℕ) (x : ProcessFd)
      → k.current < length k.processes
      → (2 < fd) ⊎ (x.kind ≡ (fd_at (current_process k) fd).kind)
      → SameCore k (put_fd k fd x)
  SameCore-put_fd k fd x h keeps = SameCore-put k k.current _ h refl refl refl λ c. record {
    count = length-set (current_process k).fds fd x ∙ c.count;
    input = kept 0 (omega arith) ∙ c.input;
    output = kept 1 (omega arith) ∙ c.output;
    error = kept 2 (omega arith) ∙ c.error;
  }
    where
      fds : List ProcessFd
      fds = (current_process k).fds

      kept : (n : ℕ) → n ≤ 2 → (get_or (set fds fd x) n zero_fd).kind ≡ (get_or fds n zero_fd).kind
      kept n le = elim (Bool-cases (fd == n)) [
        | inr ne ↦ ap (λ (y : ProcessFd). y.kind) (get_or-set_ne fds fd n x zero_fd (ground arith))
        | inl e ↦ elim keeps [
          | inl above ↦ absurd (ground arith)
          | inr same ↦ let e' : n ≡ fd = ground arith in rw e' (set_kind fds fd x same)
        ]
      ]
