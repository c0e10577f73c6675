-- ===== src/Process/Exited.antt =====
-- An exit of kernel/process.c keeps the invariant: the process is a zombie, and the parent that
-- waited for it runs.
use xbks.Prelude.{
  ℕ, ◌<◌, ◌≡◌, ◌≢◌, inl, inr, sym, ap, ◌∙◌, true, some, some_inj, length, Bool-cases, ◌==◌, arith,
}
use xbks.Process.Types.{unused, running, blocked, zombie, Kernel, process_at}
use xbks.Process.Invariant.{is_live, HasConsole, state_of, IsSound, in_table}

-- What `syscall_exit` does to the table where the process has a vfork parent `p`.
pub record Exited {H : Type 0} (k k' : Kernel H) (p : ℕ) : Type 0 where
  pub size : length k'.processes ≡ length k.processes
  pub link : (process_at k k.current).vfork_parent ≡ some p
  pub current : k'.current ≡ p
  pub next_pid : k'.next_pid ≡ k.next_pid
  pub ended : state_of k' k.current ≡ zombie
  pub parent_runs : p < length k.processes → state_of k' p ≡ running
  pub others : (j : ℕ) → j ≢ p → j ≢ k.current → state_of k' j ≡ state_of k j
  pub pids : (j : ℕ) → (process_at k' j).pid ≡ (process_at k j).pid
  pub links : (j : ℕ) → (process_at k' j).vfork_parent ≡ (process_at k j).vfork_parent
  pub consoles : (j : ℕ) → HasConsole (process_at k j) → HasConsole (process_at k' j)

module _ {H : Type 0} {k k' : Kernel H} {p : ℕ} (x : Exited k k' p) (s : IsSound k) where
  parent_blocked : state_of k p ≡ blocked
  parent_blocked = s.parent_waits k.current p (ap is_live s.current_runs) x.link

  -- A blocked slot is inside the table.
  parent_in : p < length k.processes
  parent_in = in_table k.processes p (rw parent_blocked (ground arith))

  parent_apart : p ≢ k.current
  parent_apart e = cc (rw e at parent_blocked, s.current_runs)

  p_runs : state_of k' p ≡ running
  p_runs = x.parent_runs parent_in

  live_keeps : (j : ℕ) → j ≢ k.current → is_live (state_of k' j) ≡ is_live (state_of k j)
  live_keeps j ne = elim (Bool-cases (j == p)) [
    | inl e ↦
        let e' : j ≡ p = ground arith in rw e' (ap is_live p_runs ∙ sym (ap is_live parent_blocked))
    | inr other ↦ ap is_live (x.others j (ground arith) ne)
  ]

  not_ended : (j : ℕ) → is_live (state_of k' j) ≡ true → j ≢ k.current
  not_ended j l e = cc (rw e at l, ap is_live x.ended)

  used_before : (j : ℕ) → state_of k' j ≢ unused → state_of k j ≢ unused
  used_before j u = elim (Bool-cases (j == p)) [
    | inl e ↦ let e' : j ≡ p = ground arith in rw (e', parent_blocked) (ground arith)
    | inr other ↦ elim (Bool-cases (j == k.current)) [
      | inl e ↦ let e' : j ≡ k.current = ground arith in rw (e', s.current_runs) (ground arith)
      | inr third ↦ λ e. u (x.others j (ground arith) (ground arith) ∙ e)
    ]
  ]

  live_before : (j : ℕ) → is_live (state_of k' j) ≡ true → is_live (state_of k j) ≡ true
  live_before j l = sym (live_keeps j (not_ended j l)) ∙ l

  link_before :
      (j l : ℕ) → (process_at k' j).vfork_parent ≡ some l → (process_at k j).vfork_parent ≡ some l
  link_before j l e = sym (x.links j) ∙ e

  -- The invariant holds after the call.
  pub Exited-IsSound : IsSound k'
  Exited-IsSound = record {
    slots = x.size ∙ s.slots;
    current_in = rw x.current (omega (arith, parent_in, s.slots));
    current_runs = rw x.current p_runs;
    one_runs = λ j ne. elim (Bool-cases (j == k.current)) [
      | inl e ↦ let e' : j ≡ k.current = ground arith in rw (e', x.ended) (ground arith)
      | inr other ↦
          rw (x.others j (rw x.current at ne) (ground arith)) (s.one_runs j (ground arith))
    ];
    pids = λ j u. rw (x.pids j, x.next_pid) (s.pids j (used_before j u));
    distinct = λ i j ne u v.
        rw (x.pids i, x.pids j) (s.distinct i j ne (used_before i u) (used_before j v));
    parent_waits = λ i j l link.
        let b : state_of k j ≡ blocked =
          s.parent_waits i j (live_before i l) (link_before i j link) in
        x.others j
          (λ e. not_ended i l (
            s.one_child i k.current j (live_before i l) (ap is_live s.current_runs)
              (link_before i j link) (rw e x.link)))
          (λ e. cc (rw e at b, s.current_runs))
        ∙ b;
    waits_for = λ j b.
        let not_parent : j ≢ p = λ e. cc (rw e at b, p_runs) in
        let not_current : j ≢ k.current = λ e. cc (rw e at b, x.ended) in
        let (w, l, link) = s.waits_for j (sym (x.others j not_parent not_current) ∙ b) in
        let still : w ≢ k.current = λ e. not_parent (some_inj (sym (rw e at link) ∙ x.link)) in
        (w, live_keeps w still ∙ l, x.links w ∙ link);
    one_child = λ i i' j l l' link link'.
        s.one_child i i' j (live_before i l) (live_before i' l') (link_before i j link)
          (link_before i' j link');
    consoles = λ j u. x.consoles j (s.consoles j (used_before j u));
  }
