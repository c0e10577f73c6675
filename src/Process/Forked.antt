-- ===== src/Process/Forked.antt =====
-- A vfork of kernel/process.c keeps the invariant: the child runs in an unused slot, its parent
-- waits.
use xbks.Prelude.{
  ℕ, ◌+◌, ◌<◌, ◌≡◌, ◌≢◌, inl, inr, sym, ap, ◌∙◌, true, some, some_inj, length, Bool-cases, ◌==◌,
  arith,
}
use mathlib.Core.Path.{subst}
use xbks.Process.Types.{unused, running, blocked, Process, Kernel, process_at, max_processes}
use xbks.Process.Invariant.{is_live, HasConsole, state_of, IsSound}

-- What `syscall_vfork` does to the table.
pub record Forked {H : Type 0} (k k' : Kernel H) (i : ℕ) : Type 0 where
  pub size : length k'.processes ≡ length k.processes
  pub in_table : i < max_processes
  pub apart : i ≢ k.current
  pub free : state_of k i ≡ unused
  pub current : k'.current ≡ i
  pub next_pid : k'.next_pid ≡ k.next_pid + 1
  pub child_runs : state_of k' i ≡ running
  pub child_pid : (process_at k' i).pid ≡ k.next_pid
  pub child_link : (process_at k' i).vfork_parent ≡ some k.current
  pub child_console : HasConsole (process_at k' i)
  pub parent_blocked : state_of k' k.current ≡ blocked
  pub parent_pid : (process_at k' k.current).pid ≡ (process_at k k.current).pid
  pub parent_link : (process_at k' k.current).vfork_parent ≡ (process_at k k.current).vfork_parent
  pub parent_console : HasConsole (process_at k k.current) → HasConsole (process_at k' k.current)
  pub others : (j : ℕ) → j ≢ i → j ≢ k.current → process_at k' j ≡ process_at k j

module _ {H : Type 0} {k k' : Kernel H} {i : ℕ} (f : Forked k k' i) (s : IsSound k) where
  pid_keeps : (j : ℕ) → j ≢ i → (process_at k' j).pid ≡ (process_at k j).pid
  pid_keeps j ne = elim (Bool-cases (j == k.current)) [
    | inl e ↦ let e' : j ≡ k.current = ground arith in rw e' f.parent_pid
    | inr other ↦ ap (λ (p : Process). p.pid) (f.others j ne (ground arith))
  ]

  link_keeps : (j : ℕ) → j ≢ i → (process_at k' j).vfork_parent ≡ (process_at k j).vfork_parent
  link_keeps j ne = elim (Bool-cases (j == k.current)) [
    | inl e ↦ let e' : j ≡ k.current = ground arith in rw e' f.parent_link
    | inr other ↦ ap (λ (p : Process). p.vfork_parent) (f.others j ne (ground arith))
  ]

  state_keeps : (j : ℕ) → j ≢ i → j ≢ k.current → state_of k' j ≡ state_of k j
  state_keeps j ne other = ap (λ (p : Process). p.state) (f.others j ne other)

  live_keeps : (j : ℕ) → j ≢ i → is_live (state_of k' j) ≡ is_live (state_of k j)
  live_keeps j ne = elim (Bool-cases (j == k.current)) [
    | inl e ↦
        let e' : j ≡ k.current = ground arith in
        rw e' (ap is_live f.parent_blocked ∙ sym (ap is_live s.current_runs))
    | inr other ↦ ap is_live (state_keeps j ne (ground arith))
  ]

  used_before : (j : ℕ) → j ≢ i → state_of k' j ≢ unused → state_of k j ≢ unused
  used_before j ne u = elim (Bool-cases (j == k.current)) [
    | inl e ↦ let e' : j ≡ k.current = ground arith in rw (e', s.current_runs) (ground arith)
    | inr other ↦ λ e. u (state_keeps j ne (ground arith) ∙ e)
  ]

  not_free_of_live : (j : ℕ) → is_live (state_of k j) ≡ true → j ≢ i
  not_free_of_live j l e = let e' : state_of k j ≡ unused = rw e f.free in cc (ap is_live e')

  blocked_keeps : (j : ℕ) → state_of k j ≡ blocked → state_of k' j ≡ blocked
  blocked_keeps j b =
      state_keeps j (not_free_of_live j (ap is_live b)) (λ e. cc (rw e at b, s.current_runs)) ∙ b

  fresh_pid :
      (j : ℕ) → j ≢ i → state_of k' j ≢ unused → (process_at k' i).pid ≢ (process_at k' j).pid
  fresh_pid j ne u e =
      absurd (omega (arith, pid_keeps j ne, f.child_pid, s.pids j (used_before j ne u)))

  -- The caller had no live child.
  no_other_child :
      (j l : ℕ)
      → j ≢ i
      → is_live (state_of k' j) ≡ true
      → (process_at k' j).vfork_parent ≡ some l
      → (process_at k' i).vfork_parent ≡ some l
      → ⊥
  no_other_child j l ne live link child =
      let l' : l ≡ k.current = some_inj (sym child ∙ f.child_link) in
      let b : state_of k l ≡ blocked =
        s.parent_waits j l (sym (live_keeps j ne) ∙ live) (sym (link_keeps j ne) ∙ link) in
      cc (rw l' at b, s.current_runs)

  -- The invariant holds after the call.
  pub Forked-IsSound : IsSound k'
  Forked-IsSound = record {
    slots = f.size ∙ s.slots;
    current_in = rw f.current f.in_table;
    current_runs = rw f.current f.child_runs;
    one_runs = λ j ne. elim (Bool-cases (j == k.current)) [
      | inl e ↦ let e' : j ≡ k.current = ground arith in rw (e', f.parent_blocked) (ground arith)
      | inr other ↦
          rw (state_keeps j (rw f.current at ne) (ground arith)) (s.one_runs j (ground arith))
    ];
    pids = λ j u. elim (Bool-cases (j == i)) [
      | inl e ↦ let e' : j ≡ i = ground arith in rw e' (omega (arith, f.child_pid, f.next_pid))
      | inr old ↦
          omega (
            arith,
            pid_keeps j (ground arith),
            f.next_pid,
            s.pids j (used_before j (ground arith) u),
          )
    ];
    distinct = λ j l ne u v. elim (Bool-cases (j == i)) [
      | inl e ↦ let e' : j ≡ i = ground arith in rw e' (fresh_pid l (λ x. ne (e' ∙ sym x)) v)
      | inr old ↦ elim (Bool-cases (l == i)) [
        | inl e ↦ let e' : l ≡ i = ground arith in rw e' (λ x. fresh_pid j (ground arith) u (sym x))
        | inr old' ↦
            rw (pid_keeps j (ground arith), pid_keeps l (ground arith))
              (s.distinct j l ne (used_before j (ground arith) u) (used_before l (ground arith) v))
      ]
    ];
    parent_waits = λ j l live link. elim (Bool-cases (j == i)) [
      | inl e ↦
          let e' : j ≡ i = ground arith in
          let l' : l ≡ k.current = some_inj (sym (rw e' at link) ∙ f.child_link) in
          rw l' f.parent_blocked
      | inr old ↦ blocked_keeps l (
          s.parent_waits j l (sym (live_keeps j (ground arith)) ∙ live)
            (sym (link_keeps j (ground arith)) ∙ link))
    ];
    waits_for = λ j b. elim (Bool-cases (j == k.current)) [
      | inl e ↦
          let e' : j ≡ k.current = ground arith in (i, ap is_live f.child_runs, rw e' f.child_link)
      | inr other ↦
          let ne : j ≢ i = λ x. cc (rw x at b, f.child_runs) in
          let (w, live, link) = s.waits_for j (sym (state_keeps j ne (ground arith)) ∙ b) in
          let old = not_free_of_live w live in (w, live_keeps w old ∙ live, link_keeps w old ∙ link)
    ];
    one_child = λ j j' l live live' link link'. elim (Bool-cases (j == i)) [
      | inl e ↦ elim (Bool-cases (j' == i)) [
        | inl e' ↦ ground arith
        | inr old' ↦ absurd (
            no_other_child j' l (ground arith) live' link'
              (rw (let e₀ : j ≡ i = ground arith in e₀) at link))
      ]
      | inr old ↦ elim (Bool-cases (j' == i)) [
        | inl e' ↦ absurd (
            no_other_child j l (ground arith) live link
              (rw (let e₀ : j' ≡ i = ground arith in e₀) at link'))
        | inr old' ↦
            s.one_child j j' l (sym (live_keeps j (ground arith)) ∙ live)
              (sym (live_keeps j' (ground arith)) ∙ live')
              (sym (link_keeps j (ground arith)) ∙ link)
              (sym (link_keeps j' (ground arith)) ∙ link')
      ]
    ];
    consoles = λ j u. elim (Bool-cases (j == i)) [
      | inl e ↦ let e' : j ≡ i = ground arith in rw e' f.child_console
      | inr old ↦ elim (Bool-cases (j == k.current)) [
        | inl e ↦
            let e' : j ≡ k.current = ground arith in
            rw e' (f.parent_console (s.consoles k.current (rw s.current_runs (ground arith))))
        | inr other ↦
            subst HasConsole (sym (f.others j (ground arith) (ground arith)))
              (s.consoles j (used_before j (ground arith) u))
      ]
    ];
  }
