-- ===== src/Process/Cleared.antt =====
-- A slot cleared, of a zombie that was waited for or of a child that was never started, keeps the
-- invariant of kernel/process.c.
use xbks.Prelude.{
  ℕ, ◌≤◌, ◌≡◌, ◌≢◌, inl, inr, sym, ap, ◌∙◌, true, false, some, List, length, set, get_or,
  length-set, get_or-set_default, Bool-cases, ◌==◌, if◌then◌else◌, arith,
}
use xbks.Process.Types.{unused, Process, Kernel, zero_process, process_at}
use xbks.Process.Invariant.{is_live, state_of, IsSound}

pub record Cleared {H : Type 0} (k k' : Kernel H) (i : ℕ) : Type 0 where
  pub dead : is_live (state_of k i) ≡ false
  pub processes : k'.processes ≡ set k.processes i zero_process
  pub current : k'.current ≡ k.current
  pub next_pid : k.next_pid ≤ k'.next_pid

module _ {H : Type 0} {k k' : Kernel H} {i : ℕ} (c : Cleared k k' i) (s : IsSound k) where
  at_slot : (j : ℕ) → process_at k' j ≡ (if i == j then zero_process else process_at k j)
  at_slot j =
      ap (λ (ps : List Process). get_or ps j zero_process) c.processes
      ∙ get_or-set_default k.processes i j zero_process

  cleared_here : (j : ℕ) → j ≡ i → state_of k' j ≡ unused
  cleared_here j e = ground (arith, at_slot j)

  same_elsewhere : (j : ℕ) → j ≢ i → process_at k' j ≡ process_at k j
  same_elsewhere j ne = ground (arith, at_slot j)

  state_same : (j : ℕ) → j ≢ i → state_of k' j ≡ state_of k j
  state_same j ne = ap (λ (p : Process). p.state) (same_elsewhere j ne)

  pid_same : (j : ℕ) → j ≢ i → (process_at k' j).pid ≡ (process_at k j).pid
  pid_same j ne = ap (λ (p : Process). p.pid) (same_elsewhere j ne)

  elsewhere_if_used : (j : ℕ) → state_of k' j ≢ unused → j ≢ i
  elsewhere_if_used j u e = u (cleared_here j e)

  elsewhere_if_live : (j : ℕ) → is_live (state_of k j) ≡ true → j ≢ i
  elsewhere_if_live j l e = cc (rw e at l, c.dead)

  live_elsewhere : (j : ℕ) → is_live (state_of k' j) ≡ true → j ≢ i
  live_elsewhere j l e = cc (ap is_live (cleared_here j e), l)

  current_elsewhere : k.current ≢ i
  current_elsewhere = elsewhere_if_live k.current (ap is_live s.current_runs)

  used_before : (j : ℕ) → state_of k' j ≢ unused → state_of k j ≢ unused
  used_before j u e = u (state_same j (elsewhere_if_used j u) ∙ e)

  live_before : (j : ℕ) → is_live (state_of k' j) ≡ true → is_live (state_of k j) ≡ true
  live_before j l = sym (ap is_live (state_same j (live_elsewhere j l))) ∙ l

  link_before :
      (j p : ℕ)
      → is_live (state_of k' j) ≡ true
      → (process_at k' j).vfork_parent ≡ some p
      → (process_at k j).vfork_parent ≡ some p
  link_before j p l e = rw (same_elsewhere j (live_elsewhere j l)) at e

  -- The invariant holds after the call.
  pub Cleared-IsSound : IsSound k'
  Cleared-IsSound = record {
    slots = ap length c.processes ∙ length-set k.processes i zero_process ∙ s.slots;
    current_in = rw c.current s.current_in;
    current_runs =
        ap (state_of k') c.current ∙ state_same k.current current_elsewhere ∙ s.current_runs;
    one_runs = λ j ne. elim (Bool-cases (j == i)) [
      | inl e ↦ λ r. cc (cleared_here j (ground arith), r)
      | inr other ↦ λ r. s.one_runs j (rw c.current at ne) (sym (state_same j (ground arith)) ∙ r)
    ];
    pids = λ j u.
        let old = elsewhere_if_used j u in
        omega (arith, pid_same j old, s.pids j (used_before j u), c.next_pid);
    distinct = λ j l ne u v.
        rw (pid_same j (elsewhere_if_used j u), pid_same l (elsewhere_if_used l v))
          (s.distinct j l ne (used_before j u) (used_before l v));
    parent_waits = λ j l live link.
        let b = s.parent_waits j l (live_before j live) (link_before j l live link) in
        let other = elsewhere_if_live l (ap is_live b) in state_same l other ∙ b;
    waits_for = λ j b.
        let other = live_elsewhere j (ap is_live b) in
        let (w, live, link) = s.waits_for j (sym (state_same j other) ∙ b) in
        let old = elsewhere_if_live w live in
        (
          w,
          ap is_live (state_same w old) ∙ live,
          ap (λ (p : Process). p.vfork_parent) (same_elsewhere w old) ∙ link,
        );
    one_child = λ j l p live live' link link'.
        s.one_child j l p (live_before j live) (live_before l live') (link_before j p live link)
          (link_before l p live' link');
    consoles =
        λ j u. rw (same_elsewhere j (elsewhere_if_used j u)) (s.consoles j (used_before j u));
  }
