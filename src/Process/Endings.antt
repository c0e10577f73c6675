-- ===== src/Process/Endings.antt =====
-- What exit of kernel/process.c does to the process table.
use xbks.Prelude.{
  ℕ, zero, suc, ◌≡◌, refl, sym, ap, ◌∙◌, some, List, [], ◌∷◌, length, set, get_or, length-set,
  get_or-set_self, get_or-set_ne,
}
use xbks.Process.Types.{
  ProcessState, running, blocked, zombie, Process, Kernel, zero_process, process_at,
  current_process,
}
use xbks.Process.Invariant.{is_live, state_of, IsSound}
use xbks.Process.Exited.{Exited}
use xbks.Process.Changes.{HasConsole-of_fds}

-- A field that an assignment to one slot leaves as it was.
set_keeps :
    {A : Type 0} (f : Process → A) (ps : List Process) (i j : ℕ) (x : Process)
    → f x ≡ f (get_or ps i zero_process)
    → f (get_or (set ps i x) j zero_process) ≡ f (get_or ps j zero_process)
set_keeps f [] i j x e = refl
set_keeps f (p ∷ ps) zero zero x e = e
set_keeps f (p ∷ ps) zero (suc j) x e = refl
set_keeps f (p ∷ ps) (suc i) zero x e = refl
set_keeps f (p ∷ ps) (suc i) (suc j) x e = set_keeps f ps i j x e

-- The table of a `syscall_exit` that gives the memory back to a parent.
module _ {H : Type 0} (k k' : Kernel H) (p status : ℕ) (s : IsSound k) where
  unfoldable pub one : List Process
  one =
      set k.processes k.current
        (record (current_process k) { exit_status = status; state = zombie })

  module _ (link : (current_process k).vfork_parent ≡ some p)
      (table : k'.processes
        ≡ set one p (record (get_or one p zero_process) { state = running })) where
    waiting : state_of k p ≡ blocked
    waiting = s.parent_waits k.current p (ap is_live s.current_runs) link

    keeps :
        {A : Type 0} (f : Process → A) (j : ℕ)
        → ((q : Process) (n : ℕ) (st : ProcessState)
            → f (record q { exit_status = n; state = st }) ≡ f q)
        → f (process_at k' j) ≡ f (process_at k j)
    unfolding one
    keeps f j blind =
        ap (λ (ps : List Process). f (get_or ps j zero_process)) table
        ∙ set_keeps f one p j _ (blind (get_or one p zero_process) _ running)
        ∙ set_keeps f k.processes k.current j _ (blind (current_process k) status zombie)

    pub exited : k'.current ≡ p → k'.next_pid ≡ k.next_pid → Exited k k' p
    unfolding one
    exited current next = record {
      size = ap length table ∙ length-set one p _ ∙ length-set k.processes k.current _;
      link = link;
      current = current;
      next_pid = next;
      ended =
          ap (λ (ps : List Process). (get_or ps k.current zero_process).state) table
          ∙ ap (λ (q : Process). q.state)
              (get_or-set_ne one p k.current _ zero_process
                (λ e. cc (rw e at waiting, s.current_runs)))
          ∙ ap (λ (q : Process). q.state)
              (get_or-set_self k.processes k.current _ zero_process (rw s.slots s.current_in));
      parent_runs = λ bound.
          ap (λ (ps : List Process). (get_or ps p zero_process).state) table
          ∙ ap (λ (q : Process). q.state)
              (get_or-set_self one p _ zero_process
                (rw (length-set k.processes k.current _) bound));
      others = λ j ne other.
          ap (λ (ps : List Process). (get_or ps j zero_process).state) table
          ∙ ap (λ (q : Process). q.state) (get_or-set_ne one p j _ zero_process (λ e. ne (sym e)))
          ∙ ap (λ (q : Process). q.state)
              (get_or-set_ne k.processes k.current j _ zero_process (λ e. other (sym e)));
      pids = λ j. keeps (λ q. q.pid) j (λ q n st. refl);
      links = λ j. keeps (λ q. q.vfork_parent) j (λ q n st. refl);
      consoles = λ j.
          HasConsole-of_fds (process_at k j) (process_at k' j)
            (keeps (λ q. q.fds) j (λ q n st. refl));
    }
