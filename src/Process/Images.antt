-- ===== src/Process/Images.antt =====
-- The calls of kernel/process.c that change a process's memory image: they too leave every
-- process's state, pid and link alone.
use xbks.Prelude.{
  ℕ, ◌-◌, ◌<◌, ◌≡◌, inl, inr, refl, ◌∙◌, not, ◌||◌, List, length, ltb, leb, ◌==◌, Bool-cases,
  Option-cases, arith,
}
use xbks.Ramdisk.Tar.{Ramdisk, RamdiskFile}
use xbks.Ramdisk.Files
use xbks.Mm.Frames.{Mm, page_size, align_up}
use xbks.Mm.Tables.{page_writable}
use xbks.Mm.Spaces.{create_kernel_mapped_pml4}
use xbks.Process.Types.{Hardware, Kernel, Process, SyscallFrame, current_process, put_process}
use xbks.Process.User.{copy_user_string, copy_user_string_array, max_string}
use xbks.Process.Memory.{map_pages, page_rounds}
use xbks.Process.Load.{load_elf_into_process, build_user_stack, load_into_space, load_program}
use xbks.Process.Life.{Outcome, returns, halts, brk_top, syscall_brk, exec_program, syscall_execve}
use xbks.Process.Invariant.{SameCore, SameCore-of_eq, SameCore-trans, SameCore-put}

-- Only the memory image of a process differs.
pub record SameProcess (p p' : Process) : Type 0 where
  pub pid : p'.pid ≡ p.pid
  pub state : p'.state ≡ p.state
  pub vfork_parent : p'.vfork_parent ≡ p.vfork_parent
  pub fds : p'.fds ≡ p.fds

load_elf-SameProcess :
    (r : Ramdisk) (m : Mm) (p : Process) (f : RamdiskFile)
    → SameProcess p (load_elf_into_process r m p f).1
unfolding load_elf_into_process
load_elf-SameProcess r m p f = ground arith

build_user_stack-SameProcess :
    (m : Mm) (p : Process) (argv envp : List (List ℕ))
    → SameProcess p (build_user_stack m p argv envp).1
unfolding build_user_stack
build_user_stack-SameProcess m p argv envp = ground arith

SameProcess-trans : (p q r : Process) → SameProcess p q → SameProcess q r → SameProcess p r
SameProcess-trans p q r a b = record {
  pid = b.pid ∙ a.pid;
  state = b.state ∙ a.state;
  vfork_parent = b.vfork_parent ∙ a.vfork_parent;
  fds = b.fds ∙ a.fds;
}

same_but_cr3 : (p q : Process) → SameProcess p q → SameProcess p (record q { cr3 = 0 })
same_but_cr3 p q s = record {
  pid = s.pid;
  state = s.state;
  vfork_parent = s.vfork_parent;
  fds = s.fds;
}

SameProcess-refl : (p : Process) → SameProcess p p
SameProcess-refl p = record { pid = refl; state = refl; vfork_parent = refl; fds = refl }

same_with_cr3 : (p : Process) (cr3 : ℕ) → SameProcess p (record p { cr3 = cr3 })
same_with_cr3 p cr3 = record { pid = refl; state = refl; vfork_parent = refl; fds = refl }

load_into_space-SameProcess :
    (r : Ramdisk) (m : Mm) (p : Process) (f : RamdiskFile) (argv envp : List (List ℕ))
    → SameProcess p (load_into_space r m p f argv envp).1
unfolding load_into_space
load_into_space-SameProcess r m p f argv envp =
    let loaded = load_elf_into_process r m p f in
    let image = load_elf-SameProcess r m p f in
    elim (Bool-cases loaded.0) [
      | inr failed ↦ rw failed (same_but_cr3 p loaded.1 image)
      | inl good ↦
          let stacked = build_user_stack loaded.2 loaded.1 argv envp in
          let both =
            SameProcess-trans p loaded.1 stacked.1 image
              (build_user_stack-SameProcess loaded.2 loaded.1 argv envp) in
          rw good (elim (Bool-cases stacked.0) [
            | inr failed ↦ rw failed (same_but_cr3 p stacked.1 both)
            | inl done ↦ rw done both
          ])
    ]

pub load_program-SameProcess :
    (r : Ramdisk) (m : Mm) (p : Process) (path : List ℕ) (argv envp : List (List ℕ))
    → SameProcess p (load_program r m p path argv envp).1
unfolding load_program
load_program-SameProcess r m p path argv envp = elim (Option-cases (Files.find r path)) [
  | inl absent ↦ rw (absent, load_program) (SameProcess-refl p)
  | inr (f, found) ↦
      rw (found, load_program)
        (elim (Bool-cases (not f.executable || f.directory)) [
          | inl bad ↦ rw bad (SameProcess-refl p)
          | inr good ↦
              let space = create_kernel_mapped_pml4 m in
              let p' = record p { cr3 = space.0 } in
              rw good (elim (Bool-cases (space.0 == 0)) [
                | inl none_left ↦ rw none_left (same_with_cr3 p 0)
                | inr fresh ↦ rw fresh (
                    SameProcess-trans p p' _ (same_with_cr3 p space.0)
                      (load_into_space-SameProcess r space.1 p' f argv envp))
              ])
        ])
]

module _ {H : Type 0} where
  pub SameCore-syscall_brk :
      (k : Kernel H) (requested : ℕ)
      → k.current < length k.processes
      → SameCore k (syscall_brk k requested).1
  unfolding syscall_brk
  SameCore-syscall_brk k requested h =
      let p = current_process k in
      let mapping =
        map_pages (page_rounds (requested - p.brk)) k.mm p.cr3 (align_up p.brk page_size)
          (align_up requested page_size) page_writable in
      let k' = record k { mm = mapping.1 } in
      let mapped = SameCore-of_eq k k' refl refl refl in
      elim (Bool-cases ((requested == 0) || ltb requested p.brk || leb brk_top requested)) [
        | inl query ↦ rw query (SameCore-of_eq k k refl refl refl)
        | inr grow ↦ rw grow (elim (Bool-cases mapping.0) [
          | inr full ↦ rw full mapped
          | inl done ↦ rw done (
              SameCore-trans k k' _ mapped (
                SameCore-put k' k.current (record p { brk = requested }) h refl refl refl
                  λ c. record {
                    count = c.count;
                    input = c.input;
                    output = c.output;
                    error = c.error;
                  }))
        ])
      ]

-- The kernel that a call returns to, if it returns.
abbrev pub Leaves : {H : Type 0} → (Kernel H → Type 0) → Outcome H → Type 0
Leaves P (returns v f k) = P k
Leaves P (halts k) = Unit

module _ {H : Type 0} (hw : Hardware H) where
  SameCore-exec_program :
      (k : Kernel H) (frame : SyscallFrame) (path : List ℕ) (argv envp : List (List ℕ))
      → k.current < length k.processes
      → Leaves (SameCore k) (exec_program hw k frame path argv envp)
  unfolding exec_program
  SameCore-exec_program k frame path argv envp h =
      let p = current_process k in
      let loaded = load_program k.ramdisk k.mm (record p { cr3 = 0 }) path argv envp in
      elim (Bool-cases loaded.0) [
        | inr failed ↦ rw failed (SameCore-of_eq k _ refl refl refl)
        | inl done ↦
            let n = loaded.1 in
            let p' = record p { cr3 = n.cr3; entry = n.entry; stack = n.stack; brk = n.brk } in
            let k' = put_process k k.current p' in
            rw done (
              SameCore-trans k k' _
                (SameCore-put k k.current p' h refl refl refl λ c. record {
                  count = c.count;
                  input = c.input;
                  output = c.output;
                  error = c.error;
                })
                (SameCore-of_eq k' _ refl refl refl))
      ]

  pub SameCore-syscall_execve :
      (k : Kernel H) (frame : SyscallFrame)
      → k.current < length k.processes
      → Leaves (SameCore k) (syscall_execve hw k frame)
  unfolding syscall_execve
  SameCore-syscall_execve k frame h =
      let unchanged = SameCore-of_eq k k refl refl refl in
      elim (Option-cases (copy_user_string hw max_string k frame.rdi)) [
        | inl fault ↦ rw (fault, syscall_execve) unchanged
        | inr (path, copied) ↦
            rw (copied, syscall_execve)
              (elim (Option-cases (copy_user_string_array hw 31 k frame.rsi)) [
                | inl fault ↦ rw fault unchanged
                | inr (argv, args) ↦
                    rw args (elim (Option-cases (copy_user_string_array hw 31 k frame.rdx)) [
                      | inl fault ↦ rw fault unchanged
                      | inr (envp, env) ↦ rw env (SameCore-exec_program k frame path argv envp h)
                    ])
              ])
      ]
