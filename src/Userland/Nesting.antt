-- ===== src/Userland/Nesting.antt =====
-- `user_api_exec` of kernel/userland.c runs one program at a time.
use xbks.Prelude.{
  ℕ, zero, suc, ◌≡◌, refl, inl, inr, ◌⊎◌, Bool, true, false, Bool-cases, Option-cases, Option, none,
  some, List,
}
use xbks.Ramdisk.Tar.{RamdiskFile}
use xbks.Ramdisk.Files
use xbks.Elf.Image.{load_image}
use xbks.Process.User.{negative_errno}
use xbks.Process.Files.{efault}
use xbks.Userland.Exec.{
  ebusy, Userland, ExecCall, Program, exits, stores, loads, execs, Machine, run_program,
  run_loaded_image, no_longer_running, exec_path, exec_with, user_api_exec,
}

-- A call that gives a status, and leaves a state with the flag as it is told.
abbrev pub Returns : Bool → Option (ℕ × Userland) → Type 0
Returns running r =
    (status : ℕ) × (u : Userland) × (r ≡ some (status, u)) × (u.command_running ≡ running)

-- What refuses to nest: while a program runs, a call returns an error and changes nothing.
abbrev pub Refuses : (ExecCall → Userland → Option (ℕ × Userland)) → Type 0
Refuses exec =
    (call : ExecCall) (u : Userland)
    → u.command_running ≡ true
    → (exec call u ≡ some (negative_errno efault, u))
      ⊎ (exec call u ≡ some (negative_errno ebusy, u))

exec_with-Refuses :
    (machine : Machine) (run : Program → Userland → Option (ℕ × Userland))
    → Refuses (exec_with machine run)
unfolding exec_with exec_path
exec_with-Refuses machine run call u running = elim (Option-cases call.path) [
  | inl e ↦ inl (rw (exec_with, e) refl)
  | inr (path, e) ↦ elim (Bool-cases call.negative_argc) [
    | inl negative ↦ inl (rw (exec_with, e, negative) refl)
    | inr ok ↦ elim (Option-cases call.argv) [
      | inl e' ↦ inl (rw (exec_with, e, ok, e') refl)
      | inr (argv, e') ↦ inr (rw (exec_with, e, ok, e', exec_path, running) refl)
    ]
  ]
]

pub user_api_exec-Refuses : (machine : Machine) (depth : ℕ) → Refuses (user_api_exec machine depth)
unfolding user_api_exec
user_api_exec-Refuses machine zero = exec_with-Refuses machine (λ program u'. none)
user_api_exec-Refuses machine (suc depth) =
    exec_with-Refuses machine (run_program (user_api_exec machine depth))

-- A program returns while its calls are refused.
run_program-Returns :
    (exec : ExecCall → Userland → Option (ℕ × Userland)) (program : Program) (u : Userland)
    → Refuses exec
    → u.command_running ≡ true
    → Returns true (run_program exec program u)
unfolding run_program
run_program-Returns exec (exits status) u refuses running = (status, u, refl, running)
run_program-Returns exec (stores change program) u refuses running =
    let (memory, shift_pressed) = change u.memory u.shift_pressed in
    run_program-Returns exec program (record u { memory = memory; shift_pressed = shift_pressed })
      refuses running
run_program-Returns exec (loads next) u refuses running =
    run_program-Returns exec (next u.memory) u refuses running
run_program-Returns exec (execs call next) u refuses running = elim (refuses call u running) [
  | inl e ↦
      rw (run_program, e)
        (run_program-Returns exec (next (negative_errno efault)) u refuses running)
  | inr e ↦
      rw (run_program, e) (run_program-Returns exec (next (negative_errno ebusy)) u refuses running)
]

-- Where programs return, an image does.
run_loaded_image-Returns :
    (machine : Machine) (run : Program → Userland → Option (ℕ × Userland)) (file : RamdiskFile)
    (base size : ℕ) (argv : List (List ℕ)) (u : Userland)
    → ((program : Program) (u' : Userland)
        → u'.command_running ≡ true
        → Returns true (run program u'))
    → u.command_running ≡ true
    → Returns true (run_loaded_image machine run file base size argv u)
unfolding run_loaded_image
run_loaded_image-Returns machine run file base size argv u runs running =
    elim (Bool-cases file.directory) [
      | inl e ↦ rw e (_, u, refl, running)
      | inr not_directory ↦ elim (Bool-cases file.executable) [
        | inr e ↦ rw (not_directory, e) (_, u, refl, running)
        | inl can_run ↦ elim (Option-cases (load_image machine.ramdisk file base size u.memory)) [
          | inl e ↦ rw (run_loaded_image, e, not_directory, can_run) (_, u, refl, running)
          | inr ((image, memory), e) ↦
              rw (run_loaded_image, e, not_directory, can_run)
                (runs (machine.program_at image.entry argv) (record u { memory = memory }) running)
        ]
      ]
    ]

no_longer_running-Returns :
    (r : Option (ℕ × Userland)) → Returns true r → Returns false (no_longer_running r)
no_longer_running-Returns r (status, u, e, running) =
    rw (e, no_longer_running) (status, record u { command_running = false }, refl, refl)

exec_with-Returns :
    (machine : Machine) (run : Program → Userland → Option (ℕ × Userland)) (call : ExecCall)
    (u : Userland)
    → ((program : Program) (u' : Userland)
        → u'.command_running ≡ true
        → Returns true (run program u'))
    → u.command_running ≡ false
    → Returns false (exec_with machine run call u)
unfolding exec_with exec_path
exec_with-Returns machine run call u runs idle = elim (Option-cases call.path) [
  | inl e ↦ rw (exec_with, e) (_, u, refl, idle)
  | inr (path, e) ↦ elim (Bool-cases call.negative_argc) [
    | inl negative ↦ rw (exec_with, e, negative) (_, u, refl, idle)
    | inr ok ↦ elim (Option-cases call.argv) [
      | inl e' ↦ rw (exec_with, e, ok, e') (_, u, refl, idle)
      | inr (argv, e') ↦ elim (Option-cases (Files.find machine.ramdisk path)) [
        | inl absent ↦ rw (exec_with, e, ok, e', exec_path, idle, absent) (_, u, refl, idle)
        | inr (file, there) ↦
            let started = record u { command_running = true } in
            rw (exec_with, e, ok, e', exec_path, idle, there)
              (no_longer_running-Returns
                (run_loaded_image machine run file machine.cmd_base machine.cmd_size argv started)
                (run_loaded_image-Returns machine run file machine.cmd_base machine.cmd_size argv
                  started runs refl))
      ]
    ]
  ]
]

-- A call of exec while no program runs returns, whatever the programs do that it runs, if one
-- level of calls may nest: a status and a state in which no program runs. Programs change the
-- memory, call exec and return.
pub user_api_exec-Returns :
    (machine : Machine) (depth : ℕ) (call : ExecCall) (u : Userland)
    → u.command_running ≡ false
    → Returns false (user_api_exec machine (suc depth) call u)
unfolding user_api_exec
user_api_exec-Returns machine depth call u idle =
    exec_with-Returns machine (run_program (user_api_exec machine depth)) call u
      (λ program u' running.
        run_program-Returns (user_api_exec machine depth) program u'
          (user_api_exec-Refuses machine depth) running)
      idle
