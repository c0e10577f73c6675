-- ===== src/Process/Load.antt =====
-- A program's image and stack in kernel/process.c.
use Prim.Native.Nat.{bit_and}
use xbks.Prelude.{
  ℕ, zero, suc, ◌+◌, ◌-◌, ◌*◌, ◌%◌, Bool, true, false, not, ◌&&◌, ◌||◌, Option, none, some, List,
  [], ◌∷◌, ◌++◌, ltb, leb, ◌==◌, if◌then◌else◌, length,
}
use xbks.Ramdisk.Tar.{Ramdisk, RamdiskFile}
use xbks.Ramdisk.Files
use xbks.Elf.Headers.{Bytes, Ehdr, Phdr, ehdr_size, phdr_size, ehdr_at, phdr_at, bad_ident}
use xbks.Mm.Frames.{Mm, word_mod}
use xbks.Mm.Tables.{page_writable}
use xbks.Mm.Spaces.{create_kernel_mapped_pml4, destroy_user_space}
use xbks.Process.Types.{Process}
use xbks.Process.User.{user_image_min, user_top, user_range_is_valid, le_bytes}
use xbks.Process.Memory.{map_user_range, write_process_memory}

-- The tests of `validate_elf` on the header's fields: unlike fs/elf.c it takes any `e_type` and has
-- no test that the end of the program headers does not wrap.
unfoldable pub bad_header : Ehdr → ℕ → Bool
bad_header h size =
    not (h.machine == 62)
    || not (h.phentsize == phdr_size)
    || (h.phnum == 0)
    || ltb size h.phoff
    || ltb size ((h.phoff + h.phnum * phdr_size) % word_mod)

unfoldable pub validate_elf : Ramdisk → RamdiskFile → Option (ℕ × Ehdr)
validate_elf r f = elim f.contents [
  | none ↦ none
  | some at ↦
      if f.directory || ltb f.size ehdr_size
      then none
      else if bad_ident r.bytes at || bad_header (ehdr_at r.bytes at) f.size
      then none
      else some (at, ehdr_at r.bytes at)
]

-- The tests on a segment that is loaded.
unfoldable pub bad_segment : Phdr → ℕ → Bool
bad_segment p size =
    ltb p.memsz p.filesz
    || ltb size ((p.offset + p.filesz) % word_mod)
    || ltb p.vaddr user_image_min
    || leb user_top ((p.vaddr + p.memsz) % word_mod)

-- The bytes from an address on, which wraps around.
unfoldable pub read_bytes : Bytes → ℕ → ℕ → List ℕ
read_bytes bytes at zero = []
read_bytes bytes at (suc n) = bytes (at % word_mod) ∷ read_bytes bytes (at + 1) n

-- The loop of `load_elf_into_process` at the address of the next program header.
unfoldable pub load_segments : ℕ → Mm → ℕ → Bytes → ℕ → ℕ → ℕ → Bool × Mm
load_segments zero m cr3 bytes data_at at size = (true, m)
load_segments (suc n) m cr3 bytes data_at at size =
    let p = phdr_at bytes at in
    let skipped = load_segments n m cr3 bytes data_at (at + phdr_size) size in
    if not (p.kind == 1)
    then skipped
    else if bad_segment p size
    then (false, m)
    else let (mapped, m₁) = map_user_range m cr3 p.vaddr p.memsz page_writable in
      elim mapped [
        | false ↦ (false, m₁)
        | true ↦
            let (written, m₂) =
              write_process_memory m₁ cr3 p.vaddr
                (read_bytes bytes (data_at + p.offset) p.filesz) in
            elim written [
              | false ↦ (false, m₂)
              | true ↦ load_segments n m₂ cr3 bytes data_at (at + phdr_size) size
            ]
      ]

unfoldable pub load_elf_into_process : Ramdisk → Mm → Process → RamdiskFile → Bool × Process × Mm
load_elf_into_process r m p f = elim (validate_elf r f) [
  | none ↦ (false, p, m)
  | some (at, h) ↦
      let (done, m') = load_segments h.phnum m p.cr3 r.bytes at (at + h.phoff) f.size in
      if done then (true, record p { entry = h.entry; brk = 0x800000 }, m') else (false, p, m')
]

-- The stack pointer after the push.
unfoldable pub push_bytes : Mm → ℕ → ℕ → List ℕ → Option ℕ × Mm
push_bytes m cr3 stack bytes =
    let stack' = (stack + word_mod - length bytes) % word_mod in
    if not (length bytes == 0) && not (user_range_is_valid stack' (length bytes))
    then (none, m)
    else let (written, m') = write_process_memory m cr3 stack' bytes in
      if written then (some stack', m') else (none, m')

unfoldable pub push_u64 : Mm → ℕ → ℕ → ℕ → Option ℕ × Mm
push_u64 m cr3 stack value = push_bytes m cr3 stack (le_bytes 8 value)

-- The strings with their NULs, the last first; the addresses come out in the array's order.
unfoldable pub push_strings : Mm → ℕ → ℕ → List (List ℕ) → Option (ℕ × List ℕ) × Mm
push_strings m cr3 stack [] = (some (stack, []), m)
push_strings m cr3 stack (s ∷ ss) =
    let (later, m₁) = push_strings m cr3 stack ss in
    elim later [
      | none ↦ (none, m₁)
      | some (stack₁, addresses) ↦
          let (pushed, m₂) = push_bytes m₁ cr3 stack₁ (s ++ 0 ∷ []) in
          elim pushed [ none ↦ (none, m₂) | some stack₂ ↦ (some (stack₂, stack₂ ∷ addresses), m₂) ]
    ]

-- Words, the last first.
unfoldable pub push_words : Mm → ℕ → ℕ → List ℕ → Option ℕ × Mm
push_words m cr3 stack [] = (some stack, m)
push_words m cr3 stack (w ∷ ws) =
    let (later, m₁) = push_words m cr3 stack ws in
    elim later [ none ↦ (none, m₁) | some stack₁ ↦ push_u64 m₁ cr3 stack₁ w ]

-- XBKS_USER_STACK_TOP and XBKS_USER_STACK_SIZE
abbrev pub user_stack_top : ℕ
user_stack_top = 0x00007fffffffe000

abbrev pub user_stack_size : ℕ
user_stack_size = 16 * 4096

-- `build_user_stack`: below the strings stand, from the top down, a null word, the addresses of the
-- environment, a null word, those of the arguments, and their number.
unfoldable pub build_user_stack : Mm → Process → List (List ℕ) → List (List ℕ) → Bool × Process × Mm
build_user_stack m p argv envp =
    let (mapped, m₁) =
      map_user_range m p.cr3 (user_stack_top - user_stack_size) user_stack_size page_writable in
    elim mapped [
      | false ↦ (false, p, m₁)
      | true ↦
          let (env, m₂) = push_strings m₁ p.cr3 user_stack_top envp in
          elim env [
            | none ↦ (false, p, m₂)
            | some (stack₂, env_addresses) ↦
                let (args, m₃) = push_strings m₂ p.cr3 stack₂ argv in
                elim args [
                  | none ↦ (false, p, m₃)
                  | some (stack₃, argv_addresses) ↦
                      let (pushed, m₄) =
                        push_words m₃ p.cr3 (bit_and stack₃ (word_mod - 1 - 0xf))
                          (length argv ∷ argv_addresses ++ 0 ∷ env_addresses ++ 0 ∷ []) in
                      elim pushed [
                        | none ↦ (false, p, m₄)
                        | some stack₄ ↦ (true, record p { stack = stack₄ }, m₄)
                      ]
                ]
          ]
    ]

-- What follows the creation of the address space.
unfoldable pub load_into_space :
    Ramdisk → Mm → Process → RamdiskFile → List (List ℕ) → List (List ℕ) → Bool × Process × Mm
load_into_space r m p f argv envp =
    let (loaded, p₁, m₁) = load_elf_into_process r m p f in
    let (done, p₂, m₂) = (if loaded then build_user_stack m₁ p₁ argv envp else (false, p₁, m₁)) in
    if done
    then (true, p₂, m₂)
    else (false, record p₂ { cr3 = 0 }, destroy_user_space m₂ p₂.cr3 user_top)

unfoldable pub load_program :
    Ramdisk → Mm → Process → List ℕ → List (List ℕ) → List (List ℕ) → Bool × Process × Mm
load_program r m p path argv envp = elim (Files.find r path) [
  | none ↦ (false, p, m)
  | some f ↦
      if not f.executable || f.directory
      then (false, p, m)
      else let (cr3, m₁) = create_kernel_mapped_pml4 m in
        if cr3 == 0
        then (false, record p { cr3 = 0 }, m₁)
        else load_into_space r m₁ (record p { cr3 = cr3 }) f argv envp
]
