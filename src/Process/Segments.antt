-- ===== src/Process/Segments.antt =====
-- The segments that `load_elf_into_process` of kernel/process.c has taken, and those of fs/elf.c.
use xbks.Prelude.{
  ℕ, zero, suc, ◌+◌, ◌-◌, ◌*◌, ◌%◌, ◌≤◌, ◌<◌, ◌≡◌, Bool, true, false, ◌==◌, if◌then◌else◌, List, [],
  ◌∷◌, inl, inr, refl, ◌∙◌, ap, none, some, Bool-cases, Option-cases, arith,
}
use xbks.Ramdisk.Tar.{Ramdisk, RamdiskFile, slice}
use xbks.Elf.Headers.{Bytes, Ehdr, Phdr, phdr_size, phdr_at}
use xbks.Elf.Image
use xbks.Mm.Frames.{Mm, word_mod}
use xbks.Mm.Tables.{page_writable}
use xbks.Process.Types.{Process}
use xbks.Process.User.{user_image_min, user_top}
use xbks.Process.Memory.{map_user_range, write_process_memory}
use xbks.Process.Load.{bad_segment, read_bytes, load_segments, validate_elf, load_elf_into_process}

-- A segment that lies in the file and, with at least as many bytes, in the user's image space, up to
-- sums that wrap around.
pub record IsTaken (p : Phdr) (size : ℕ) : Type 0 where
  pub grows : p.filesz ≤ p.memsz
  pub in_file : p.offset + p.filesz < word_mod → p.offset + p.filesz ≤ size
  pub above : user_image_min ≤ p.vaddr
  pub below : p.vaddr + p.memsz < word_mod → p.vaddr + p.memsz < user_top

bad_segment-IsTaken : (p : Phdr) (size : ℕ) → bad_segment p size ≡ false → IsTaken p size
unfolding bad_segment
bad_segment-IsTaken p size fine = record {
  grows = ground arith;
  in_file = λ h. ground arith;
  above = ground arith;
  below = λ h. ground arith;
}

-- A round of the loop that leads to success.
taken_round :
    (n : ℕ) (m : Mm) (cr3 : ℕ) (bytes : Bytes) (data_at at size : ℕ)
    → (load_segments (suc n) m cr3 bytes data_at at size).0 ≡ true
    → (m' : Mm) × ((load_segments n m' cr3 bytes data_at (at + phdr_size) size).0 ≡ true)
      × ((phdr_at bytes at).kind ≡ 1 → bad_segment (phdr_at bytes at) size ≡ false)
unfolding load_segments
taken_round n m cr3 bytes data_at at size done =
    let p = phdr_at bytes at in
    elim (Bool-cases (p.kind == 1)) [
      | inr other ↦ (m, rw other at done, λ kind. absurd (ground arith))
      | inl load ↦ elim (Bool-cases (bad_segment p size)) [
        | inl bad ↦ cc (rw (load, bad) at done)
        | inr fine ↦
            let mapping = map_user_range m cr3 p.vaddr p.memsz page_writable in
            elim (Bool-cases mapping.0) [
              | inr unmapped ↦ cc (rw (load, fine, unmapped) at done)
              | inl mapped ↦
                  let writing =
                    write_process_memory mapping.1 cr3 p.vaddr
                      (read_bytes bytes (data_at + p.offset) p.filesz) in
                  elim (Bool-cases writing.0) [
                    | inr unwritten ↦ cc (rw (load, fine, mapped, unwritten) at done)
                    | inl written ↦
                        (writing.1, rw (load, fine, mapped, written) at done, λ kind. fine)
                  ]
            ]
      ]
    ]

load_segments-IsTaken :
    (n : ℕ) (m : Mm) (cr3 : ℕ) (bytes : Bytes) (data_at at size : ℕ)
    → (load_segments n m cr3 bytes data_at at size).0 ≡ true
    → (i : ℕ) → i < n
    → (phdr_at bytes (at + i * phdr_size)).kind ≡ 1
    → IsTaken (phdr_at bytes (at + i * phdr_size)) size
load_segments-IsTaken zero m cr3 bytes data_at at size done i h kind = absurd (omega arith)
load_segments-IsTaken (suc n) m cr3 bytes data_at at size done zero h kind =
    let (m', later, fine) = taken_round n m cr3 bytes data_at at size done in
    let here : at + 0 * phdr_size ≡ at = omega arith in
    rw here (bad_segment-IsTaken (phdr_at bytes at) size (fine (rw here at kind)))
load_segments-IsTaken (suc n) m cr3 bytes data_at at size done (suc i) h kind =
    let (m', later, fine) = taken_round n m cr3 bytes data_at at size done in
    let there : at + suc i * phdr_size ≡ at + phdr_size + i * phdr_size = omega arith in
    rw there (
      load_segments-IsTaken n m' cr3 bytes data_at (at + phdr_size) size later i (omega arith)
        (rw there at kind))

-- If load_elf_into_process succeeds, the file has passed validate_elf, and each program header of
-- its table that is to be loaded has at least as many bytes in memory as in the file and starts at
-- or above the lowest image address; its bytes lie in the file if its offset and size there do not
-- wrap around 64 bits, and in the user's part of the address space if its address and size do not.
pub load_elf_into_process-IsTaken :
    (r : Ramdisk) (m : Mm) (p : Process) (f : RamdiskFile)
    → (load_elf_into_process r m p f).0 ≡ true
    → (at : ℕ) × (h : Ehdr) × (validate_elf r f ≡ some (at, h))
      × ((i : ℕ)
          → i < h.phnum
          → (phdr_at r.bytes (at + h.phoff + i * phdr_size)).kind ≡ 1
          → IsTaken (phdr_at r.bytes (at + h.phoff + i * phdr_size)) f.size)
unfolding load_elf_into_process
load_elf_into_process-IsTaken r m p f done = elim (Option-cases (validate_elf r f)) [
  | inl invalid ↦ cc (rw (invalid, load_elf_into_process) at done)
  | inr ((at, h), valid) ↦
      elim (Bool-cases (load_segments h.phnum m p.cr3 r.bytes at (at + h.phoff) f.size).0) [
        | inr failed ↦ cc (rw (valid, load_elf_into_process, failed) at done)
        | inl loaded ↦ (
          at,
          h,
          valid,
          load_segments-IsTaken h.phnum m p.cr3 r.bytes at (at + h.phoff) f.size loaded,
        )
      ]
]

-- A segment of `n` bytes that starts `n` bytes in front of the file, by an offset that wraps.
abbrev pub segment_before : ℕ → Phdr
segment_before n = record {
  kind = 1;
  offset = word_mod - n;
  vaddr = user_image_min;
  filesz = n;
  memsz = n;
}

read_bytes-slice :
    (bytes : Bytes) (at start n : ℕ)
    → at % word_mod ≡ start
    → start + n ≤ word_mod
    → read_bytes bytes at n ≡ slice bytes start n
unfolding read_bytes
read_bytes-slice bytes at start zero e h = refl
read_bytes-slice bytes at start (suc zero) e h = ap (λ a. bytes a ∷ []) e
read_bytes-slice bytes at start (suc (suc n)) e h = rw (ap bytes e) (
    ap (λ t. bytes start ∷ t)
      (read_bytes-slice bytes (at + 1) (start + 1) (suc n) (omega arith) (omega arith)))

rejected :
    (n : ℕ) (bytes : Bytes) (at size : ℕ)
    → phdr_at bytes at ≡ segment_before n
    → Image.bad_segment (segment_before n) size ≡ true
    → Image.scan_segments 1 bytes at size Image.no_span ≡ none
unfolding Image.scan_segments
rejected n bytes at size header bad =
    let kind : ((phdr_at bytes at).kind == 1) ≡ true =
      ground (arith, ap (λ (p : Phdr). p.kind) header) in
    let bad' : Image.bad_segment (phdr_at bytes at) size ≡ true =
      ap (λ p. Image.bad_segment p size) header ∙ bad in
    rw (kind, bad') refl

-- Pages for a segment, and then its bytes.
abbrev pub map_and_write : Mm → ℕ → Phdr → List ℕ → Bool × Mm
map_and_write m cr3 p contents =
    let (mapped, m₁) = map_user_range m cr3 p.vaddr p.memsz page_writable in
    if mapped then write_process_memory m₁ cr3 p.vaddr contents else (false, m₁)

one_segment :
    (m : Mm) (cr3 : ℕ) (bytes : Bytes) (data_at at size : ℕ)
    → (phdr_at bytes at).kind ≡ 1
    → bad_segment (phdr_at bytes at) size ≡ false
    → load_segments 1 m cr3 bytes data_at at size
      ≡ map_and_write m cr3
          (phdr_at bytes at)
          (read_bytes bytes (data_at + (phdr_at bytes at).offset) (phdr_at bytes at).filesz)
unfolding load_segments
one_segment m cr3 bytes data_at at size kind fine =
    let p = phdr_at bytes at in
    let load : (p.kind == 1) ≡ true = ground (arith, kind) in
    let mapping = map_user_range m cr3 p.vaddr p.memsz page_writable in
    elim (Bool-cases mapping.0) [
      | inr unmapped ↦ rw (load, fine, unmapped) refl
      | inl mapped ↦
          let writing =
            write_process_memory mapping.1 cr3 p.vaddr
              (read_bytes bytes (data_at + p.offset) p.filesz) in
          elim (Bool-cases writing.0) [
            | inr unwritten ↦ rw (load, fine, mapped, unwritten) refl
            | inl written ↦ rw (load, fine, mapped, written) refl
          ]
    ]

-- For a program header of n bytes at the lowest image address whose offset is -n, where n is not
-- 0, the segment fits into user space, and the file's data stand at least n bytes into the
-- archive: a round of load_elf_into_process maps its pages and, where that succeeds, writes to
-- them the n bytes in front of the file, whatever the file's size; the first loop of
-- xbks_elf_load_image rejects it.
pub wrapped_segment :
    (n : ℕ) (m : Mm) (cr3 : ℕ) (bytes : Bytes) (data_at at size : ℕ)
    → 0 < n
    → n < user_top - user_image_min
    → n ≤ data_at
    → data_at < word_mod
    → phdr_at bytes at ≡ segment_before n
    → (load_segments 1 m cr3 bytes data_at at size
        ≡ map_and_write m cr3 (segment_before n) (slice bytes (data_at - n) n))
      × (Image.scan_segments 1 bytes at size Image.no_span ≡ none)
unfolding bad_segment Image.bad_segment Image.add_overflows_u64
wrapped_segment n m cr3 bytes data_at at size pos small inside word header =
    let wraps : (word_mod - n + n) % word_mod ≡ 0 = omega arith in
    let low : (user_image_min + n) % word_mod < user_top = omega arith in
    let fine : bad_segment (segment_before n) size ≡ false = ground (arith, wraps, low) in
    let bad : Image.bad_segment (segment_before n) size ≡ true = ground (arith, wraps) in
    let read =
      read_bytes-slice bytes (data_at + (word_mod - n)) (data_at - n) n (omega arith)
        (omega arith) in
    (
      one_segment m cr3 bytes data_at at size (ap (λ (p : Phdr). p.kind) header)
            (ap (λ p. bad_segment p size) header ∙ fine)
          ∙ ap
              (λ (p : Phdr). map_and_write m cr3 p (read_bytes bytes (data_at + p.offset) p.filesz))
              header
          ∙ ap (map_and_write m cr3 (segment_before n)) read,
      rejected n bytes at size header bad,
    )
