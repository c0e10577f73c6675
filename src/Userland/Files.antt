-- ===== src/Userland/Files.antt =====
-- What the file calls of kernel/userland.c give.
use xbks.Prelude.{
  ℕ, zero, suc, ◌+◌, ◌-◌, ◌<◌, ◌≤◌, ◌≡◌, ◌≢◌, ◌⊎◌, refl, ap, sym, ◌∙◌, inl, inr, min, true, false,
  Bool-cases, some, List, [], ◌∷◌, ◌++◌, All, length, length-set, take, length-take, set, ◌==◌, ltb,
  leb, if◌then◌else◌, arith,
}
use xbks.CString.{Mem}
use xbks.CString.Text.{text}
use xbks.Ramdisk.Tar.{Ramdisk, RamdiskFile}
use xbks.Ramdisk.Files
use xbks.Elf.Image.{copy_in}
use xbks.Shell.Buffer.{text-set, take-set, All-append}
use xbks.Userland.Api.{
  user_buffer_is_valid, data_at, read_from_file, user_api_read_file, basename_loop, basename,
  copy_limited, copy_string_limited, UserDirent, dirent_of, user_api_read_dir,
}

-- A read of a file gives the bytes that are left, at most as many as asked for, and touches no other
-- byte.
user_api_read_file_lem :
    (ramdisk : Ramdisk) (path : List ℕ) (file : RamdiskFile) (offset buffer count : ℕ) (m : Mem)
    → Files.find ramdisk path ≡ some file
    → file.directory ≡ false
    → user_buffer_is_valid buffer count ≡ true
    → ((user_api_read_file ramdisk (some path) offset buffer count m).0
        ≡ min count (file.size - offset))
      × ((a : ℕ)
          → (user_api_read_file ramdisk (some path) offset buffer count m).1 a
            ≡ copy_in m buffer ramdisk.bytes
                (data_at file offset)
                (min count (file.size - offset))
                a)
unfolding user_api_read_file read_from_file
user_api_read_file_lem ramdisk path file offset buffer count m found plain valid =
    elim (Bool-cases (leb file.size offset)) [
      | inl past ↦
          let empty : min count (file.size - offset) ≡ 0 = ground arith in
          rw (user_api_read_file, valid, found, plain, past, empty) (refl, λ a. ground arith)
      | inr inside ↦
          let least : (if ltb count (file.size - offset) then count else file.size - offset)
              ≡ min count (file.size - offset) =
            ground arith in
          rw (user_api_read_file, valid, found, plain, inside, least) (refl, λ a. refl)
    ]

-- A text without a slash.
abbrev pub NoSlash : List ℕ → Type 0
NoSlash t = All (λ c. c ≢ 47) t

append_assoc : (a b c : List ℕ) → (a ++ b) ++ c ≡ a ++ (b ++ c)
append_assoc [] b c = refl
append_assoc (x ∷ a) b c = ap (λ t. x ∷ t) (append_assoc a b c)

append_none : (a : List ℕ) → a ++ [] ≡ a
append_none [] = refl
append_none (x ∷ a) = ap (λ t. x ∷ t) (append_none a)

NoSlash-append : (t u : List ℕ) → NoSlash t → NoSlash u → NoSlash (t ++ u)
NoSlash-append [] u h h' = h'
NoSlash-append (c ∷ t) u (ne, h) h' = (ne, NoSlash-append t u h h')

-- Nothing, or a text that ends in a slash.
abbrev pub IsFolder : List ℕ → Type 0
IsFolder d = (d ≡ []) ⊎ ((front : List ℕ) × (d ≡ front ++ 47 ∷ []))

-- A base is the text after the last slash.
abbrev pub IsBase : List ℕ → List ℕ → Type 0
IsBase path base = (d : List ℕ) × (text path ≡ d ++ text base) × IsFolder d × NoSlash (text base)

IsFolder-append : (pre d : List ℕ) → IsFolder d → IsFolder (pre ++ 47 ∷ d)
IsFolder-append pre d (inl e) = inr (pre, ap (λ t. pre ++ 47 ∷ t) e)
IsFolder-append pre d (inr (front, e)) =
    inr
      (pre ++ 47 ∷ front, ap (λ t. pre ++ 47 ∷ t) e ∙ sym (append_assoc pre (47 ∷ front) (47 ∷ [])))

text-here : (c : ℕ) (rest : List ℕ) → (c == 0) ≡ false → text (c ∷ rest) ≡ c ∷ text rest
unfolding text
text-here c rest e = rw e refl

text_nothing : text [] ≡ []
unfolding text
text_nothing = refl

text-end : (c : ℕ) (rest : List ℕ) → (c == 0) ≡ true → text (c ∷ rest) ≡ []
unfolding text
text-end c rest e = rw e refl

basename_loop-IsBase :
    (rest base pre : List ℕ)
    → text base ≡ pre ++ text rest
    → NoSlash pre
    → IsBase base (basename_loop rest base)
unfolding basename_loop text
basename_loop-IsBase [] base pre e plain = ([], refl, inl refl, rw (e ∙ append_none pre) plain)
basename_loop-IsBase (c ∷ rest) base pre e plain = elim (Bool-cases (c == 0)) [
  | inl nul ↦
      rw (nul, basename_loop)
        (
          [],
          refl,
          inl refl,
          rw (e ∙ ap (λ t. pre ++ t) (text-end c rest nul) ∙ append_none pre) plain,
        )
  | inr more ↦
      let whole : text base ≡ pre ++ (c ∷ text rest) =
        e ∙ ap (λ t. pre ++ t) (text-here c rest more) in
      elim (Bool-cases (c == 47)) [
        | inl slash ↦
            let (d, split, folder, none_left) = basename_loop-IsBase rest rest [] refl tt in
            let is_slash : c ≡ 47 = ground arith in
            rw (more, slash)
              (
                pre ++ (c ∷ d),
                whole
                    ∙ ap (λ t. pre ++ (c ∷ t)) split
                    ∙ sym (append_assoc pre (c ∷ d) (text (basename_loop rest rest))),
                rw is_slash (IsFolder-append pre d folder),
                none_left,
              )
        | inr other ↦
            rw (more, other)
              (basename_loop-IsBase rest base (pre ++ (c ∷ []))
                (whole ∙ sym (append_assoc pre (c ∷ []) (text rest)))
                (NoSlash-append pre (c ∷ []) plain ((ground arith), tt)))
      ]
]

pub basename-IsBase : (path : List ℕ) → IsBase path (basename path)
unfolding basename
basename-IsBase path = basename_loop-IsBase path path [] refl tt

text-cut :
    (dest : List ℕ) (i : ℕ)
    → i < length dest
    → All (λ c. c ≢ 0) (take i dest)
    → text (set dest i 0) ≡ take i dest
text-cut dest i b nz =
    let n : length (take i dest) ≡ i = omega (arith, length-take i dest) in
    rw n at (text-set dest (take i dest) (ap (λ k. take k dest) n) nz (omega (arith, n)))

take_none : (n : ℕ) → take {A = ℕ} n [] ≡ []
take_none zero = refl
take_none (suc n) = refl

copy_limited-text :
    (dest : List ℕ) (i capacity : ℕ) (src : List ℕ)
    → i < capacity
    → capacity ≤ length dest
    → All (λ c. c ≢ 0) (take i dest)
    → text (copy_limited dest i capacity src) ≡ take i dest ++ take (capacity - 1 - i) (text src)
unfolding copy_limited
copy_limited-text dest i capacity [] b room nz =
    rw (text_nothing, take_none (capacity - 1 - i), append_none (take i dest))
      (text-cut dest i (omega arith) nz)
copy_limited-text dest i capacity (c ∷ src) b room nz =
    let cut = text-cut dest i (omega arith) nz in
    elim (Bool-cases (c == 0)) [
      | inl nul ↦
          rw (nul, copy_limited, text-end c src nul)
            (elim (Bool-cases (ltb (i + 1) capacity)) [
              | inl y ↦ rw (y, take_none (capacity - 1 - i), append_none (take i dest)) cut
              | inr n ↦ rw (n, take_none (capacity - 1 - i), append_none (take i dest)) cut
            ])
      | inr more ↦ elim (Bool-cases (ltb (i + 1) capacity)) [
        | inr full ↦
            let left : capacity - 1 - i ≡ 0 = ground arith in
            rw (full, copy_limited, left, append_none (take i dest)) cut
        | inl fits ↦
            let left : capacity - 1 - i ≡ suc (capacity - 1 - (i + 1)) = ground arith in
            let up : i + 1 ≡ suc i = omega arith in
            let longer : take (i + 1) (set dest i c) ≡ take i dest ++ (c ∷ []) =
              rw up (take-set dest i c (omega arith)) in
            let rest =
              copy_limited-text (set dest i c) (i + 1) capacity src (ground arith)
                (omega (arith, length-set dest i c))
                (rw longer (All-append (take i dest) (c ∷ []) nz ((ground arith), tt))) in
            rw (more, fits, copy_limited, text-here c src more, left)
              (rest
                ∙ ap (λ t. t ++ take (capacity - 1 - (i + 1)) (text src)) longer
                ∙ append_assoc (take i dest) (c ∷ []) (take (capacity - 1 - (i + 1)) (text src)))
      ]
    ]

pub copy_string_limited-text :
    (dest : List ℕ) (capacity : ℕ) (src : List ℕ)
    → capacity ≢ 0
    → capacity ≤ length dest
    → text (copy_string_limited dest capacity src) ≡ take (capacity - 1) (text src)
unfolding copy_string_limited
copy_string_limited-text dest capacity src some_room room =
    let e : (capacity == 0) ≡ false = ground arith in
    let start : capacity - 1 - 0 ≡ capacity - 1 = omega arith in
    rw (e, ← start) (copy_limited-text dest 0 capacity src (omega arith) room tt)

-- If the ramdisk lists a file at an index, the call of read_dir for it, with an entry whose name
-- has 128 bytes, returns 0 and an entry whose name is the last component of the file's path, cut
-- to 127 characters: the part that has no slash and that stands after the last slash, or is the
-- whole path if there is none.
pub user_api_read_dir-name :
    (ramdisk : Ramdisk) (path : List ℕ) (index : ℕ) (out : UserDirent) (file : RamdiskFile)
    → Files.read_dir ramdisk path index ≡ some file
    → length out.name ≡ 128
    → (entry : UserDirent) × (base d : List ℕ) × (user_api_read_dir ramdisk
          (some path)
          index
          (some out)
        ≡ (0, some entry))
      × (text file.path ≡ d ++ base)
      × IsFolder d
      × NoSlash base
      × (text entry.name ≡ take 127 base)
unfolding user_api_read_dir dirent_of
user_api_read_dir-name ramdisk path index out file found room =
    let (d, split, folder, plain) = basename-IsBase file.path in
    (
      dirent_of out file,
      text (basename file.path),
      d,
      rw (user_api_read_dir, found) refl,
      split,
      folder,
      plain,
      copy_string_limited-text out.name 128 (basename file.path) (λ e. omega arith)
          (omega (arith, room)),
    )
