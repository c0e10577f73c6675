-- ===== src/Ramdisk/Children.antt =====
-- The child of a directory that an entry shows, `child_name_for_directory` of fs/ramdisk.c, in terms
-- of the texts.
use xbks.Prelude.{
  ℕ, suc, ◌+◌, ◌≡◌, ◌≢◌, ◌⊎◌, refl, inl, inr, Bool, true, false, ◌==◌, sym, ◌∙◌, ap, some, some_inj,
  List, [], ◌∷◌, ◌++◌, All, length, take, drop, get_or, Bool-cases, arith,
}
use xbks.CString.{strlen, strncmp, is_zero}
use xbks.CString.Text.{text, strlen-eq-length}
use xbks.Ramdisk.Prefix.{tests-goes_on, goes_on-tests, length_zero}
use xbks.Ramdisk.Path.{component_length, relative_path}
use xbks.Ramdisk.Terminated.{NoNul}

-- The rest of a path below a directory.
abbrev pub Under : List ℕ → List ℕ → List ℕ → Type 0
Under directory path relative =
    ((text directory ≡ []) × (relative ≡ path))
    ⊎ ((text directory ≢ []) × (path ≡ text directory ++ 47 ∷ relative))

-- The first component of a rest, and whether more follows it.
abbrev pub IsFirst : List ℕ → List ℕ → Bool → Type 0
IsFirst relative child nested =
    All (λ c. c ≢ 47) child
    × (((nested ≡ false) × (relative ≡ child))
        ⊎ ((nested ≡ true) × (rest : List ℕ) × (relative ≡ child ++ 47 ∷ rest)))

pub text_whole : (s : List ℕ) → NoNul s → text s ≡ s
unfolding text
text_whole [] h = refl
text_whole (c ∷ s) (ne, h) =
    let e : (c == 0) ≡ false = ground arith in rw (e, text) (ap (λ t. c ∷ t) (text_whole s h))

drop-front : (u v : List ℕ) → drop (length u + 1) (u ++ 47 ∷ v) ≡ v
drop-front [] v = refl
drop-front (c ∷ u) v =
    let e : length (c ∷ u) + 1 ≡ suc (length u + 1) = omega arith in rw e (drop-front u v)

-- The code's rest of the path is the one below the directory.
pub relative_path-Under :
    (path directory relative : List ℕ)
    → NoNul path
    → relative_path path directory ≡ some relative
    → Under directory path relative
unfolding relative_path
relative_path-Under path directory relative full e =
    let n = strlen-eq-length directory in
    elim (Bool-cases (strlen directory == 0)) [
      | inl root ↦
          inl (length_zero (text directory) (ground (arith, n)), some_inj (sym (rw root at e)))
      | inr inner ↦ elim (Bool-cases (is_zero (strncmp (strlen directory) path directory))) [
        | inr apart ↦ cc (rw (inner, apart) at e)
        | inl starts ↦ elim (Bool-cases (get_or path (strlen directory) 0 == 47)) [
          | inr other ↦ cc (rw (inner, starts, other) at e)
          | inl slash ↦
              let (rest, split) = tests-goes_on directory path starts slash in
              let whole : path ≡ text directory ++ 47 ∷ rest = sym (text_whole path full) ∙ split in
              let got : drop (strlen directory + 1) path ≡ relative =
                some_inj (rw (inner, starts, slash) at e) in
              let is : drop (strlen directory + 1) path ≡ rest = rw n (
                ap (drop (length (text directory) + 1)) whole ∙ drop-front (text directory) rest) in
              inr (
                λ x. absurd (ground (arith, n, ap length x)),
                whole ∙ ap (λ t. text directory ++ 47 ∷ t) (sym is ∙ got),
              )
        ]
      ]
    ]

pub Under-relative_path :
    (path directory relative : List ℕ)
    → NoNul path
    → Under directory path relative
    → relative_path path directory ≡ some relative
unfolding relative_path
Under-relative_path path directory relative full (inl (root, is)) =
    let e : (strlen directory == 0) ≡ true =
      ground (arith, strlen-eq-length directory, ap length root) in
    rw e (ap some (sym is))
Under-relative_path path directory relative full (inr (some_directory, split)) =
    let n = strlen-eq-length directory in
    let filled : strlen directory ≢ 0 =
      λ z. some_directory (length_zero (text directory) (sym n ∙ z)) in
    let inner : (strlen directory == 0) ≡ false = ground arith in
    let (starts, slash) = goes_on-tests directory path relative (text_whole path full ∙ split) in
    rw (inner, starts, slash)
      (ap some (
        rw n
          (ap (drop (length (text directory) + 1)) split ∙ drop-front (text directory) relative)))

-- The code's component is the first one.
pub component-IsFirst :
    (s : List ℕ)
    → NoNul s
    → IsFirst s (take (component_length s) s) (get_or s (component_length s) 0 == 47)
unfolding component_length
component-IsFirst [] h = (tt, inl (refl, refl))
component-IsFirst (c ∷ s) (ne, h) = elim (Bool-cases (c == 47)) [
  | inl slash ↦
      let is : c ≡ 47 = ground arith in rw (slash, is, component_length) (tt, inr (refl, s, refl))
  | inr more ↦
      let nz : (c == 0) ≡ false = ground arith in
      rw (nz, more, component_length)
        (let (plain, ends) = component-IsFirst s h in
          (
            (ground arith, plain),
            elim ends [
              | inl (last, e) ↦ inl (last, ap (λ t. c ∷ t) e)
              | inr (nested, rest, e) ↦ inr (nested, rest, ap (λ t. c ∷ t) e)
            ],
          ))
]

pub component_length-first :
    (child rest : List ℕ)
    → NoNul child
    → All (λ c. c ≢ 47) child
    → (component_length child ≡ length child)
      × (component_length (child ++ 47 ∷ rest) ≡ length child)
      × (get_or child (length child) 0 ≡ 0)
      × (get_or (child ++ 47 ∷ rest) (length child) 0 ≡ 47)
      × (take (length child) child ≡ child)
unfolding component_length
component_length-first [] rest h p = (refl, refl, refl, refl, refl)
component_length-first (c ∷ child) rest (ne, h) (ns, p) =
    let (a, b, x, y, z) = component_length-first child rest h p in
    let e : (c == 0) ≡ false = ground arith in
    let e' : (c == 47) ≡ false = ground arith in
    (rw (e, e') (ap suc a), rw (e, e') (ap suc b), x, y, ap (λ t. c ∷ t) z)
