-- ===== src/Ramdisk/Normal.antt =====
-- What the path routines of fs/ramdisk.c establish: the normal form of a path, and the way back from
-- a public path.
use xbks.Prelude.{
  ℕ, zero, suc, ◌-◌, ◌≤◌, ◌<◌, ◌≡◌, ◌⊎◌, refl, inl, inr, true, false, Bool-cases, List, [], ◌∷◌,
  ◌==◌, length, take, get_or, length-take, take_of_length-le, arith,
}
use xbks.CString.{char_at}
use xbks.Ramdisk.Path.{
  path_size, skip_slashes, at_dot, skip_dots, trim_slashes, skip_prefix, normalize_path,
  make_public_path, copy_bytes,
}
use xbks.Ramdisk.Terminated.{NoNul, strlen-NoNul}

-- A path in the form that the archive is searched by.
pub record IsNormal (s : List ℕ) : Type 0 where
  pub short : length s ≤ path_size - 1
  pub no_leading_slash : (char_at s == b'/') ≡ false
  pub no_leading_dot : at_dot s ≡ false
  pub no_trailing_slash : (get_or s (length s - 1) 0 == b'/') ≡ false

length-skip_slashes : (s : List ℕ) → length (skip_slashes s) ≤ length s
unfolding skip_slashes
length-skip_slashes [] = omega arith
length-skip_slashes (c ∷ s) = ground (arith, length-skip_slashes s)

char_at-skip_slashes : (s : List ℕ) → (char_at (skip_slashes s) == b'/') ≡ false
unfolding skip_slashes
char_at-skip_slashes [] = refl
char_at-skip_slashes (c ∷ s) = ground (arith, char_at-skip_slashes s)

-- The dot loop ends by its test.
skip_dots_done :
    (fuel : ℕ) (s : List ℕ)
    → length s ≤ fuel
    → (char_at s == b'/') ≡ false
    → (at_dot (skip_dots fuel s) ≡ false) × ((char_at (skip_dots fuel s) == b'/') ≡ false)
unfolding skip_dots
skip_dots_done zero [] h ns = (refl, refl)
skip_dots_done zero (c ∷ s) h ns = absurd (omega arith)
skip_dots_done (suc fuel) [] h ns = (refl, refl)
skip_dots_done (suc fuel) (c ∷ s) h ns = elim (Bool-cases (at_dot (c ∷ s))) [
  | inl dot ↦ rw dot (
      skip_dots_done fuel (skip_slashes s) (omega (arith, length-skip_slashes s))
        (char_at-skip_slashes s))
  | inr other ↦ rw other (other, ns)
]

trim_slashes_bound : (s : List ℕ) (n : ℕ) → trim_slashes s n ≤ n
unfolding trim_slashes
trim_slashes_bound s zero = omega arith
trim_slashes_bound s (suc n) = ground (arith, trim_slashes_bound s n)

trim_slashes_end :
    (s : List ℕ) (n : ℕ)
    → (trim_slashes s n ≡ 0) ⊎ ((get_or s (trim_slashes s n - 1) 0 == b'/') ≡ false)
unfolding trim_slashes
trim_slashes_end s zero = inl refl
trim_slashes_end s (suc n) = elim (Bool-cases (get_or s n 0 == b'/')) [
  | inl slash ↦ rw slash (trim_slashes_end s n)
  | inr other ↦ rw other (inr (let e : suc n - 1 ≡ n = omega arith in rw e other))
]

trim_slashes_cut :
    (s : List ℕ) (n i : ℕ) → trim_slashes s n ≤ i → i < n → (get_or s i 0 == b'/') ≡ true
unfolding trim_slashes
trim_slashes_cut s zero i l h = absurd (omega arith)
trim_slashes_cut s (suc n) i l h = elim (Bool-cases (get_or s n 0 == b'/')) [
  | inl slash ↦ elim (Bool-cases (i == n)) [
    | inl last ↦ let e : i ≡ n = ground arith in rw e slash
    | inr before ↦ trim_slashes_cut s n i (rw slash at l) (ground arith)
  ]
  | inr other ↦ absurd (ground arith)
]

-- A text cut behind position `k` reads as before in front of it.
get_or-take : (s : List ℕ) (k i : ℕ) → i < k → get_or (take k s) i 0 ≡ get_or s i 0
get_or-take s zero i h = absurd (omega arith)
get_or-take [] (suc k) i h = refl
get_or-take (c ∷ s) (suc k) zero h = refl
get_or-take (c ∷ s) (suc k) (suc i) h = get_or-take s k i (omega arith)

char_at-get_or : (s : List ℕ) → char_at s ≡ get_or s 0 0
char_at-get_or [] = refl
char_at-get_or (c ∷ s) = refl

char_at-take :
    (s : List ℕ) (k : ℕ) → (char_at s == b'/') ≡ false → (char_at (take k s) == b'/') ≡ false
char_at-take s zero h = refl
char_at-take [] (suc k) h = refl
char_at-take (c ∷ s) (suc k) h = h

-- The cut of `trim_slashes` makes no dot component: behind a lone dot stood no slash.
at_dot-take :
    (s : List ℕ) (k : ℕ)
    → at_dot s ≡ false
    → ((i : ℕ) → k ≤ i → i < length s → (get_or s i 0 == b'/') ≡ true)
    → at_dot (take k s) ≡ false
at_dot-take s zero h cut = refl
at_dot-take [] (suc k) h cut = refl
at_dot-take (c ∷ []) (suc zero) h cut = h
at_dot-take (c ∷ []) (suc (suc k)) h cut = h
at_dot-take (c ∷ d ∷ s) (suc zero) h cut = ground (arith, cut 1 (omega arith) (omega arith))
at_dot-take (c ∷ d ∷ s) (suc (suc k)) h cut = h

at_dot-take_long : (s : List ℕ) (k : ℕ) → at_dot s ≡ false → 1 < k → at_dot (take k s) ≡ false
at_dot-take_long s zero h lt = refl
at_dot-take_long [] (suc k) h lt = refl
at_dot-take_long (c ∷ s) (suc zero) h lt = absurd (omega arith)
at_dot-take_long (c ∷ []) (suc (suc k)) h lt = h
at_dot-take_long (c ∷ d ∷ s) (suc (suc k)) h lt = h

get_or-nil : (i : ℕ) → get_or {A = ℕ} [] i 0 ≡ 0
get_or-nil zero = refl
get_or-nil (suc i) = refl

-- Whatever path is given, the normalised path has at most 255 characters, no slash and no dot
-- component in front, and no slash at its end.
pub normalize_path-IsNormal : (path : List ℕ) → IsNormal (normalize_path path [] path_size)
unfolding normalize_path skip_prefix
normalize_path-IsNormal path = record {
  short = omega (arith, length-take n s, length-take 255 t);
  no_leading_slash = char_at-take s n (char_at-take t 255 done.1);
  no_leading_dot =
      at_dot-take s n (at_dot-take_long t 255 done.0 (omega arith)) (trim_slashes_cut s (length s));
  no_trailing_slash = elim (trim_slashes_end s (length s)) [
    | inl empty ↦ rw empty refl
    | inr ends ↦ elim (Bool-cases (n == 0)) [
      | inl e ↦ let e' : n ≡ 0 = ground arith in rw e' refl
      | inr pos ↦
          let len : length (take n s) ≡ n = omega (arith, length-take n s, bound) in
          rw (len, get_or-take s n (n - 1) (ground arith)) ends
    ]
  ];
}
  where
    t : List ℕ
    t = skip_dots (length (skip_slashes path)) (skip_slashes path)

    s : List ℕ
    s = take 255 t

    n : ℕ
    n = trim_slashes s (length s)

    bound : n ≤ length s
    bound = trim_slashes_bound s (length s)

    done : (at_dot t ≡ false) × ((char_at t == b'/') ≡ false)
    done =
        skip_dots_done (length (skip_slashes path)) (skip_slashes path) (omega arith)
          (char_at-skip_slashes path)

skip_slashes_none : (s : List ℕ) → (char_at s == b'/') ≡ false → skip_slashes s ≡ s
unfolding skip_slashes
skip_slashes_none [] h = refl
skip_slashes_none (c ∷ s) h = rw h

skip_dots_none : (fuel : ℕ) (s : List ℕ) → at_dot s ≡ false → skip_dots fuel s ≡ s
unfolding skip_dots
skip_dots_none zero s h = refl
skip_dots_none (suc fuel) s h = rw h

trim_slashes_none :
    (s : List ℕ) (n : ℕ) → (get_or s (n - 1) 0 == b'/') ≡ false → trim_slashes s n ≡ n
unfolding trim_slashes
trim_slashes_none s zero h = refl
trim_slashes_none s (suc n) h = let e : suc n - 1 ≡ n = omega arith in rw (rw e at h)

-- A text whose prefix is skipped down to a normal path is normalised to that path.
pub normalize_path_of_skip :
    (path s : List ℕ) → skip_prefix path ≡ s → IsNormal s → normalize_path path [] path_size ≡ s
unfolding normalize_path
normalize_path_of_skip path s skipped v =
    rw
      (skipped, take_of_length-le 255 s v.short, trim_slashes_none s (length s) v.no_trailing_slash)
      (take_of_length-le (length s) s (omega arith))

-- A path in normal form stays as it is.
pub normalize_path_of_IsNormal : (s : List ℕ) → IsNormal s → normalize_path s [] path_size ≡ s
unfolding skip_prefix
normalize_path_of_IsNormal s v =
    normalize_path_of_skip s s
      (rw (skip_slashes_none s v.no_leading_slash) (skip_dots_none (length s) s v.no_leading_dot)) v

-- To normalise a path twice is to normalise it once.
pub normalize_path_idem :
    (path : List ℕ)
    → normalize_path (normalize_path path [] path_size) [] path_size
      ≡ normalize_path path [] path_size
normalize_path_idem path = normalize_path_of_IsNormal _ (normalize_path-IsNormal path)

normalize_path_of_slash : (s : List ℕ) → IsNormal s → normalize_path (b'/' ∷ s) [] path_size ≡ s
unfolding skip_prefix skip_slashes
normalize_path_of_slash s v =
    normalize_path_of_skip (b'/' ∷ s) s
      (rw (skip_slashes_none s v.no_leading_slash) (skip_dots_none (length s) s v.no_leading_dot)) v

make_public_path_cons :
    (s : List ℕ) → NoNul s → length s < path_size - 1 → make_public_path s [] path_size ≡ b'/' ∷ s
unfolding make_public_path copy_bytes
make_public_path_cons [] full room = refl
make_public_path_cons (c ∷ s) full room =
    ground (arith, strlen-NoNul (c ∷ s) full, take_of_length-le (length (c ∷ s)) (c ∷ s))

-- For a path in normal form of fewer than 255 characters, none of them NUL, the normalised path of
-- its public path is the path itself.
pub normalize_path-make_public_path :
    (s : List ℕ)
    → IsNormal s
    → NoNul s
    → length s < path_size - 1
    → normalize_path (make_public_path s [] path_size) [] path_size ≡ s
normalize_path-make_public_path s v full room =
    rw (make_public_path_cons s full room) (normalize_path_of_slash s v)
