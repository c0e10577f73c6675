-- ===== src/Ramdisk/Terminated.antt =====
-- Texts without a NUL, which the path routines of fs/ramdisk.c keep.
use xbks.Prelude.{
  ℕ, zero, suc, ◌≡◌, ◌≢◌, refl, inl, inr, Bool-cases, List, [], ◌∷◌, ◌==◌, length, take, All, arith,
}
use xbks.CString.{advance, strlen}
use xbks.Ramdisk.Path.{path_size, skip_slashes, at_dot, skip_dots, skip_prefix, normalize_path}

-- A text that ends at its list's end.
abbrev pub NoNul : List ℕ → Type 0
NoNul = All (λ c. c ≢ 0)

pub strlen-NoNul : (s : List ℕ) → NoNul s → strlen s ≡ length s
unfolding strlen
strlen-NoNul [] h = refl
strlen-NoNul (c ∷ s) (ne, h) = ground (arith, strlen-NoNul s h)

pub take-NoNul : (n : ℕ) (s : List ℕ) → NoNul s → NoNul (take n s)
take-NoNul zero s h = tt
take-NoNul (suc n) [] h = tt
take-NoNul (suc n) (c ∷ s) (ne, h) = (ne, take-NoNul n s h)

skip_slashes-NoNul : (s : List ℕ) → NoNul s → NoNul (skip_slashes s)
unfolding skip_slashes
skip_slashes-NoNul [] h = tt
skip_slashes-NoNul (c ∷ s) (ne, h) = elim (Bool-cases (c == b'/')) [
  | inl slash ↦ rw slash (skip_slashes-NoNul s h)
  | inr other ↦ rw other (ne, h)
]

advance-NoNul : (s : List ℕ) → NoNul s → NoNul (advance s)
advance-NoNul [] h = tt
advance-NoNul (c ∷ s) (ne, h) = h

skip_dots-NoNul : (fuel : ℕ) (s : List ℕ) → NoNul s → NoNul (skip_dots fuel s)
unfolding skip_dots
skip_dots-NoNul zero s h = h
skip_dots-NoNul (suc fuel) s h = elim (Bool-cases (at_dot s)) [
  | inl dot ↦ rw dot (skip_dots-NoNul fuel _ (skip_slashes-NoNul _ (advance-NoNul s h)))
  | inr other ↦ rw other h
]

pub normalize_path-NoNul : (s : List ℕ) → NoNul s → NoNul (normalize_path s [] path_size)
unfolding normalize_path skip_prefix
normalize_path-NoNul s h =
    take-NoNul _ _ (take-NoNul 255 _ (skip_dots-NoNul _ _ (skip_slashes-NoNul s h)))
