-- ===== src/CString/Text.antt =====
-- The string routines of lib/string.c against the text of a buffer: its characters before the NUL.
use xbks.Prelude.{
  ℕ, zero, suc, ◌≡◌, ◌↔◌, refl, List, [], ◌∷◌, ◌==◌, if◌then◌else◌, length, take, arith,
}
use xbks.Prelude.Int.{pos}
use xbks.CString.{strlen, strcmp, strncmp}

unfoldable pub text : List ℕ → List ℕ
text [] = []
text (c ∷ s) = if c == 0 then [] else c ∷ text s

-- strlen is the number of characters before the first NUL.
pub strlen-eq-length : (s : List ℕ) → strlen s ≡ length (text s)
unfolding strlen text
strlen-eq-length [] = refl
strlen-eq-length (c ∷ s) = ground (arith, strlen-eq-length s)

-- strcmp is zero exactly if the two buffers hold the same text up to their first NUL.
pub strcmp_iff : (lhs rhs : List ℕ) → (strcmp lhs rhs ≡ pos 0) ↔ (text lhs ≡ text rhs)
unfolding strcmp text
strcmp_iff [] [] = ground arith
strcmp_iff [] (d ∷ rhs) = ground arith
strcmp_iff (c ∷ lhs) [] = ground (arith, strcmp_iff lhs [])
strcmp_iff (c ∷ lhs) (d ∷ rhs) = ground (arith, strcmp_iff lhs rhs)

take_nil : (n : ℕ) → take {A = ℕ} n [] ≡ []
take_nil zero = refl
take_nil (suc n) = refl

-- strncmp is zero exactly if the texts of the two buffers agree in their first n characters.
pub strncmp_iff :
    (n : ℕ) (lhs rhs : List ℕ)
    → (strncmp n lhs rhs ≡ pos 0) ↔ (take n (text lhs) ≡ take n (text rhs))
unfolding strncmp text
strncmp_iff zero lhs rhs = ground arith
strncmp_iff (suc n) [] [] = ground arith
strncmp_iff (suc n) [] (d ∷ rhs) = ground arith
strncmp_iff (suc n) (c ∷ lhs) [] = ground (arith, strncmp_iff n lhs [])
strncmp_iff (suc n) (c ∷ lhs) (d ∷ rhs) = ground (arith, strncmp_iff n lhs rhs)
