-- ===== src/CString.antt =====
-- lib/string.c: the memory routines over a byte-addressed memory, and the string routines over a
-- buffer given as the list of its bytes. A buffer ends its text at its first NUL; the end of the
-- list stands for a NUL too, so that a list with none in it is a terminated string.
pub mod Memory
pub mod Text
mod Tests
use Prim.Native.Char.{code}
use Prim.Native.String.{String}
use xbks.Prelude.{
  ℕ, zero, suc, ◌+◌, ◌%◌, Bool, not, ◌&&◌, ◌||◌, List, [], ◌∷◌, ltb, ◌==◌, if◌then◌else◌,
}
use xbks.Prelude.Int.{ℤ, pos, sub_ℕ}

-- A string literal of the source.
abbrev pub codes : String → List ℕ
codes String.[] = []
codes (String.◌∷◌ c s) = code c ∷ codes s

-- A memory gives the byte at each address.
abbrev pub Mem : Type 0
Mem = ℕ → ℕ

abbrev pub write : Mem → ℕ → ℕ → Mem
write m p v a = if a == p then v else m a

-- The loops take the number of rounds left.
memset_loop : ℕ → ℕ → ℕ → ℕ → Mem → Mem
memset_loop zero i dest value m = m
memset_loop (suc n) i dest value m =
    memset_loop n (i + 1) dest value (write m (dest + i) (value % 256))

unfoldable pub memset : Mem → ℕ → ℕ → ℕ → Mem
unfolding memset_loop
memset m dest value count = memset_loop count 0 dest value m

copy_up : ℕ → ℕ → ℕ → ℕ → Mem → Mem
copy_up zero i dest src m = m
copy_up (suc n) i dest src m = copy_up n (i + 1) dest src (write m (dest + i) (m (src + i)))

copy_down : ℕ → ℕ → ℕ → Mem → Mem
copy_down zero dest src m = m
copy_down (suc i) dest src m = copy_down i dest src (write m (dest + i) (m (src + i)))

unfoldable pub memcpy : Mem → ℕ → ℕ → ℕ → Mem
unfolding copy_up
memcpy m dest src count = copy_up count 0 dest src m

unfoldable pub memmove : Mem → ℕ → ℕ → ℕ → Mem
unfolding copy_up copy_down
memmove m dest src count =
    if (dest == src) || (count == 0)
    then m
    else if ltb dest src
    then copy_up count 0 dest src m
    else copy_down count dest src m

memcmp_loop : ℕ → ℕ → ℕ → ℕ → Mem → ℤ
memcmp_loop zero i lhs rhs m = pos 0
memcmp_loop (suc n) i lhs rhs m =
    let rest = memcmp_loop n (i + 1) lhs rhs m in
    if not (m (lhs + i) == m (rhs + i)) then sub_ℕ (m (lhs + i)) (m (rhs + i)) else rest

unfoldable pub memcmp : Mem → ℕ → ℕ → ℕ → ℤ
unfolding memcmp_loop
memcmp m lhs rhs count = memcmp_loop count 0 lhs rhs m

-- `*s`, and `s + 1`
abbrev pub char_at : List ℕ → ℕ
char_at [] = 0
char_at (c ∷ s) = c

abbrev pub advance : List ℕ → List ℕ
advance [] = []
advance (c ∷ s) = s

unfoldable pub strlen : List ℕ → ℕ
strlen [] = 0
strlen (c ∷ s) = if c == 0 then 0 else suc (strlen s)

unfoldable pub strcmp : List ℕ → List ℕ → ℤ
strcmp [] rhs = sub_ℕ 0 (char_at rhs)
strcmp (c ∷ lhs) rhs =
    let rest = strcmp lhs (advance rhs) in
    if not (c == 0) && (c == char_at rhs) then rest else sub_ℕ c (char_at rhs)

unfoldable pub strncmp : ℕ → List ℕ → List ℕ → ℤ
strncmp zero lhs rhs = pos 0
strncmp (suc n) lhs rhs =
    let rest = strncmp n (advance lhs) (advance rhs) in
    if not (char_at lhs == char_at rhs) || (char_at lhs == 0)
    then sub_ℕ (char_at lhs) (char_at rhs)
    else rest

-- `strcmp(lhs, rhs) == 0`, as the callers test it
abbrev pub is_zero : ℤ → Bool
is_zero (pos n) = n == 0
is_zero _ = Bool.false
