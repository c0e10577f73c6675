-- ===== src/CString/Memory.antt =====
-- What memset, memcpy, memmove and memcmp of lib/string.c leave at each address.
use xbks.Prelude.{
  ℕ, zero, suc, ◌+◌, ◌-◌, ◌%◌, ◌≤◌, ◌<◌, ◌≡◌, ◌↔◌, ◌⊎◌, inl, inr, refl, ap, ◌&&◌, true, false, ltb,
  leb, if◌then◌else◌, Bool-cases, arith, ◌==◌,
}
use xbks.Prelude.Int.{pos, sub_ℕ_zero_iff}
use xbks.CString.{
  Mem, write, memset_loop, memset, copy_up, copy_down, memcpy, memmove, memcmp_loop, memcmp,
}

-- Whether `a` is one of the `count` addresses from `p` on.
abbrev pub in_range : (a p count : ℕ) → xbks.Prelude.Bool
in_range a p count = leb p a && ltb a (p + count)

memset_loop_lem :
    (n i dest value : ℕ) (m : Mem) (a : ℕ)
    → memset_loop n i dest value m a ≡ (if in_range a (dest + i) n then value % 256 else m a)
unfolding memset_loop
memset_loop_lem zero i dest value m a = ground arith
memset_loop_lem (suc n) i dest value m a =
    ground (arith, memset_loop_lem n (i + 1) dest value (write m (dest + i) (value % 256)) a)

-- memset sets the count bytes from the destination on to the low byte of the value, and no others.
pub memset_lem :
    (m : Mem) (dest value count a : ℕ)
    → memset m dest value count a ≡ (if in_range a dest count then value % 256 else m a)
unfolding memset
memset_lem m dest value count a = ground (arith, memset_loop_lem count 0 dest value m a)

copy_up_lem :
    (n i dest src : ℕ) (m : Mem) (a : ℕ)
    → (dest ≤ src) ⊎ (src + i + n ≤ dest)
    → copy_up n i dest src m a ≡ (if in_range a (dest + i) n then m (src + (a - dest)) else m a)
unfolding copy_up
copy_up_lem zero i dest src m a h = ground arith
copy_up_lem (suc n) i dest src m a h =
    ground (arith, copy_up_lem n (i + 1) dest src (write m (dest + i) (m (src + i))) a)

copy_down_lem :
    (n dest src : ℕ) (m : Mem) (a : ℕ)
    → src ≤ dest
    → copy_down n dest src m a ≡ (if in_range a dest n then m (src + (a - dest)) else m a)
unfolding copy_down
copy_down_lem zero dest src m a h = ground arith
copy_down_lem (suc n) dest src m a h =
    ground (arith, copy_down_lem n dest src (write m (dest + n) (m (src + n))) a)

-- Where the destination does not start above the source and inside its range, memcpy leaves at the
-- destination the count bytes that stood at the source, and changes no other byte.
pub memcpy_lem :
    (m : Mem) (dest src count a : ℕ)
    → (dest ≤ src) ⊎ (src + count ≤ dest)
    → memcpy m dest src count a ≡ (if in_range a dest count then m (src + (a - dest)) else m a)
unfolding memcpy
memcpy_lem m dest src count a (inl h) = ground (arith, copy_up_lem count 0 dest src m a (inl h))
memcpy_lem m dest src count a (inr h) =
    ground (arith, copy_up_lem count 0 dest src m a (inr (omega arith)))

moved_self : (dest src a : ℕ) → dest ≡ src → dest ≤ a → src + (a - dest) ≡ a
moved_self dest src a e h = omega arith

-- After memmove each of the count bytes at the destination is the one that stood at the source
-- before the call, however the two ranges overlap, and no other byte is changed.
pub memmove_lem :
    (m : Mem) (dest src count a : ℕ)
    → memmove m dest src count a ≡ (if in_range a dest count then m (src + (a - dest)) else m a)
unfolding memmove
memmove_lem m dest src count a = elim (Bool-cases (ltb dest src)) [
  | inl up ↦ rw up (ground (arith, copy_up_lem count 0 dest src m a (inl (ground arith))))
  | inr down ↦ rw down (
      ground (
        arith,
        λ (e : dest ≡ src) (h : dest ≤ a). ap m (moved_self dest src a e h),
        copy_down_lem count dest src m a (ground arith),
      ))
]

memcmp_loop_iff :
    (n i lhs rhs : ℕ) (m : Mem)
    → (memcmp_loop n i lhs rhs m ≡ pos 0)
      ↔ ((k : ℕ) → i ≤ k → k < i + n → m (lhs + k) ≡ m (rhs + k))
unfolding memcmp_loop
memcmp_loop_iff zero i lhs rhs m = ((λ e k l h. absurd (omega arith)), (λ h. refl))
memcmp_loop_iff (suc n) i lhs rhs m = elim (Bool-cases (m (lhs + i) == m (rhs + i))) [
  | inl same ↦ rw same (
    (λ e k l h. elim (Bool-cases (k == i)) [
      | inl here ↦ ground arith
      | inr later ↦ (memcmp_loop_iff n (i + 1) lhs rhs m).0 e k (ground arith) (omega arith)
    ]),
    (λ h. (memcmp_loop_iff n (i + 1) lhs rhs m).1 λ k l b. h k (omega arith) (omega arith)),
  )
  | inr differ ↦ rw differ (
    (λ e. absurd (ground (arith, sub_ℕ_zero_iff (m (lhs + i)) (m (rhs + i))))),
    (λ h. absurd (ground (arith, h i (omega arith) (omega arith)))),
  )
]

-- memcmp is zero exactly if the two ranges hold the same bytes.
pub memcmp_iff :
    (m : Mem) (lhs rhs count : ℕ)
    → (memcmp m lhs rhs count ≡ pos 0) ↔ ((k : ℕ) → k < count → m (lhs + k) ≡ m (rhs + k))
unfolding memcmp
memcmp_iff m lhs rhs count =
    let both = memcmp_loop_iff count 0 lhs rhs m in
    ((λ e k h. both.0 e k (omega arith) (omega arith)), (λ h. both.1 λ k l b. h k (omega arith)))
