-- ===== src/Prelude/Bits.antt =====
-- Laws of `&` at variables: the step on the lowest digit, and the masks that the kernel uses.
use Prim.Native.Nat.{
  ℕ, zero, suc, ◌+◌, ◌-◌, ◌*◌, ◌/◌, ◌%◌, ◌^◌, ◌≤◌, ◌<◌, min, bit_and, digits, bit_and-bitwise,
}
use mathlib.Core.Path.{◌≡◌, refl, ap, sym, ◌∙◌, ◌≡⟨◌⟩◌, ◌∎}
use native.Mathlib.Nat.{mod-lt, mod-eq_of_lt, div-add-mod, mul-add-mod_self_left}
use native.Mathlib.Omega.{arith}

-- An operation on digits does not depend on its fuel, if there is a unit for each unit of the first
-- number.
module _ (base : ℕ → ℕ) (op : ℕ → ℕ → ℕ) where
  pub digits_stable : (x y k l : ℕ) → x ≤ k → x ≤ l → digits base op k x y ≡ digits base op l x y
  digits_stable x y zero zero u v = refl
  digits_stable zero y zero (suc l) u v = refl
  digits_stable zero y (suc k) zero u v = refl
  digits_stable zero y (suc k) (suc l) u v = refl
  digits_stable (suc x) y zero (suc l) u v = absurd (omega arith)
  digits_stable (suc x) y (suc k) zero u v = absurd (omega arith)
  digits_stable (suc x) y (suc k) (suc l) u v =
      ap (λ h. h * 2 + op (suc x % 2) (y % 2))
        (digits_stable (suc x / 2) (y / 2) k l (omega arith) (omega arith))

pub bit_and_step :
    (x mask : ℕ) → bit_and x mask ≡ min (x % 2) (mask % 2) + 2 * bit_and (x / 2) (mask / 2)
bit_and_step zero mask = omega (arith, bit_and-bitwise 0 mask, bit_and-bitwise 0 (mask / 2))
bit_and_step (suc n) mask =
    let half = suc n / 2 in
    let inner =
      digits_stable (λ y. 0) min half (mask / 2) n half (omega arith) (omega arith)
      ∙ sym (bit_and-bitwise half (mask / 2)) in
    omega (arith, bit_and-bitwise (suc n) mask, inner)

-- The mask of `k` ones.
abbrev pub ones : ℕ → ℕ
ones zero = 0
ones (suc k) = 2 * ones k + 1

half_ones : (n : ℕ) → (2 * n + 1) / 2 ≡ n
half_ones n = omega arith

half_double : (n : ℕ) → 2 * n / 2 ≡ n
half_double n = omega arith

double_suc : (n : ℕ) → 2 * n + 1 + 1 ≡ 2 * (n + 1)
double_suc n = omega arith

mod_double : (x p : ℕ) → 0 < p → x % (2 * p) ≡ (x / 2) % p * 2 + x % 2
mod_double x p h =
    x % (2 * p)
    ≡⟨ ap (λ k. k % (2 * p)) split ⟩ (2 * p * (x / 2 / p) + r) % (2 * p)
    ≡⟨ mul-add-mod_self_left (2 * p) (x / 2 / p) r ⟩ r % (2 * p)
    ≡⟨ mod-eq_of_lt (omega (arith, mod-lt (x / 2) h)) ⟩ r ∎
  where
    r : ℕ
    r = x / 2 % p * 2 + x % 2

    split : x ≡ 2 * p * (x / 2 / p) + r
    split = omega (arith, div-add-mod (x / 2) p)

-- The empty mask.
bit_and_nothing : (bound x : ℕ) → x ≤ bound → bit_and x 0 ≡ 0
bit_and_nothing bound zero le = refl
bit_and_nothing zero (suc x) le = absurd (omega arith)
bit_and_nothing (suc bound) (suc x) le =
    let halved = bit_and_nothing bound (suc x / 2) (omega arith) in
    omega (arith, bit_and_step (suc x) 0, halved)

pub bit_and-zero : (x : ℕ) → bit_and x 0 ≡ 0
bit_and-zero x = bit_and_nothing x x (omega arith)

-- `x & (2 ^ k - 1)` is `x % 2 ^ k`.
pub bit_and-ones : (k x : ℕ) → bit_and x (ones k) ≡ x % (ones k + 1)
bit_and-ones zero x = omega (arith, bit_and-zero x)
bit_and-ones (suc k) x = omega (
  arith,
  bit_and_step x (ones (suc k)),
  ap (bit_and (x / 2)) (half_ones (ones k)),
  bit_and-ones k (x / 2),
  mod_double x (ones k + 1) (omega arith),
  ap (λ m. x % m) (double_suc (ones k)),
)

-- A mask with a zero in its lowest place.
pub bit_and-double : (x n : ℕ) → bit_and x (2 * n) ≡ 2 * bit_and (x / 2) n
bit_and-double x n = omega (arith, bit_and_step x (2 * n), ap (bit_and (x / 2)) (half_double n))

-- `x & ~511` and `x & ~4095` on 64 bits, and the address mask of a page-table entry.
pub bit_and-tar_mask : (x : ℕ) → x < 2 ^ 64 → bit_and x (2 ^ 64 - 512) ≡ x / 512 * 512
bit_and-tar_mask x h = omega (
  arith,
  bit_and-double x (2 ^ 63 - 256),
  bit_and-double (x / 2) (2 ^ 62 - 128),
  bit_and-double (x / 2 / 2) (2 ^ 61 - 64),
  bit_and-double (x / 2 / 2 / 2) (2 ^ 60 - 32),
  bit_and-double (x / 2 / 2 / 2 / 2) (2 ^ 59 - 16),
  bit_and-double (x / 2 / 2 / 2 / 2 / 2) (2 ^ 58 - 8),
  bit_and-double (x / 2 / 2 / 2 / 2 / 2 / 2) (2 ^ 57 - 4),
  bit_and-double (x / 2 / 2 / 2 / 2 / 2 / 2 / 2) (2 ^ 56 - 2),
  bit_and-double (x / 2 / 2 / 2 / 2 / 2 / 2 / 2 / 2) (2 ^ 55 - 1),
  bit_and-ones 55 (x / 2 / 2 / 2 / 2 / 2 / 2 / 2 / 2 / 2),
)

bit_and-octuple : (x n : ℕ) → bit_and x (8 * n) ≡ 8 * bit_and (x / 8) n
bit_and-octuple x n = omega (
  arith,
  ap (bit_and x) (regroup n),
  bit_and-double x (4 * n),
  ap (bit_and (x / 2)) (regroup_four n),
  bit_and-double (x / 2) (2 * n),
  bit_and-double (x / 2 / 2) n,
  ap (λ k. bit_and k n) (halves x),
)
  where
    regroup : (n : ℕ) → 8 * n ≡ 2 * (4 * n)
    regroup n = omega arith

    regroup_four : (n : ℕ) → 4 * n ≡ 2 * (2 * n)
    regroup_four n = omega arith

    halves : (x : ℕ) → x / 2 / 2 / 2 ≡ x / 8
    halves x = omega arith

-- A mask with twelve zeros in its lowest places.
pub bit_and-page : (x n : ℕ) → bit_and x (4096 * n) ≡ 4096 * bit_and (x / 4096) n
bit_and-page x n = omega (
  arith,
  ap (bit_and x) (regroup n 512),
  bit_and-octuple x (512 * n),
  ap (bit_and (x / 8)) (regroup n 64),
  bit_and-octuple (x / 8) (64 * n),
  ap (bit_and (x / 8 / 8)) (regroup n 8),
  bit_and-octuple (x / 8 / 8) (8 * n),
  bit_and-octuple (x / 8 / 8 / 8) n,
  ap (λ k. bit_and k n) (eighths x),
)
  where
    regroup : (n k : ℕ) → 8 * k * n ≡ 8 * (k * n)
    regroup n k = omega arith

    eighths : (x : ℕ) → x / 8 / 8 / 8 / 8 ≡ x / 4096
    eighths x = omega arith

-- `x & ~4095` on 64 bits.
pub bit_and-page_mask : (x : ℕ) → x < 2 ^ 64 → bit_and x (2 ^ 64 - 4096) ≡ x / 4096 * 4096
bit_and-page_mask x h = omega (arith, bit_and-page x (2 ^ 52 - 1), bit_and-ones 52 (x / 4096))

-- `x & 0x000ffffffffff000`, the frame of a page-table entry.
pub bit_and-frame_mask : (x : ℕ) → bit_and x 0x000ffffffffff000 ≡ x / 4096 % 2 ^ 40 * 4096
bit_and-frame_mask x = omega (arith, bit_and-page x (2 ^ 40 - 1), bit_and-ones 40 (x / 4096))
