-- ===== src/Prelude/Or.antt =====
-- Laws of `|` at variables: what it does above and below the places of a flag.
use Prim.Native.Nat.{ℕ, zero, suc, ◌+◌, ◌*◌, ◌/◌, ◌%◌, ◌≤◌, ◌<◌, max, bit_or, bit_or-bitwise}
use mathlib.Core.Path.{◌≡◌, refl, ap, ap₂, sym, ◌∙◌}
use native.Mathlib.Omega.{arith}
use xbks.Prelude.Bits.{digits_stable}

pub bit_or_step : (x y : ℕ) → bit_or x y ≡ max (x % 2) (y % 2) + 2 * bit_or (x / 2) (y / 2)
bit_or_step zero y = omega (arith, bit_or-bitwise 0 y, bit_or-bitwise 0 (y / 2))
bit_or_step (suc n) y =
    let half = suc n / 2 in
    let inner =
      digits_stable (λ z. z) max half (y / 2) n half (omega arith) (omega arith)
      ∙ sym (bit_or-bitwise half (y / 2)) in
    omega (arith, bit_or-bitwise (suc n) y, inner)

bit_or_nothing : (bound x : ℕ) → x ≤ bound → bit_or x 0 ≡ x
bit_or_nothing bound zero le = refl
bit_or_nothing zero (suc x) le = absurd (omega arith)
bit_or_nothing (suc bound) (suc x) le =
    let halved = bit_or_nothing bound (suc x / 2) (omega arith) in
    omega (arith, bit_or_step (suc x) 0, halved)

pub bit_or-zero : (x : ℕ) → bit_or x 0 ≡ x
bit_or-zero x = bit_or_nothing x x (omega arith)

bit_or-half : (x y : ℕ) → bit_or x y / 2 ≡ bit_or (x / 2) (y / 2)
bit_or-half x y = omega (arith, bit_or_step x y)

bit_or-eighth : (x y : ℕ) → bit_or x y / 8 ≡ bit_or (x / 8) (y / 8)
bit_or-eighth x y = omega (
  arith,
  bit_or-half x y,
  bit_or-half (x / 2) (y / 2),
  bit_or-half (x / 2 / 2) (y / 2 / 2),
  ap₂ bit_or (eighth x) (eighth y),
)
  where
    eighth : (z : ℕ) → z / 2 / 2 / 2 ≡ z / 8
    eighth z = omega arith

bit_or-page : (x y : ℕ) → bit_or x y / 4096 ≡ bit_or (x / 4096) (y / 4096)
bit_or-page x y = omega (
  arith,
  bit_or-eighth x y,
  bit_or-eighth (x / 8) (y / 8),
  bit_or-eighth (x / 8 / 8) (y / 8 / 8),
  bit_or-eighth (x / 8 / 8 / 8) (y / 8 / 8 / 8),
  ap₂ bit_or (page x) (page y),
)
  where
    page : (z : ℕ) → z / 8 / 8 / 8 / 8 ≡ z / 4096
    page z = omega arith

-- A flag below the page's places changes none of them.
pub bit_or_flag : (x flag : ℕ) → flag < 4096 → bit_or x flag / 4096 ≡ x / 4096
bit_or_flag x flag low =
    let none_left : flag / 4096 ≡ 0 = omega arith in
    bit_or-page x flag ∙ ap (bit_or (x / 4096)) none_left ∙ bit_or-zero (x / 4096)

-- The lowest place of a number with a flag.
pub bit_or_lowest : (x flag : ℕ) → bit_or x flag % 2 ≡ max (x % 2) (flag % 2)
bit_or_lowest x flag = omega (arith, bit_or_step x flag)
