-- ===== src/Process/User.antt =====
-- User memory in kernel/process.c: the range check and the copies of strings.
use xbks.Prelude.{
  ℕ, zero, suc, ◌+◌, ◌-◌, ◌*◌, ◌/◌, ◌%◌, Bool, true, false, not, ◌||◌, Option, none, some, List, [],
  ◌∷◌, ltb, leb, ◌==◌, if◌then◌else◌,
}
use xbks.CString.{char_at, advance}
use xbks.Process.Types.{Hardware, Kernel, u64_mod}

abbrev pub user_image_min : ℕ
user_image_min = 0x10000

-- XBKS_USER_TOP
abbrev pub user_top : ℕ
user_top = 0x0000800000000000

abbrev pub max_string : ℕ
max_string = 256

unfoldable pub negative_errno : ℕ → ℕ
negative_errno error = (u64_mod - error) % u64_mod

unfoldable pub user_range_is_valid : ℕ → ℕ → Bool
user_range_is_valid address count =
    if count == 0
    then true
    else if ltb address user_image_min || leb user_top address
    then false
    else ltb (count - 1) (user_top - address)

-- The bytes that `copy_kernel_string` writes, `capacity` at most.
unfoldable pub copy_kernel_string : ℕ → List ℕ → List ℕ
copy_kernel_string zero src = []
copy_kernel_string (suc zero) src = 0 ∷ []
copy_kernel_string (suc (suc n)) src =
    let rest = char_at src ∷ copy_kernel_string (suc n) (advance src) in
    if char_at src == 0 then 0 ∷ [] else rest

-- `n` bytes as they stand in memory, lowest first.
unfoldable pub le_bytes : ℕ → ℕ → List ℕ
le_bytes zero v = []
le_bytes (suc n) v = v % 256 ∷ le_bytes n (v / 256)

module _ {H : Type 0} (hw : Hardware H) where
  -- The byte at a user address, and bytes written from an address on.
  unfoldable pub load_user : Kernel H → ℕ → ℕ
  load_user k address = hw.peek k.machine k.mm (address % u64_mod)

  unfoldable pub store_user : Kernel H → ℕ → List ℕ → Kernel H
  store_user k address [] = k
  store_user k address (b ∷ bytes) =
      store_user (record k { mm = hw.poke k.machine k.mm (address % u64_mod) b }) (address + 1)
        bytes

  -- A 64-bit word of user memory.
  unfoldable pub load_user_word : ℕ → Kernel H → ℕ → ℕ
  load_user_word zero k address = 0
  load_user_word (suc n) k address = load_user k address + 256 * load_user_word n k (address + 1)

  -- The loop of `copy_user_string`, `n` rounds left: `none` where it returns false.
  unfoldable pub copy_user_chars : ℕ → Kernel H → ℕ → Option (List ℕ)
  copy_user_chars zero k address = none
  copy_user_chars (suc n) k address =
      let rest = copy_user_chars n k (address + 1) in
      if not (user_range_is_valid (address % u64_mod) 1)
      then none
      else if load_user k address == 0
      then some []
      else elim rest [ none ↦ none | some s ↦ some (load_user k address ∷ s) ]

  unfoldable pub copy_user_string : ℕ → Kernel H → ℕ → Option (List ℕ)
  copy_user_string capacity k source =
      if (capacity == 0) || not (user_range_is_valid source 1)
      then none
      else copy_user_chars capacity k source

  -- The loop of `copy_user_string_array` at the address of the next pointer.
  unfoldable pub copy_user_strings : ℕ → Kernel H → ℕ → Option (List (List ℕ))
  copy_user_strings zero k at = none
  copy_user_strings (suc n) k at =
      let rest = copy_user_strings n k (at + 8) in
      if not (user_range_is_valid (at % u64_mod) 8)
      then none
      else if load_user_word 8 k at == 0
      then some []
      else elim (copy_user_string max_string k (load_user_word 8 k at)) [
        | none ↦ none
        | some s ↦ elim rest [ none ↦ none | some ss ↦ some (s ∷ ss) ]
      ]

  unfoldable pub copy_user_string_array : ℕ → Kernel H → ℕ → Option (List (List ℕ))
  copy_user_string_array max_strings k user_values =
      if user_values == 0 then some [] else copy_user_strings max_strings k user_values
