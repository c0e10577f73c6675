-- ===== src/Drivers/Typing.antt =====
-- What can be typed on the keyboard of drivers/keyboard.c, and that a wait for a character ends.
use Prim.Native.Nat.{bit_and}
use xbks.Prelude.{
  All, ℕ, zero, suc, ◌+◌, ◌-◌, ◌%◌, ◌<◌, ◌≤◌, ◌≡◌, refl, ap, inl, inr, Bool, true, false, ◌&&◌,
  Option, none, some, List, [], ◌∷◌, Option-cases, ◌==◌, ltb, if◌then◌else◌, arith,
}
use xbks.Prelude.Bits.{bit_and-ones}
use xbks.Drivers.Keyboard.{
  Ports, normal_scancode_map, shifted_scancode_map, char_of, serial_read_byte, read_scancode,
  keyboard_read_char, keyboard_read_char_blocking,
}

-- A PS/2 scan code that is ready while the serial line is silent.
abbrev pub ps2_ports : ℕ → Ports
ps2_ports scancode = record { line_status = 0; line_data = 0; ps2_status = 1; ps2_data = scancode }

-- The characters that a row of scan codes gives.
unfoldable pub type_keys : Bool → List ℕ → List ℕ
type_keys shift_pressed [] = []
type_keys shift_pressed (scancode ∷ scancodes) =
    let (read, shift_after) = keyboard_read_char shift_pressed (ps2_ports scancode) in
    let rest = type_keys shift_after scancodes in elim read [ none ↦ rest | some ch ↦ ch ∷ rest ]

key_of : List (ℕ × ℕ) → ℕ → Option ℕ
key_of [] c = none
key_of ((k, ch) ∷ map) c = if c == ch then some k else key_of map c

-- The keys for a character: Shift pressed or released, and the character's key down and up.
keys_for : ℕ → List ℕ
keys_for c = elim (key_of normal_scancode_map c) [
  | some k ↦ 0xaa ∷ k ∷ (k + 0x80) ∷ []
  | none ↦ elim (key_of shifted_scancode_map c) [ some k ↦ 0x2a ∷ k ∷ (k + 0x80) ∷ [] | none ↦ [] ]
]

is_only : List ℕ → ℕ → Bool
is_only [] c = false
is_only (ch ∷ []) c = ch == c
is_only (ch ∷ _ ∷ chs) c = false

is_only_lem : (chs : List ℕ) (c : ℕ) → is_only chs c ≡ true → chs ≡ c ∷ []
unfolding is_only
is_only_lem [] c h = cc
is_only_lem (ch ∷ []) c h = ap (λ x. x ∷ []) (ground arith)
is_only_lem (ch ∷ _ ∷ chs) c h = cc

are_bytes : List ℕ → Bool
are_bytes [] = true
are_bytes (k ∷ ks) = ltb k 256 && are_bytes ks

are_bytes_lem : (ks : List ℕ) → are_bytes ks ≡ true → All (λ k. k < 256) ks
unfolding are_bytes
are_bytes_lem [] h = tt
are_bytes_lem (k ∷ ks) h = (ground arith, are_bytes_lem ks (ground arith))

types : Bool → ℕ → Bool
types shift_pressed c = is_only (type_keys shift_pressed (keys_for c)) c && are_bytes (keys_for c)

-- Whether all of a row of characters can be typed.
all_type : Bool → ℕ → ℕ → Bool
all_type shift_pressed zero c = true
all_type shift_pressed (suc n) c = types shift_pressed c && all_type shift_pressed n (c + 1)

all_type-types :
    (shift_pressed : Bool) (n c i : ℕ)
    → all_type shift_pressed n c ≡ true
    → i < n
    → types shift_pressed (c + i) ≡ true
unfolding all_type
all_type-types shift_pressed zero c i h b = absurd (omega arith)
all_type-types shift_pressed (suc n) c zero h b =
    let e : c + 0 ≡ c = omega arith in rw e (ground arith)
all_type-types shift_pressed (suc n) c (suc i) h b =
    let e : c + suc i ≡ c + 1 + i = omega arith in
    rw e (all_type-types shift_pressed n (c + 1) i (ground arith) (omega arith))

all_printable : (shift_pressed : Bool) → all_type shift_pressed 95 32 ≡ true
unfolding all_type types keys_for key_of is_only are_bytes type_keys keyboard_read_char
    read_scancode serial_read_byte char_of
all_printable true = refl
all_printable false = refl

-- Every printable ASCII character can be typed: whatever the shift state, there is a row of scan
-- codes, each a byte, for which the keyboard gives that character and no other.
pub keyboard-types :
    (shift_pressed : Bool) (c : ℕ)
    → 32 ≤ c
    → c ≤ 126
    → (scancodes : List ℕ) × All (λ k. k < 256) scancodes
      × (type_keys shift_pressed scancodes ≡ c ∷ [])
unfolding types
keyboard-types shift_pressed c low high =
    let there : 32 + (c - 32) ≡ c = omega arith in
    let h : types shift_pressed c ≡ true =
      rw there at
        (all_type-types shift_pressed 95 32 (c - 32) (all_printable shift_pressed) (omega arith)) in
    (
      keys_for c,
      are_bytes_lem (keys_for c) (ground arith),
      is_only_lem (type_keys shift_pressed (keys_for c)) c (ground arith),
    )

-- Whether a call finds a byte on the serial line.
abbrev pub IsReceived : Ports → Type 0
IsReceived ports = ports.line_status % 2 ≡ 1

received-char :
    (shift_pressed : Bool) (ports : Ports)
    → IsReceived ports
    → (ch : ℕ) × ((keyboard_read_char shift_pressed ports).0 ≡ some ch)
unfolding keyboard_read_char serial_read_byte
received-char shift_pressed ports received =
    let busy : (bit_and ports.line_status 1 == 0) ≡ false =
      ground (arith, bit_and-ones 1 ports.line_status) in
    (
      (if ports.line_data == 13 then 10 else ports.line_data),
      rw (busy, keyboard_read_char, serial_read_byte) refl,
    )

-- If a byte is ready on the serial line in the n-th round after the first, a wait for a character
-- that is given more than n rounds ends with a character in that round or an earlier one, whatever
-- the keyboard gives in the rounds before.
pub blocking-ends :
    (rounds : ℕ) (shift_pressed : Bool) (ports : ℕ → Ports) (round n : ℕ)
    → IsReceived (ports (round + n))
    → n < rounds
    → (ch : ℕ) × (shift_after : Bool) × (next : ℕ) × (keyboard_read_char_blocking rounds
          shift_pressed ports round
        ≡ some (ch, shift_after, next))
      × (next ≤ round + n + 1)
unfolding keyboard_read_char_blocking
blocking-ends zero shift_pressed ports round n received b = absurd (omega arith)
blocking-ends (suc rounds) shift_pressed ports round zero received b =
    let start : round + 0 ≡ round = omega arith in
    let (ch, e) = received-char shift_pressed (ports round) (rw start at received) in
    (
      ch,
      (keyboard_read_char shift_pressed (ports round)).1,
      round + 1,
      rw (e, keyboard_read_char_blocking) refl,
      omega arith,
    )
blocking-ends (suc rounds) shift_pressed ports round (suc n) received b =
    let shift_after = (keyboard_read_char shift_pressed (ports round)).1 in
    elim (Option-cases (keyboard_read_char shift_pressed (ports round)).0) [
      | inr (ch, e) ↦
          (ch, shift_after, round + 1, rw (e, keyboard_read_char_blocking) refl, omega arith)
      | inl e ↦
          let later : round + suc n ≡ round + 1 + n = omega arith in
          let (ch, after, next, same, soon) =
            blocking-ends rounds shift_after ports (round + 1) n (rw later at received)
              (omega arith) in
          (ch, after, next, rw (e, keyboard_read_char_blocking) same, omega arith)
    ]
