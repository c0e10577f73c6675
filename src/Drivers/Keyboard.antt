-- ===== src/Drivers/Keyboard.antt =====
-- drivers/keyboard.c, and `xbks_serial_read_byte` of drivers/serial.c. What the ports give is an
-- argument: one value for each read of a call.
use Prim.Native.Nat.{bit_and}
use xbks.Prelude.{
  ℕ, zero, suc, ◌+◌, Bool, false, not, ◌||◌, Option, none, some, List, [], ◌∷◌, ◌==◌, leb,
  if◌then◌else◌,
}

-- The serial line's status and data, the PS/2 controller's status and data.
pub record Ports : Type 0 where
  pub line_status : ℕ
  pub line_data : ℕ
  pub ps2_status : ℕ
  pub ps2_data : ℕ

-- A table of scan codes: the entries that are not 0.
abbrev pub normal_scancode_map : List (ℕ × ℕ)
normal_scancode_map =
    (0x01, 27)
    ∷ (0x02, 49)
    ∷ (0x03, 50)
    ∷ (0x04, 51)
    ∷ (0x05, 52)
    ∷ (0x06, 53)
    ∷ (0x07, 54)
    ∷ (0x08, 55)
    ∷ (0x09, 56)
    ∷ (0x0a, 57)
    ∷ (0x0b, 48)
    ∷ (0x0c, 45)
    ∷ (0x0d, 61)
    ∷ (0x0e, 8)
    ∷ (0x0f, 9)
    ∷ (0x10, 113)
    ∷ (0x11, 119)
    ∷ (0x12, 101)
    ∷ (0x13, 114)
    ∷ (0x14, 116)
    ∷ (0x15, 121)
    ∷ (0x16, 117)
    ∷ (0x17, 105)
    ∷ (0x18, 111)
    ∷ (0x19, 112)
    ∷ (0x1a, 91)
    ∷ (0x1b, 93)
    ∷ (0x1c, 10)
    ∷ (0x1e, 97)
    ∷ (0x1f, 115)
    ∷ (0x20, 100)
    ∷ (0x21, 102)
    ∷ (0x22, 103)
    ∷ (0x23, 104)
    ∷ (0x24, 106)
    ∷ (0x25, 107)
    ∷ (0x26, 108)
    ∷ (0x27, 59)
    ∷ (0x28, 39)
    ∷ (0x29, 96)
    ∷ (0x2b, 92)
    ∷ (0x2c, 122)
    ∷ (0x2d, 120)
    ∷ (0x2e, 99)
    ∷ (0x2f, 118)
    ∷ (0x30, 98)
    ∷ (0x31, 110)
    ∷ (0x32, 109)
    ∷ (0x33, 44)
    ∷ (0x34, 46)
    ∷ (0x35, 47)
    ∷ (0x39, 32)
    ∷ []

abbrev pub shifted_scancode_map : List (ℕ × ℕ)
shifted_scancode_map =
    (0x01, 27)
    ∷ (0x02, 33)
    ∷ (0x03, 64)
    ∷ (0x04, 35)
    ∷ (0x05, 36)
    ∷ (0x06, 37)
    ∷ (0x07, 94)
    ∷ (0x08, 38)
    ∷ (0x09, 42)
    ∷ (0x0a, 40)
    ∷ (0x0b, 41)
    ∷ (0x0c, 95)
    ∷ (0x0d, 43)
    ∷ (0x0e, 8)
    ∷ (0x0f, 9)
    ∷ (0x10, 81)
    ∷ (0x11, 87)
    ∷ (0x12, 69)
    ∷ (0x13, 82)
    ∷ (0x14, 84)
    ∷ (0x15, 89)
    ∷ (0x16, 85)
    ∷ (0x17, 73)
    ∷ (0x18, 79)
    ∷ (0x19, 80)
    ∷ (0x1a, 123)
    ∷ (0x1b, 125)
    ∷ (0x1c, 10)
    ∷ (0x1e, 65)
    ∷ (0x1f, 83)
    ∷ (0x20, 68)
    ∷ (0x21, 70)
    ∷ (0x22, 71)
    ∷ (0x23, 72)
    ∷ (0x24, 74)
    ∷ (0x25, 75)
    ∷ (0x26, 76)
    ∷ (0x27, 58)
    ∷ (0x28, 34)
    ∷ (0x29, 126)
    ∷ (0x2b, 124)
    ∷ (0x2c, 90)
    ∷ (0x2d, 88)
    ∷ (0x2e, 67)
    ∷ (0x2f, 86)
    ∷ (0x30, 66)
    ∷ (0x31, 78)
    ∷ (0x32, 77)
    ∷ (0x33, 60)
    ∷ (0x34, 62)
    ∷ (0x35, 63)
    ∷ (0x39, 32)
    ∷ []

-- `map[key]`
unfoldable pub char_of : List (ℕ × ℕ) → ℕ → ℕ
char_of [] key = 0
char_of ((k, ch) ∷ map) key = let rest = char_of map key in if key == k then ch else rest

-- `xbks_serial_read_byte`, which the kernel calls with a place for the byte.
unfoldable pub serial_read_byte : Ports → Option ℕ
serial_read_byte ports = if bit_and ports.line_status 1 == 0 then none else some ports.line_data

-- `xbks_keyboard_init`
abbrev pub keyboard_init : Bool
keyboard_init = false

-- `xbks_keyboard_read_char` after its read of the scan code.
unfoldable pub read_scancode : (shift_pressed : Bool) → ℕ → Option ℕ × Bool
read_scancode shift_pressed scancode =
    let released = not (bit_and scancode 0x80 == 0) in
    let key = bit_and scancode 0x7f in
    if key == 0x2a || key == 0x36
    then (none, not released)
    else if released || leb 128 key
    then (none, shift_pressed)
    else let ch =
        char_of (if shift_pressed then shifted_scancode_map else normal_scancode_map) key in
      (if ch == 0 then none else some ch, shift_pressed)

-- `xbks_keyboard_read_char`: the character, if there is one, and the shift state after the call.
unfoldable pub keyboard_read_char : (shift_pressed : Bool) → Ports → Option ℕ × Bool
keyboard_read_char shift_pressed ports = elim (serial_read_byte ports) [
  | some byte ↦ (some (if byte == 13 then 10 else byte), shift_pressed)
  | none ↦
      if bit_and ports.ps2_status 1 == 0
      then (none, shift_pressed)
      else read_scancode shift_pressed ports.ps2_data
]

-- The rounds of `xbks_keyboard_read_char_blocking` from one on: the character, the shift state, and
-- the round after the last. `none` where the rounds run out.
unfoldable pub keyboard_read_char_blocking :
    (rounds : ℕ) → (shift_pressed : Bool) → (ℕ → Ports) → ℕ → Option (ℕ × Bool × ℕ)
keyboard_read_char_blocking zero shift_pressed ports round = none
keyboard_read_char_blocking (suc rounds) shift_pressed ports round =
    let (read, shift_after) = keyboard_read_char shift_pressed (ports round) in
    let rest = keyboard_read_char_blocking rounds shift_after ports (round + 1) in
    elim read [ some ch ↦ some (ch, shift_after, round + 1) | none ↦ rest ]
