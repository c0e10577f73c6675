-- ===== src/Drivers/Lines.antt =====
-- What each device gets from kernel/log.c.
use xbks.Prelude.{
  ℕ, ◌≡◌, refl, ap, inl, inr, Bool, true, false, Bool-cases, List, [], ◌∷◌, ◌++◌, ◌==◌,
  if◌then◌else◌, arith,
}
use xbks.Drivers.Console.{
  Output, debugcon, serial, terminal, out_port, serial_write, tty_characters, tty_write,
  debugcon_bytes, console_write,
}

-- What an output is to one device.
abbrev pub to_debugcon : Output → List ℕ
to_debugcon (debugcon c) = c ∷ []
to_debugcon (serial c) = []
to_debugcon (terminal t) = []
to_debugcon (out_port p c) = []

abbrev pub to_serial : Output → List ℕ
to_serial (debugcon c) = []
to_serial (serial c) = c ∷ []
to_serial (terminal t) = []
to_serial (out_port p c) = []

abbrev pub to_terminal : Output → List ℕ
to_terminal (debugcon c) = []
to_terminal (serial c) = []
to_terminal (terminal t) = t
to_terminal (out_port p c) = []

abbrev pub received : (Output → List ℕ) → List Output → List ℕ
received device [] = []
received device (o ∷ out) = device o ++ received device out

-- A text with a carriage return before each line feed.
abbrev pub with_returns : List ℕ → List ℕ
with_returns [] = []
with_returns (c ∷ t) = if c == 10 then 13 ∷ 10 ∷ with_returns t else c ∷ with_returns t

append_assoc : (a b c : List ℕ) → (a ++ b) ++ c ≡ a ++ (b ++ c)
append_assoc [] b c = refl
append_assoc (x ∷ a) b c = ap (λ t. x ∷ t) (append_assoc a b c)

append_none : (a : List ℕ) → a ++ [] ≡ a
append_none [] = refl
append_none (x ∷ a) = ap (λ t. x ∷ t) (append_none a)

pub received-append :
    (device : Output → List ℕ) (out more : List Output)
    → received device (out ++ more) ≡ received device out ++ received device more
received-append device [] more = refl
received-append device (o ∷ out) more =
    rw
      (
        received-append device out more,
        append_assoc (device o) (received device out) (received device more),
      )
      refl

debugcon_part :
    (t : List ℕ)
    → (received to_debugcon (debugcon_bytes t) ≡ t)
      × (received to_debugcon (serial_write t) ≡ [])
      × (received to_debugcon (tty_characters t) ≡ [])
unfolding debugcon_bytes serial_write tty_characters
debugcon_part [] = (refl, refl, refl)
debugcon_part (c ∷ t) =
    let (a, b, d) = debugcon_part t in
    elim (Bool-cases (c == 10)) [
      | inl e ↦ rw e (ap (λ u. c ∷ u) a, b, d)
      | inr e ↦ rw e (ap (λ u. c ∷ u) a, b, d)
    ]

serial_part :
    (t : List ℕ)
    → (received to_serial (debugcon_bytes t) ≡ [])
      × (received to_serial (serial_write t) ≡ with_returns t)
      × (received to_serial (tty_characters t) ≡ [])
unfolding debugcon_bytes serial_write tty_characters
serial_part [] = (refl, refl, refl)
serial_part (c ∷ t) =
    let (a, b, d) = serial_part t in
    elim (Bool-cases (c == 10)) [
      | inl e ↦ let feed : c ≡ 10 = ground arith in rw feed (a, ap (λ u. 13 ∷ 10 ∷ u) b, d)
      | inr e ↦ rw e (a, ap (λ u. c ∷ u) b, d)
    ]

terminal_part :
    (t : List ℕ)
    → (received to_terminal (debugcon_bytes t) ≡ [])
      × (received to_terminal (serial_write t) ≡ [])
      × (received to_terminal (tty_characters t) ≡ with_returns t)
unfolding debugcon_bytes serial_write tty_characters
terminal_part [] = (refl, refl, refl)
terminal_part (c ∷ t) =
    let (a, b, d) = terminal_part t in
    elim (Bool-cases (c == 10)) [
      | inl e ↦ rw e (a, b, ap (λ u. 13 ∷ 10 ∷ u) d)
      | inr e ↦ rw e (a, b, ap (λ u. c ∷ u) d)
    ]

-- Of a text that is written to the console the debug console gets the text, the serial line the
-- text with a carriage return before each line feed, and the terminal the same as the serial line,
-- or nothing where there is no terminal.
console_write-received :
    (available : Bool) (t : List ℕ)
    → (received to_debugcon (console_write available t) ≡ t)
      × (received to_serial (console_write available t) ≡ with_returns t)
      × (received to_terminal (console_write available t)
          ≡ (if available then with_returns t else []))
unfolding console_write tty_write
console_write-received true t =
    let (a, b, d) = debugcon_part t in
    let (a', b', d') = serial_part t in
    let (a'', b'', d'') = terminal_part t in
    (
      rw
          (
            received-append to_debugcon (debugcon_bytes t) (serial_write t ++ tty_characters t),
            received-append to_debugcon (serial_write t) (tty_characters t),
            a,
            b,
            d,
          )
          (append_none t),
      rw
          (
            received-append to_serial (debugcon_bytes t) (serial_write t ++ tty_characters t),
            received-append to_serial (serial_write t) (tty_characters t),
            a',
            b',
            d',
          )
          (append_none (with_returns t)),
      rw
          (
            received-append to_terminal (debugcon_bytes t) (serial_write t ++ tty_characters t),
            received-append to_terminal (serial_write t) (tty_characters t),
            a'',
            b'',
            d'',
          )
          refl,
    )
console_write-received false t =
    let (a, b, d) = debugcon_part t in
    let (a', b', d') = serial_part t in
    let (a'', b'', d'') = terminal_part t in
    (
      rw
          (
            received-append to_debugcon (debugcon_bytes t) (serial_write t ++ []),
            received-append to_debugcon (serial_write t) [],
            a,
            b,
          )
          (append_none t),
      rw
          (
            received-append to_serial (debugcon_bytes t) (serial_write t ++ []),
            received-append to_serial (serial_write t) [],
            a',
            b',
          )
          (append_none (with_returns t)),
      rw
          (
            received-append to_terminal (debugcon_bytes t) (serial_write t ++ []),
            received-append to_terminal (serial_write t) [],
            a'',
            b'',
          )
          refl,
    )
