-- ===== src/Format/Numbers.antt =====
-- The numbers that `sink_write_unsigned` and `sink_write_signed` of lib/format.c write.
use xbks.Prelude.{
  ℕ, zero, suc, ◌+◌, ◌-◌, ◌*◌, ◌/◌, ◌%◌, ◌^◌, ◌≤◌, ◌<◌, ◌≡◌, ◌≢◌, ◌⊎◌, refl, ap, sym, ◌∙◌, inl, inr,
  Bool, true, false, not, List, [], ◌∷◌, ◌++◌, Bool-cases, length, length-append, get_or, ◌==◌, ltb,
  leb, if◌then◌else◌, arith,
}
use xbks.Format.Sink.{
  FormatSink, sink_putc, sink_write, alphabet, fill_digits, put_digits, sink_write_unsigned,
  sink_write_signed, negated,
}

abbrev pub backwards : List ℕ → List ℕ
backwards [] = []
backwards (d ∷ ds) = backwards ds ++ (d ∷ [])

-- The text of a number.
abbrev pub numeral : (value base : ℕ) → (uppercase : Bool) → List ℕ
numeral value base uppercase =
    if value == 0 then 48 ∷ [] else backwards (fill_digits 64 value base uppercase)

abbrev pub signed_numeral : ℕ → List ℕ
signed_numeral value =
    if not (ltb value (2 ^ 63))
    then 45 ∷ numeral (2 ^ 64 - value) 10 false
    else numeral value 10 false

pub sink_write-append :
    (sink : FormatSink) (t u : List ℕ) → sink_write sink (t ++ u) ≡ sink_write (sink_write sink t) u
unfolding sink_write
sink_write-append sink [] u = refl
sink_write-append sink (c ∷ t) u = sink_write-append (sink_putc sink c) t u

put_digits-backwards :
    (sink : FormatSink) (ds : List ℕ) → put_digits sink ds ≡ sink_write sink (backwards ds)
unfolding sink_write
put_digits-backwards sink [] = refl
put_digits-backwards sink (d ∷ ds) =
    ap (λ s. sink_putc s d) (put_digits-backwards sink ds)
    ∙ sym (sink_write-append sink (backwards ds) (d ∷ []))

pub sink_write_unsigned-numeral :
    (sink : FormatSink) (value base : ℕ) (uppercase : Bool)
    → sink_write_unsigned sink value base uppercase ≡ sink_write sink (numeral value base uppercase)
unfolding sink_write_unsigned sink_write
sink_write_unsigned-numeral sink value base uppercase = elim (Bool-cases (value == 0)) [
  | inl e ↦ rw e refl
  | inr e ↦ rw e (put_digits-backwards sink (fill_digits 64 value base uppercase))
]

pub sink_write_signed-numeral :
    (sink : FormatSink) (value : ℕ)
    → value < 2 ^ 64
    → sink_write_signed sink value ≡ sink_write sink (signed_numeral value)
unfolding sink_write_signed sink_write
sink_write_signed-numeral sink value fits = elim (Bool-cases (ltb value (2 ^ 63))) [
  | inl e ↦ rw e (sink_write_unsigned-numeral sink value 10 false)
  | inr e ↦
      let big : 2 ^ 63 ≤ value = ground arith in
      let magnitude : negated value ≡ 2 ^ 64 - value = omega arith in
      rw (e, magnitude) (sink_write_unsigned-numeral (sink_putc sink 45) (2 ^ 64 - value) 10 false)
]

-- The number that a text reads as.
abbrev pub digit_value : ℕ → ℕ
digit_value c = if leb 97 c then c - 87 else if leb 65 c then c - 55 else c - 48

abbrev pub read_number : (base number : ℕ) → List ℕ → ℕ
read_number base number [] = number
read_number base number (c ∷ t) = read_number base (number * base + digit_value c) t

digit_value-alphabet : (uppercase : Bool) (d : ℕ) → d < 16 → digit_value (alphabet uppercase d) ≡ d
digit_value-alphabet true d b = ground arith
digit_value-alphabet false d b = ground arith

read_number-append :
    (base number : ℕ) (t u : List ℕ)
    → read_number base number (t ++ u) ≡ read_number base (read_number base number t) u
read_number-append base number [] u = refl
read_number-append base number (c ∷ t) u =
    read_number-append base (number * base + digit_value c) t u

abbrev pub IsBase : ℕ → Type 0
IsBase base = (base ≡ 10) ⊎ (base ≡ 16)

quotient_small : (base n value : ℕ) → IsBase base → value < 2 ^ suc n → value / base < 2 ^ n
quotient_small base n value (inl e) b = rw e (omega arith)
quotient_small base n value (inr e) b = rw e (omega arith)

remainder_small : (base value : ℕ) → IsBase base → value % base < 16
remainder_small base value (inl e) = rw e (omega arith)
remainder_small base value (inr e) = rw e (omega arith)

quotient_remainder : (base value : ℕ) → IsBase base → value / base * base + value % base ≡ value
quotient_remainder base value (inl e) = rw e (omega arith)
quotient_remainder base value (inr e) = rw e (omega arith)

read_digits :
    (n value base : ℕ) (uppercase : Bool)
    → IsBase base
    → value < 2 ^ n
    → read_number base 0 (backwards (fill_digits n value base uppercase)) ≡ value
unfolding fill_digits
read_digits zero value base uppercase ok b = omega arith
read_digits (suc n) value base uppercase ok b = elim (Bool-cases (value == 0)) [
  | inl e ↦ rw e (ground arith)
  | inr e ↦
      rw
        (
          e,
          read_number-append base 0 (backwards (fill_digits n (value / base) base uppercase))
              (alphabet uppercase (value % base) ∷ []),
          read_digits n (value / base) base uppercase ok (quotient_small base n value ok b),
          digit_value-alphabet uppercase (value % base) (remainder_small base value ok),
        )
        (quotient_remainder base value ok)
]

first-append : (t u : List ℕ) → get_or t 0 48 ≢ 48 → get_or (t ++ u) 0 48 ≡ get_or t 0 48
first-append [] u ne = absurd (ne refl)
first-append (c ∷ t) u ne = refl

quotient_zero : (base value : ℕ) → IsBase base → value / base ≡ 0 → value % base ≡ value
quotient_zero base value (inl b) e = rw b (omega (arith, rw b at e))
quotient_zero base value (inr b) e = rw b (omega (arith, rw b at e))

alphabet-nonzero : (uppercase : Bool) (d : ℕ) → d < 16 → d ≢ 0 → alphabet uppercase d ≢ 48
alphabet-nonzero true d b nz = ground arith
alphabet-nonzero false d b nz = ground arith

fill_digits_zero : (n base : ℕ) (uppercase : Bool) → fill_digits n 0 base uppercase ≡ []
unfolding fill_digits
fill_digits_zero zero base uppercase = refl
fill_digits_zero (suc n) base uppercase = refl

no_leading_zero :
    (n value base : ℕ) (uppercase : Bool)
    → IsBase base
    → value < 2 ^ n
    → value ≢ 0
    → get_or (backwards (fill_digits n value base uppercase)) 0 48 ≢ 48
unfolding fill_digits
no_leading_zero zero value base uppercase ok b nz = absurd (omega arith)
no_leading_zero (suc n) value base uppercase ok b nz =
    let some_value : (value == 0) ≡ false = ground arith in
    let last = alphabet uppercase (value % base) ∷ [] in
    elim (Bool-cases (value / base == 0)) [
      | inl e ↦
          let whole : value % base ≡ value = quotient_zero base value ok (ground arith) in
          let none_left : value / base ≡ 0 = ground arith in
          rw (some_value, none_left, fill_digits_zero n base uppercase, whole)
            (alphabet-nonzero uppercase value (omega (arith, remainder_small base value ok)) nz)
      | inr e ↦
          let more =
            no_leading_zero n (value / base) base uppercase ok (quotient_small base n value ok b)
              (ground arith) in
          rw
            (
              some_value,
              first-append (backwards (fill_digits n (value / base) base uppercase)) last more,
            )
            more
    ]

tenth : (base k value : ℕ) → IsBase base → value < 10 ^ suc k → value / base < 10 ^ k
tenth base k value (inl e) b = rw e (omega arith)
tenth base k value (inr e) b = rw e (omega arith)

digit_count :
    (n k value base : ℕ) (uppercase : Bool)
    → IsBase base
    → value < 10 ^ k
    → length (fill_digits n value base uppercase) ≤ k
unfolding fill_digits
digit_count zero k value base uppercase ok b = omega arith
digit_count (suc n) zero value base uppercase ok b =
    let e : (value == 0) ≡ true = ground arith in rw e (omega arith)
digit_count (suc n) (suc k) value base uppercase ok b = elim (Bool-cases (value == 0)) [
  | inl e ↦ rw e (omega arith)
  | inr e ↦
      rw e
        (omega (arith, digit_count n k (value / base) base uppercase ok (tenth base k value ok b)))
]

length-backwards : (ds : List ℕ) → length (backwards ds) ≡ length ds
length-backwards [] = refl
length-backwards (d ∷ ds) =
    omega (arith, length-append (backwards ds) (d ∷ []), length-backwards ds)

-- A 64-bit number in base 10 or 16 is written as a text that reads back as the number, has no zero
-- in front where the number is not zero, and has at most 20 digits, fewer than the array of 32
-- holds.
pub sink_write_unsigned-reads :
    (sink : FormatSink) (value base : ℕ) (uppercase : Bool)
    → IsBase base
    → value < 2 ^ 64
    → (t : List ℕ) × (sink_write_unsigned sink value base uppercase ≡ sink_write sink t)
      × (read_number base 0 t ≡ value)
      × (value ≢ 0 → get_or t 0 48 ≢ 48)
      × (length t ≤ 20)
sink_write_unsigned-reads sink value base uppercase ok fits =
    let same = sink_write_unsigned-numeral sink value base uppercase in
    elim (Bool-cases (value == 0)) [
      | inl e ↦
          let zero_value : value ≡ 0 = ground arith in
          (
            numeral value base uppercase,
            same,
            rw zero_value (omega arith),
            (λ nz. absurd (nz zero_value)),
            rw zero_value (omega arith),
          )
      | inr e ↦ (
        numeral value base uppercase,
        same,
        rw e (read_digits 64 value base uppercase ok fits),
        rw e (no_leading_zero 64 value base uppercase ok fits),
        rw e (
            omega (
              arith,
              length-backwards (fill_digits 64 value base uppercase),
              digit_count 64 20 value base uppercase ok (omega arith),
            )),
      )
    ]
