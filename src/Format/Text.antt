-- ===== src/Format/Text.antt =====
-- What a text leaves in the sink of lib/format.c, and the texts of the numbers.
use xbks.Prelude.{
  ℕ, zero, suc, ◌+◌, ◌-◌, ◌%◌, ◌<◌, ◌≡◌, refl, ◌∙◌, inl, inr, false, ◌&&◌, List, [], ◌∷◌,
  Bool-cases, length, get_or, ◌==◌, ltb, leb, if◌then◌else◌, arith,
}
use xbks.Format.Sink.{FormatSink, size_mod, sink_putc, sink_write}

get_or_cons :
    (c : ℕ) (t : List ℕ) (i : ℕ) → get_or (c ∷ t) i 0 ≡ (if i == 0 then c else get_or t (i - 1) 0)
get_or_cons c t zero = refl
get_or_cons c t (suc i) = ground arith

pub sink_write-length :
    (sink : FormatSink) (t : List ℕ)
    → sink.length + length t < size_mod
    → (sink_write sink t).length ≡ sink.length + length t
unfolding sink_write sink_putc
sink_write-length sink [] fits = omega arith
sink_write-length sink (c ∷ t) fits =
    omega (arith, sink_write-length (sink_putc sink c) t (omega arith))

pub sink_write-capacity :
    (sink : FormatSink) (t : List ℕ) → (sink_write sink t).capacity ≡ sink.capacity
unfolding sink_write sink_putc
sink_write-capacity sink [] = refl
sink_write-capacity sink (c ∷ t) = sink_write-capacity (sink_putc sink c) t

-- The characters stand from the length on, as far as the capacity leaves room for a NUL.
abbrev pub written : FormatSink → List ℕ → ℕ → ℕ
written sink t j =
    if leb sink.length j && ltb j (sink.length + length t) && ltb (j + 1) sink.capacity
    then get_or t (j - sink.length) 0
    else sink.buffer j

sink_putc-buffer :
    (sink : FormatSink) (c j : ℕ)
    → sink.length + 1 < size_mod
    → (sink_putc sink c).buffer j
      ≡ (if j == sink.length && ltb (sink.length + 1) sink.capacity then c else sink.buffer j)
unfolding sink_putc
sink_putc-buffer sink c j fits =
    let wrap : (sink.length + 1) % size_mod ≡ sink.length + 1 = omega arith in
    elim (Bool-cases (ltb (sink.length + 1) sink.capacity)) [
      | inl room ↦
          let some_room : (sink.capacity == 0) ≡ false = ground arith in
          rw (wrap, room, some_room) (ground arith)
      | inr full ↦
          rw (wrap, full)
            (elim (Bool-cases (sink.capacity == 0)) [
              | inl e ↦ rw e (ground arith)
              | inr e ↦ rw e (ground arith)
            ])
    ]

written-cons :
    (sink : FormatSink) (c : ℕ) (t : List ℕ) (j : ℕ)
    → sink.length + suc (length t) < size_mod
    → written (sink_putc sink c) t j ≡ written sink (c ∷ t) j
unfolding sink_putc
written-cons sink c t j fits =
    let wrap : (sink.length + 1) % size_mod ≡ sink.length + 1 = omega arith in
    elim (Bool-cases (ltb sink.length j)) [
      | inl later ↦
          let same : j - sink.length - 1 ≡ j - (sink.length + 1) = omega arith in
          let not_here : (j == sink.length) ≡ false = ground arith in
          let after : (j - sink.length == 0) ≡ false = ground arith in
          rw
            (
              sink_putc-buffer sink c j (omega arith),
              wrap,
              get_or_cons c t (j - sink.length),
              after,
              same,
              not_here,
            )
            (ground arith)
      | inr now ↦
          rw (sink_putc-buffer sink c j (omega arith), wrap, get_or_cons c t (j - sink.length))
            (ground arith)
    ]

pub sink_write-buffer :
    (sink : FormatSink) (t : List ℕ) (j : ℕ)
    → sink.length + length t < size_mod
    → (sink_write sink t).buffer j ≡ written sink t j
unfolding sink_write sink_putc
sink_write-buffer sink [] j fits = ground arith
sink_write-buffer sink (c ∷ t) j fits =
    sink_write-buffer (sink_putc sink c) t j (omega arith) ∙ written-cons sink c t j fits
