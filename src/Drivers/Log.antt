-- ===== src/Drivers/Log.antt =====
-- The formatted line of the log of kernel/log.c.
use xbks.Prelude.{
  ℕ, zero, suc, ◌+◌, ◌-◌, ◌<◌, ◌^◌, ◌≡◌, ◌≢◌, refl, ap, ◌∙◌, min, Bool, true, false, some, List, [],
  ◌∷◌, All, length, take, length-take, get_or, ◌==◌, ltb, lt→ltb, arith,
}
use xbks.Drivers.Console.{LogLevel, log_write, string_from, log_size, log_printf}
use xbks.Format.Printf.{Argument}
use xbks.Format.Renders.{Renders, filled, vsnprintf-Renders}

-- A string that stands in a buffer.
string_from-get :
    (n i : ℕ) (buffer : ℕ → ℕ) (t : List ℕ)
    → length t < n
    → All (λ c. c ≢ 0) t
    → ((j : ℕ) → j < length t → buffer (i + j) ≡ get_or t j 0)
    → buffer (i + length t) ≡ 0
    → string_from n buffer i ≡ t
unfolding string_from
string_from-get zero i buffer t b nz at end = absurd (omega arith)
string_from-get (suc n) i buffer [] b nz at end =
    let start : i + 0 ≡ i = omega arith in
    let nul : (buffer i == 0) ≡ true = ground (arith, rw start at end) in rw nul refl
string_from-get (suc n) i buffer (c ∷ t) b (cz, nz) at end =
    let start : i + 0 ≡ i = omega arith in
    let first : buffer i ≡ c = rw start at (at 0 (omega arith)) in
    let more : (c == 0) ≡ false = ground arith in
    let last : i + suc (length t) ≡ i + 1 + length t = omega arith in
    rw (first, more)
      (ap (λ u. c ∷ u)
        (string_from-get n (i + 1) buffer t (omega arith) nz
          (λ j bj.
            let step : i + suc j ≡ i + 1 + j = omega arith in rw step at (at (suc j) (omega arith)))
          (rw last at end)))

pub All-take : (n : ℕ) (t : List ℕ) → All (λ c. c ≢ 0) t → All (λ c. c ≢ 0) (take n t)
All-take zero t h = tt
All-take (suc n) [] h = tt
All-take (suc n) (c ∷ t) (cz, h) = (cz, All-take n t h)

get_or-take : (n : ℕ) (t : List ℕ) (j : ℕ) → j < n → get_or (take n t) j 0 ≡ get_or t j 0
get_or-take zero t j b = absurd (omega arith)
get_or-take (suc n) [] j b = refl
get_or-take (suc n) (c ∷ t) zero b = refl
get_or-take (suc n) (c ∷ t) (suc j) b = get_or-take n t j (omega arith)

filled_inside :
    (buffer : ℕ → ℕ) (size : ℕ) (t : List ℕ) (j : ℕ)
    → j < min (length t) (size - 1)
    → filled buffer size t j ≡ get_or t j 0
filled_inside buffer size t j b =
    let inside : ltb j (min (length t) (size - 1)) ≡ true =
      lt→ltb j (min (length t) (size - 1)) b in
    rw inside refl

filled_end :
    (buffer : ℕ → ℕ) (size : ℕ) (t : List ℕ) (j : ℕ)
    → size ≢ 0
    → j ≡ min (length t) (size - 1)
    → filled buffer size t j ≡ 0
filled_end buffer size t j some_size e = ground arith

-- If a format with its arguments stands for a text of fewer than 2^64 characters and no NUL,
-- xbks_log_printf writes the log line of the first 511 characters of the text, whatever its buffer
-- held before.
pub log_printf-Renders :
    (available : Bool) (stack : ℕ → ℕ) (level : LogLevel) (fmt : List ℕ) (args : List Argument)
    (t : List ℕ)
    → Renders fmt args t
    → length t < 2 ^ 64
    → All (λ c. c ≢ 0) t
    → log_printf available stack level fmt args ≡ some (log_write available level (take 511 t))
unfolding log_printf
log_printf-Renders available stack level fmt args t renders fits nz =
    let (after, same, holds) = vsnprintf-Renders stack log_size fmt args t renders fits in
    let count = length-take 511 t in
    let message : string_from log_size after 0 ≡ take 511 t =
      string_from-get log_size 0 after (take 511 t) (omega (arith, count)) (All-take 511 t nz)
        (λ j b.
          let start : 0 + j ≡ j = omega arith in
          rw
            (
              start,
              holds j,
              filled_inside stack log_size t j (omega (arith, count)),
              get_or-take 511 t j (omega (arith, count)),
            )
            refl)
        (holds (0 + length (take 511 t))
          ∙ filled_end stack log_size t (0 + length (take 511 t)) (λ e. omega arith)
              (omega (arith, count))) in
    rw (same, log_printf, message) refl
