-- ===== src/Ramdisk/Prefix.antt =====
-- When a path of fs/ramdisk.c goes on after another one with a slash.
use xbks.Prelude.{
  ℕ, zero, suc, ◌≤◌, ◌≡◌, ◌↔◌, refl, inl, inr, true, ◌==◌, sym, ◌∙◌, ap, List, [], ◌∷◌, ◌++◌,
  length, take, length-take, get_or, Bool-cases, arith,
}
use xbks.Prelude.Int.{pos, negsuc, ℤ}
use xbks.CString.{strlen, strncmp, is_zero}
use xbks.CString.Text.{text, strncmp_iff, strlen-eq-length}

pub is_zero_iff : (z : ℤ) → (is_zero z ≡ true) ↔ (z ≡ pos 0)
is_zero_iff (pos n) = ground arith
is_zero_iff (negsuc n) = ground arith

get_or-text : (p : List ℕ) (i : ℕ) → i ≤ length (text p) → get_or p i 0 ≡ get_or (text p) i 0
unfolding text
get_or-text [] i h = refl
get_or-text (c ∷ p) zero h = elim (Bool-cases (c == 0)) [
  | inl nul ↦ rw nul (ground arith)
  | inr more ↦ rw more refl
]
get_or-text (c ∷ p) (suc i) h = elim (Bool-cases (c == 0)) [
  | inl nul ↦ absurd (omega (arith, rw nul at h))
  | inr more ↦
      let le : i ≤ length (text p) = omega (arith, rw more at h) in rw more (get_or-text p i le)
]

goes_on :
    (t u : List ℕ)
    → take (length u) t ≡ u
    → get_or t (length u) 0 ≡ 47
    → (rest : List ℕ) × (t ≡ u ++ 47 ∷ rest)
goes_on [] [] same slash = absurd (ground arith)
goes_on [] (d ∷ u) same slash = absurd cc
goes_on (c ∷ t) [] same slash = (t, ap (λ x. x ∷ t) slash)
goes_on (c ∷ t) (d ∷ u) same slash =
    let first : c ≡ d = cc in
    let later : take (length u) t ≡ u = cc in let (rest, e) = goes_on t u later slash in (rest, cc)

pub take-front : (u v : List ℕ) → take (length u) (u ++ v) ≡ u
take-front [] v = refl
take-front (d ∷ u) v = ap (λ t. d ∷ t) (take-front u v)

get_or-front : (u v : List ℕ) → get_or (u ++ 47 ∷ v) (length u) 0 ≡ 47
get_or-front [] v = refl
get_or-front (d ∷ u) v = get_or-front u v

pub length-front : (u v : List ℕ) → length u ≤ length (u ++ v)
length-front [] v = omega arith
length-front (d ∷ u) v = omega (arith, length-front u v)

take_whole : (u : List ℕ) → take (length u) u ≡ u
take_whole [] = refl
take_whole (d ∷ u) = ap (λ t. d ∷ t) (take_whole u)

pub length_zero : (u : List ℕ) → length u ≡ 0 → u ≡ []
length_zero [] e = refl
length_zero (c ∷ u) e = absurd (omega (arith, e))

-- The two tests of a prefix tell whether the text goes on with a slash.
pub tests-goes_on :
    (query p : List ℕ)
    → is_zero (strncmp (strlen query) p query) ≡ true
    → (get_or p (strlen query) 0 == 47) ≡ true
    → (rest : List ℕ) × (text p ≡ text query ++ 47 ∷ rest)
tests-goes_on query p t u =
    let n : strlen query ≡ length (text query) = strlen-eq-length query in
    let t' = rw n at t in
    let u' = rw n at u in
    let same : take (length (text query)) (text p) ≡ text query = ground (
      arith,
      t',
      is_zero_iff (strncmp (length (text query)) p query),
      strncmp_iff (length (text query)) p query,
      take_whole (text query),
    ) in
    let long : length (text query) ≤ length (text p) =
      omega (arith, length-take (length (text query)) (text p), ap length same) in
    let slash : get_or (text p) (length (text query)) 0 ≡ 47 =
      ground (arith, u', get_or-text p (length (text query)) long) in
    goes_on (text p) (text query) same slash

pub goes_on-tests :
    (query p rest : List ℕ)
    → text p ≡ text query ++ 47 ∷ rest
    → (is_zero (strncmp (strlen query) p query) ≡ true) × ((get_or p (strlen query) 0 == 47) ≡ true)
goes_on-tests query p rest split =
    let m = length (text query) in
    let n : strlen query ≡ m = strlen-eq-length query in
    let same : take m (text p) ≡ take m (text query) =
      rw split (take-front (text query) (47 ∷ rest)) ∙ sym (take_whole (text query)) in
    let long : m ≤ length (text p) = rw split (length-front (text query) (47 ∷ rest)) in
    let slash : get_or p m 0 ≡ 47 =
      get_or-text p m long ∙ rw split (get_or-front (text query) rest) in
    rw n (
      ground (arith, same, is_zero_iff (strncmp m p query), strncmp_iff m p query),
      ground (arith, slash),
    )
