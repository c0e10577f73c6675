-- ===== src/Ramdisk/Below.antt =====
-- The entries below a path of fs/ramdisk.c, which `is_directory_prefix` finds out.
use xbks.Prelude.{
  ℕ, ◌≡◌, ◌≢◌, ◌⊎◌, inl, inr, true, false, some, some_inj, List, [], ◌∷◌, ◌++◌, length, All, Any,
  sym, ◌∙◌, ap, Bool-cases, Option-cases, arith,
}
use xbks.CString.{strlen}
use xbks.CString.Text.{text, strlen-eq-length}
use xbks.Ramdisk.Prefix.{tests-goes_on, goes_on-tests, length_zero}
use xbks.Ramdisk.Tar.{Entry, tar_path}
use xbks.Ramdisk.Files.{is_directory_prefix}

-- The entry's path goes on after the query, which is not empty, with a slash.
abbrev pub Below : List ℕ → Entry → Type 0
Below query e =
    (p rest : List ℕ) × (tar_path e.header ≡ some p)
    × (text query ≢ [])
    × (text p ≡ text query ++ 47 ∷ rest)

-- The code's test finds out whether the entry lies below.
pub prefix-Below :
    (query p : List ℕ) (e : Entry)
    → tar_path e.header ≡ some p
    → is_directory_prefix p query ≡ true
    → Below query e
unfolding is_directory_prefix
prefix-Below query p e named t =
    let (rest, split) = tests-goes_on query p (ground arith) (ground arith) in
    let n = strlen-eq-length query in
    (p, rest, named, (λ none. absurd (ground (arith, n, ap length none))), split)

pub Below-prefix :
    (query p rest : List ℕ)
    → text query ≢ []
    → text p ≡ text query ++ 47 ∷ rest
    → is_directory_prefix p query ≡ true
unfolding is_directory_prefix
Below-prefix query p rest some_query split =
    let (starts, slash) = goes_on-tests query p rest split in
    let filled : strlen query ≢ 0 =
      λ z. some_query (length_zero (text query) (sym (strlen-eq-length query) ∙ z)) in
    ground (arith, starts, slash, filled)

-- Whether some entry lies below the query is decided.
decide_one : (query : List ℕ) (e : Entry) → Below query e ⊎ (¬ Below query e)
decide_one query e = elim (Option-cases (tar_path e.header)) [
  | inl unnamed ↦ inr (λ x. cc (x.2, unnamed))
  | inr (q, is_q) ↦ elim (Bool-cases (is_directory_prefix q query)) [
    | inl starts ↦ inl (prefix-Below query q e is_q starts)
    | inr other ↦ inr (not_there q is_q other)
  ]
]
  where
    not_there :
        (q : List ℕ)
        → tar_path e.header ≡ some q
        → is_directory_prefix q query ≡ false
        → ¬ Below query e
    not_there q is_q other (p, rest, is, filled, t) =
        let same : p ≡ q = some_inj (sym is ∙ is_q) in
        cc (rw same at (Below-prefix query p rest filled t), other)

pub decide_list :
    (query : List ℕ) (es : List Entry) → Any (Below query) es ⊎ All (λ b. ¬ Below query b) es
decide_list query [] = inr tt
decide_list query (e ∷ es) = elim (decide_one query e) [
  | inl here ↦ inl (inl here)
  | inr apart ↦ elim (decide_list query es) [
    | inl later ↦ inl (inr later)
    | inr none_later ↦ inr (apart, none_later)
  ]
]
