-- ===== src/Ramdisk/Find.antt =====
-- What `xbks_ramdisk_find` of fs/ramdisk.c returns, in terms of the archive's entries.
use xbks.Prelude.{
  ℕ, zero, suc, ◌<◌, ◌≡◌, ◌↔◌, refl, inl, inr, Bool, true, false, ◌||◌, none, some, List, [], ◌∷◌,
  ◌++◌, length, All, Any, Option-cases, ◌≢◌, ◌⊎◌, ap, if◌then◌else◌, arith,
}
use xbks.CString.{char_at, strcmp, is_zero}
use xbks.CString.Text.{text, strcmp_iff}
use xbks.Ramdisk.Below.{Below, prefix-Below, Below-prefix, decide_list}
use xbks.Ramdisk.Prefix.{is_zero_iff}
use xbks.Ramdisk.Path.{path_size, normalize_path}
use xbks.Ramdisk.Tar.{Ramdisk, Entry, tar_path, fill_file, next_offset}
use xbks.Ramdisk.Files.{
  rounds, Found, found, missing, is_directory_prefix, find_header, directory_file, file_of_found,
  find,
}
use xbks.Ramdisk.Members.{Members, stop, next, IsValid, length-lt-rounds}

pub same_text_iff : (a b : List ℕ) → (is_zero (strcmp a b) ≡ true) ↔ (text a ≡ text b)
same_text_iff a b = ground (arith, is_zero_iff (strcmp a b), strcmp_iff a b)

-- The entry's path is the query.
abbrev pub Names : List ℕ → Entry → Type 0
Names query e = (p : List ℕ) × (tar_path e.header ≡ some p) × (text p ≡ text query)

-- The search over the list of entries.
search_members : List ℕ → List Entry → Bool → Found
search_members query [] directory_prefix = missing directory_prefix
search_members query (e ∷ es) directory_prefix = elim (tar_path e.header) [
  | none ↦ search_members query es directory_prefix
  | some path ↦
      let rest = search_members query es (directory_prefix || is_directory_prefix path query) in
      if is_zero (strcmp path query)
      then found (fill_file e.header path e.data_offset e.file_size)
      else rest
]

find_header-search :
    (fuel : ℕ) (r : Ramdisk) (query : List ℕ) (offset : ℕ) (directory_prefix : Bool)
    (es : List Entry)
    → Members r offset es
    → length es < fuel
    → find_header fuel r query offset directory_prefix ≡ search_members query es directory_prefix
unfolding find_header search_members
find_header-search zero r query offset d es m h = absurd (omega arith)
find_header-search (suc fuel) r query offset d [] (stop ends) h = rw (ends, find_header)
find_header-search (suc fuel) r query offset d (e ∷ es) (next got m) h =
    elim (Option-cases (tar_path e.header)) [
      | inl unnamed ↦
          ground (arith, find_header-search fuel r query (next_offset e) d es m (omega arith))
      | inr (path, named) ↦ ground (
        arith,
        find_header-search fuel r query (next_offset e) (d || is_directory_prefix path query) es m
            (omega arith),
      )
    ]

search_first :
    (query : List ℕ) (before : List Entry) (e : Entry) (after : List Entry) (d : Bool) (p : List ℕ)
    → All (λ b. ¬ Names query b) before
    → tar_path e.header ≡ some p
    → text p ≡ text query
    → search_members query (before ++ e ∷ after) d
      ≡ found (fill_file e.header p e.data_offset e.file_size)
unfolding search_members
search_first query [] e after d p none_before named same = ground (arith, same_text_iff p query)
search_first query (b ∷ before) e after d p (other, none_before) named same =
    elim (Option-cases (tar_path b.header)) [
      | inl unnamed ↦ ground (arith, search_first query before e after d p none_before named same)
      | inr (q, is_q) ↦ ground (
        arith,
        search_first query before e after (d || is_directory_prefix q query) p none_before named
            same,
        same_text_iff q query,
        λ (t : text q ≡ text query). other (q, is_q, t),
      )
    ]

search_none :
    (query : List ℕ) (es : List Entry) (d : Bool)
    → All (λ b. ¬ Names query b) es
    → All (λ b. ¬ Below query b) es
    → search_members query es d ≡ missing d
unfolding search_members
search_none query [] d na nb = refl
search_none query (b ∷ es) d (other, na) (apart, nb) = elim (Option-cases (tar_path b.header)) [
  | inl unnamed ↦ ground (arith, search_none query es d na nb)
  | inr (q, is_q) ↦ ground (
    arith,
    search_none query es d na nb,
    same_text_iff q query,
    λ (t : text q ≡ text query). other (q, is_q, t),
    λ (t : is_directory_prefix q query ≡ true). apart (prefix-Below query q b is_q t),
  )
]

search-Below :
    (query : List ℕ) (es : List Entry) (d : Bool)
    → All (λ b. ¬ Names query b) es
    → (d ≡ true) ⊎ Any (Below query) es
    → search_members query es d ≡ missing true
unfolding search_members
search-Below query [] d na (inl t) = ap missing t
search-Below query [] d na (inr t) = absurd t
search-Below query (b ∷ es) d (other, na) some_below = elim (Option-cases (tar_path b.header)) [
  | inl unnamed ↦ ground (arith, search-Below query es d na (pass unnamed some_below))
  | inr (q, is_q) ↦ ground (
    arith,
    search-Below query es (d || is_directory_prefix q query) na (pass_some q is_q some_below),
    same_text_iff q query,
    λ (t : text q ≡ text query). other (q, is_q, t),
  )
]
  where
    pass :
        tar_path b.header ≡ none
        → (d ≡ true) ⊎ Any (Below query) (b ∷ es)
        → (d ≡ true) ⊎ Any (Below query) es
    pass u (inl t) = inl t
    pass u (inr (inl (p, rest, is, filled, t))) = absurd (ground arith)
    pass u (inr (inr later)) = inr later

    pass_some :
        (q : List ℕ)
        → tar_path b.header ≡ some q
        → (d ≡ true) ⊎ Any (Below query) (b ∷ es)
        → ((d || is_directory_prefix q query) ≡ true) ⊎ Any (Below query) es
    pass_some q u (inl t) = inl (ground arith)
    pass_some q u (inr (inl (p, rest, is, filled, t))) =
        inl (ground (arith, Below-prefix query p rest filled t))
    pass_some q u (inr (inr later)) = inr later

module _ (r : Ramdisk) (path : List ℕ) (es : List Entry) (v : IsValid r) (on : r.available ≡ true)
    (m : Members r 0 es) (inner : char_at (normalize_path path [] path_size) ≢ 0) where
  abbrev query : List ℕ
  query = normalize_path path [] path_size

  find_search : find r path ≡ file_of_found query (search_members query es false)
  unfolding find
  find_search =
      ground (arith, find_header-search (rounds r) r query 0 false es m (length-lt-rounds v m))

  -- In an available archive of at most 2^63 bytes, with a path that does not normalise to the
  -- root: if some entry's path is the normalised path, and no entry before it has that path, find
  -- returns the file of that entry, with its attributes and its bytes in the archive.
  pub find-first :
      (before after : List Entry) (e : Entry) (p : List ℕ)
      → es ≡ before ++ e ∷ after
      → All (λ b. ¬ Names query b) before
      → tar_path e.header ≡ some p
      → text p ≡ text query
      → find r path ≡ some (fill_file e.header p e.data_offset e.file_size)
  unfolding file_of_found
  find-first before after e p split none_before named same =
      rw (find_search, split, search_first query before e after false p none_before named same)

  -- In an available archive of at most 2^63 bytes, with a path that does not normalise to the
  -- root: if no entry has the normalised path, and no entry's path is the normalised path, where
  -- that is not empty, a slash and more, find fails.
  pub find_absent :
      All (λ b. ¬ Names query b) es → All (λ b. ¬ Below query b) es → find r path ≡ none
  unfolding file_of_found
  find_absent na nb = rw (find_search, search_none query es false na nb)

  -- In an available archive of at most 2^63 bytes, with a path that does not normalise to the
  -- root, where no entry has the normalised path: find returns a directory without data exactly if
  -- some entry's path is the normalised path, which is not empty, a slash and more.
  pub find_implied_directory :
      All (λ b. ¬ Names query b) es
      → Any (Below query) es ↔ (find r path ≡ some (directory_file query))
  unfolding file_of_found
  find_implied_directory na = (
    λ some_below. rw (find_search, search-Below query es false na (inr some_below)),
    λ got. elim (decide_list query es) [
      | inl some_below ↦ some_below
      | inr apart ↦ cc (got, find_absent na apart)
    ],
  )
