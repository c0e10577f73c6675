-- ===== src/Ramdisk/Path.antt =====
-- The path routines of fs/ramdisk.c. A terminated string is the list of its characters; a routine
-- that fills a buffer takes the text that the buffer held and returns the text that it holds.
use xbks.Prelude.{
  ℕ, zero, suc, ◌+◌, ◌-◌, Bool, false, not, ◌&&◌, ◌||◌, Option, none, some, List, [], ◌∷◌, ltb, leb,
  ◌==◌, if◌then◌else◌, take, drop, length, get_or,
}
use xbks.CString.{char_at, advance, strlen, strcmp, strncmp, is_zero}

abbrev pub path_size : ℕ
path_size = 256

unfoldable pub bounded_strlen : List ℕ → ℕ → ℕ
bounded_strlen s zero = 0
bounded_strlen [] (suc limit) = 0
bounded_strlen (c ∷ s) (suc limit) = if c == 0 then 0 else suc (bounded_strlen s limit)

unfoldable pub string_ends_with : List ℕ → List ℕ → Bool
string_ends_with s suffix =
    if ltb (strlen s) (strlen suffix)
    then false
    else is_zero (strcmp (drop (strlen s - strlen suffix) s) suffix)

unfoldable pub copy_bytes : List ℕ → ℕ → List ℕ → ℕ → List ℕ
copy_bytes dest capacity src count =
    if capacity == 0 then dest else take (if leb capacity count then capacity - 1 else count) src

unfoldable pub skip_slashes : List ℕ → List ℕ
skip_slashes [] = []
skip_slashes (c ∷ s) = if c == b'/' then skip_slashes s else c ∷ s

-- `path[0] == '.' && (path[1] == '/' || path[1] == '\0')`
abbrev pub at_dot : List ℕ → Bool
at_dot [] = false
at_dot (c ∷ s) = (c == b'.') && ((char_at s == b'/') || (char_at s == 0))

-- Each round drops a character, so as many rounds as characters are enough.
unfoldable pub skip_dots : ℕ → List ℕ → List ℕ
skip_dots zero s = s
skip_dots (suc fuel) s =
    let rest = skip_dots fuel (skip_slashes (advance s)) in if at_dot s then rest else s

-- The length that is left when the slashes before position `n` are cut.
unfoldable pub trim_slashes : List ℕ → ℕ → ℕ
trim_slashes out zero = 0
trim_slashes out (suc n) =
    let rest = trim_slashes out n in if get_or out n 0 == b'/' then rest else suc n

-- The text before the copying loop.
unfoldable pub skip_prefix : List ℕ → List ℕ
skip_prefix s = let t = skip_slashes s in skip_dots (length t) t

unfoldable pub normalize_path : List ℕ → List ℕ → ℕ → List ℕ
normalize_path path out capacity =
    if capacity == 0
    then out
    else let copied = take (capacity - 1) (skip_prefix path) in
      take (trim_slashes copied (length copied)) copied

unfoldable pub make_public_path : List ℕ → List ℕ → ℕ → List ℕ
make_public_path normalized out capacity =
    if capacity == 0
    then out
    else if char_at normalized == 0
    then copy_bytes out capacity (b'/' ∷ []) 1
    else b'/' ∷ copy_bytes (advance out) (capacity - 1) normalized (strlen normalized)

-- The length of the first component.
unfoldable pub component_length : List ℕ → ℕ
component_length [] = 0
component_length (c ∷ s) = if not (c == 0) && not (c == b'/') then suc (component_length s) else 0

-- The rest of an entry's path below a directory, and `none` if it does not lie there.
unfoldable pub relative_path : List ℕ → List ℕ → Option (List ℕ)
relative_path entry_path directory_path =
    if strlen directory_path == 0
    then some entry_path
    else if not (is_zero (strncmp (strlen directory_path) entry_path directory_path))
        || not (get_or entry_path (strlen directory_path) 0 == b'/')
    then none
    else some (drop (strlen directory_path + 1) entry_path)

-- The child's name, cut to the buffer, and whether more follows it.
unfoldable pub child_of_relative : List ℕ → ℕ → Option (List ℕ × Bool)
child_of_relative relative capacity =
    if (char_at relative == 0) || (component_length relative == 0)
    then none
    else some (
      copy_bytes [] capacity relative (component_length relative),
      get_or relative (component_length relative) 0 == b'/',
    )

unfoldable pub child_name_for_directory : List ℕ → List ℕ → ℕ → Option (List ℕ × Bool)
child_name_for_directory entry_path directory_path capacity =
    elim (relative_path entry_path directory_path) [
      | none ↦ none
      | some relative ↦ child_of_relative relative capacity
    ]
