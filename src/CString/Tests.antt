-- ===== src/CString/Tests.antt =====
-- Concrete runs of the theorems on lib/string.c.
use xbks.Prelude.{◌+◌, ◌-◌, ◌≡◌, if◌then◌else◌}
use xbks.CString.{Mem, memmove}
use xbks.CString.Memory.{in_range, memmove_lem}

abbrev memory : Mem
memory a = a

memmove_lem_example :
    memmove memory 12 10 4 14 ≡ (if in_range 14 12 4 then memory (10 + (14 - 12)) else memory 14)
memmove_lem_example = memmove_lem memory 12 10 4 14
