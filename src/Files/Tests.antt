-- ===== src/Files/Tests.antt =====
-- The theorems on src/files/files.c at concrete names.
use mathlib.Core.Logic.{◌↔◌}
use cleric.Common.{◌+◌, ◌<◌, ◌≡◌, refl, true, none, some, ◌++◌, ltb, if◌then◌else◌, length, arith}
use cleric.Common.Text.{Text, codes}
use cleric.Files.{filename_replace_ext, filename_has_ext, last_index}
use cleric.Files.Extensions.{
  filename_replace_ext-base, filename_has_ext_iff, filename_replace_ext-has_ext,
}

abbrev a_base : Text
a_base = codes "src.d/main"

filename_replace_ext-base_example : filename_replace_ext (codes "src.d/main.c") (codes ".i") 64 ≡ (
    if ltb 64 (length a_base + length (codes ".i") + 1) then none else some (codes "src.d/main.i"))
filename_replace_ext-base_example =
    filename_replace_ext-base a_base (codes "c") (codes ".i") 64 (refl, tt)

filename_has_ext_iff_example : (filename_has_ext (codes "main.c") (codes ".c") ≡ true) ↔ (
    (base : Text) × (0 < length base)
    × (0 < length (codes ".c"))
    × (codes "main.c" ≡ base ++ codes ".c"))
filename_has_ext_iff_example = filename_has_ext_iff (codes "main.c") (codes ".c")

filename_replace_ext-has_ext_example : filename_has_ext (codes "main.i") (codes ".i") ≡ true
unfolding filename_replace_ext last_index
filename_replace_ext-has_ext_example =
    filename_replace_ext-has_ext (codes "main.c") (codes ".i") (codes "main.i") 64 (omega arith)
      (omega arith) refl
