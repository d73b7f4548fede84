-- ===== src/Files.antt =====
-- src/files/files.c: the functions on file names, and a directory of files for those that read and
-- write. Lengths of names are far below 2^64.
pub mod Extensions
mod Tests
use cleric.Common.{
  ℕ, zero, suc, ◌+◌, ◌-◌, Bool, true, false, ◌||◌, Option, none, some, List, [], ◌∷◌, ◌++◌, ltb,
  leb, ◌==◌, if◌then◌else◌, length, take, drop,
}
use cleric.Common.Text.{Text, text_eq}

-- strrchr(text, c), as an index.
unfoldable pub last_index : ℕ → Text → Option ℕ
last_index c [] = none
last_index c (x ∷ xs) = elim (last_index c xs) [
  | some i ↦ some (suc i)
  | none ↦ if x == c then some 0 else none
]

abbrev pub base_length : Text → Option ℕ → ℕ
base_length input none = length input
base_length input (some dot) = dot

-- `none` where the result does not fit `dest_size` bytes.
unfoldable pub filename_replace_ext : Text → Text → ℕ → Option Text
filename_replace_ext input_file new_ext dest_size =
    let base_len = base_length input_file (last_index b'.' input_file) in
    if ltb dest_size (base_len + length new_ext + 1)
    then none
    else some (take base_len input_file ++ new_ext)

unfoldable pub filename_has_ext : Text → Text → Bool
filename_has_ext filename ext =
    if (length ext == 0) || leb (length filename) (length ext)
    then false
    else text_eq (drop (length filename - length ext) filename) ext

-- The files by name, the names that can be opened to write, where writing one stops with an error
-- (`none` where it does not), and the names that can be removed.
pub record Directory : Type 0 where
  pub files : Text → Option Text
  pub writable : Text → Bool
  pub stops_at : Text → Option ℕ
  pub removable : Text → Bool

unfoldable pub put : Directory → Text → Option Text → Directory
put dir name content = record dir {
  files = λ other. if text_eq other name then content else dir.files other;
}

unfoldable pub read_entire_file : Directory → Text → Option Text
read_entire_file dir filename = dir.files filename

-- fputs and fclose, behind fopen.
abbrev pub after_open : Option ℕ → Directory → Text → Text → Bool × Directory
after_open none dir filename content = (true, put dir filename (some content))
after_open (some n) dir filename content = (false, put dir filename (some (take n content)))

unfoldable pub write_string_to_file : Directory → Text → Text → Bool × Directory
unfolding put
write_string_to_file dir filename content =
    if dir.writable filename
    then after_open (dir.stops_at filename) dir filename content
    else (false, dir)

-- remove of the C library. Its answer only decides on a warning, and is left out.
unfoldable pub remove : Directory → Text → Directory
unfolding put
remove dir filename = if dir.removable filename then put dir filename none else dir
