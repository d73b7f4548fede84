-- ===== src/Driver/Outputs.antt =====
-- The files that run_compiler of src/compiler/driver.c leaves.
use cleric.Common.{
  ℕ, ◌≡◌, Bool, true, false, not, take, ◌&&◌, ◌||◌, Option, none, some, if◌then◌else◌,
}
use cleric.Common.Text.{Text, text_eq}
use cleric.Compiler.Stages.{Flags, Compiled}
use cleric.Files.{Directory}
use cleric.Driver.{any_mode, assembly_of}

abbrev is_none : Option ℕ → Bool
is_none none = true
is_none (some n) = false

abbrev up_to : Option ℕ → Text → Text
up_to none t = t
up_to (some n) t = take n t

-- The file can be written as a whole.
abbrev pub can_write : Directory → Text → Bool
can_write dir name = dir.writable name && is_none (dir.stops_at name)

-- What a write of the text that fails leaves of the file.
abbrev pub left_by_write : Directory → Text → Text → Option Text
left_by_write dir name content =
    if dir.writable name then some (up_to (dir.stops_at name) content) else dir.files name

-- The file behind an attempt to remove it.
abbrev pub unless_removed : Directory → Text → Option Text → Option Text
unless_removed dir name content = if dir.removable name then none else content

-- The assembly file that the step leaves, from what compile answers.
abbrev pub left_behind : Directory → Text → Compiled → Bool → Option Text
left_behind dir name r mode =
    if r.success
    then (if mode
        then dir.files name
        else (if can_write dir name
            then some (assembly_of r.buffer)
            else unless_removed dir name (left_by_write dir name (assembly_of r.buffer))))
    else unless_removed dir name (dir.files name)

module _ (dir : Directory) (flags : Flags) (i_file s_file : Text) (r : Compiled) where
  -- How the step ends.
  abbrev pub Leaves : ℕ × Directory → Type 0
  Leaves (status, after) =
      (status ≡ (if r.success && (any_mode flags || can_write dir s_file) then 0 else 1))
      × (after.files s_file ≡ left_behind dir s_file r (any_mode flags))
      × (after.files i_file ≡ (
          if r.success && (not (any_mode flags) && can_write dir s_file)
          then unless_removed dir i_file (dir.files i_file)
          else dir.files i_file))
      × ((other : Text)
          → text_eq other s_file ≡ false
          → text_eq other i_file ≡ false
          → after.files other ≡ dir.files other)
