-- ===== src/Driver.antt =====
-- src/compiler/driver.c and src/cleric.c: the stages around the compiler, on a directory of files.
-- What a command does is a parameter: `system` gives its exit status and the files that it leaves.
-- Messages are left out, memory allocation succeeds, and no file name is empty or has a NUL byte.
pub mod Outputs
mod Tests
use cleric.Common.{
  ℕ, ◌+◌, ◌*◌, Bool, true, false, ◌||◌, Option, none, some, List, [], ◌∷◌, ◌++◌, ◌==◌,
  if◌then◌else◌, length, take,
}
use cleric.Common.Text.{Text, codes}
use cleric.Codegen.{Buffer}
use cleric.Codegen.Asm.{buffer_text}
use cleric.Compiler.Stages.{Flags, Compiled, compile}
use cleric.Args.{parse_args}
use cleric.Files.{
  Directory, filename_has_ext, filename_replace_ext, read_entire_file, write_string_to_file, remove,
}

abbrev pub System : Type 0
System = Text → Directory → ℕ × Directory

-- The exit status of a step, 0 for success, and the files behind it.
abbrev pub Step : Type 0
Step = Directory → ℕ × Directory

abbrev pub failure : Step
failure dir = (1, dir)

-- The step behind a name that may not fit its buffer.
abbrev pub with_name : Option Text → (Text → Step) → Step
with_name none next = failure
with_name (some name) next = next name

-- The command is cut to its buffer of 2048 bytes.
abbrev pub command : Text → Text
command text = take 2047 text

abbrev pub any_mode : Flags → Bool
any_mode flags =
    flags.lex_only
    || (flags.parse_only || (flags.validate_only || (flags.tac_only || flags.codegen_only)))

abbrev pub assembly_of : Option Buffer → Text
assembly_of none = []
assembly_of (some sb) = buffer_text sb

-- Writing the assembly, and then removing the input.
unfoldable pub write_output : Text → Text → Text → Step
write_output input_file output_file assembly_code dir =
    let (written, dir') = write_string_to_file dir output_file assembly_code in
    if written then (0, remove dir' input_file) else (1, remove dir' output_file)

-- run_compiler from the answer of compile on.
abbrev pub after_compile : Flags → Text → Text → Option Compiled → Step
after_compile flags input_file output_file none dir = (1, dir)
after_compile flags input_file output_file (some r) dir =
    if r.success
    then (if any_mode flags
        then (0, dir)
        else write_output input_file output_file (assembly_of r.buffer) dir)
    else (1, remove dir output_file)

abbrev pub after_read : Flags → Text → Text → Option Text → Step
after_read flags input_file output_file none dir = failure dir
after_read flags input_file output_file (some src) dir =
    after_compile flags input_file output_file (compile (length src * 3 + 10) src flags (some []))
      dir

unfoldable pub run_compiler : Text → Flags → Step
unfolding write_output
run_compiler input_file flags dir =
    if filename_has_ext input_file (codes ".i")
    then with_name (filename_replace_ext input_file (codes ".s") 1024)
        (λ output_file dir.
          after_read flags input_file output_file (read_entire_file dir input_file) dir)
        dir
    else failure dir

module _ (system : System) where
  unfoldable pub run_preprocessor : Text → Step
  run_preprocessor input_file dir =
      if filename_has_ext input_file (codes ".c")
      then with_name (filename_replace_ext input_file (codes ".i") 1024)
          (λ output_file dir.
            let (status, dir') =
              system (command (codes "gcc -E -P " ++ (input_file ++ (codes " -o " ++ output_file))))
                dir in
            if status == 0 then (0, dir') else (1, dir'))
          dir
      else failure dir

  unfoldable pub run_assembler_linker : Text → Step
  run_assembler_linker input_file dir =
      if filename_has_ext input_file (codes ".s")
      then with_name (filename_replace_ext input_file [] 1024)
          (λ output_file dir.
            let (status, dir') =
              system (command (codes "gcc " ++ (input_file ++ (codes " -o " ++ output_file))))
                dir in
            if status == 0 then (0, remove dir' input_file) else (1, dir'))
          dir
      else failure dir

  -- The second step runs where the first succeeds.
  abbrev pub then_step : Step → Step → Step
  then_step first second dir =
      let (status, dir') = first dir in if status == 0 then second dir' else (1, dir')

  abbrev pub assemble : Text → Flags → Step
  assemble input_file flags =
      if any_mode flags
      then (λ dir. (0, dir))
      else with_name (filename_replace_ext input_file (codes ".s") 1024)
          (λ s_file. run_assembler_linker s_file)

  abbrev pub build : Option (Text × Flags) → Step
  build none = failure
  build (some (input_file, flags)) = then_step (run_preprocessor input_file) (
      with_name (filename_replace_ext input_file (codes ".i") 1024)
        λ i_file. then_step (run_compiler i_file flags) (assemble input_file flags))

  unfoldable pub main : List Text → Step
  unfolding run_preprocessor run_assembler_linker run_compiler
  main argv = build (parse_args argv)
