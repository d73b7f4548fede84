-- ===== src/Args.antt =====
-- src/args/args.c: the command line. The messages are left out.
pub mod Modes
mod Tests
use cleric.Common.{Bool, true, false, ◌||◌, Option, none, some, List, [], ◌∷◌, if◌then◌else◌}
use cleric.Common.Text.{Text, codes, text_eq}
use cleric.Compiler.Stages.{Flags}
use cleric.Compiler.Modes.{no_flags}

abbrev pub is : Text → Text → Bool
is arg option = text_eq arg option

unfoldable pub is_option : Text → Bool
is_option arg =
    is arg (codes "--lex")
    || (is arg (codes "--parse")
        || (is arg (codes "--validate")
            || (is arg (codes "--tac")
                || (is arg (codes "--tacky") || is arg (codes "--codegen")))))

-- The flag of an option; `none` for another argument.
unfoldable pub mode_of : Text → Option Flags
mode_of arg =
    if is arg (codes "--lex")
    then some (record no_flags { lex_only = true })
    else (if is arg (codes "--parse")
        then some (record no_flags { parse_only = true })
        else (if is arg (codes "--validate")
            then some (record no_flags { validate_only = true })
            else (if is arg (codes "--tac") || is arg (codes "--tacky")
                then some (record no_flags { tac_only = true })
                else (if is arg (codes "--codegen")
                    then some (record no_flags { codegen_only = true })
                    else none))))

abbrev pub with_mode : Text → Option Flags → Option (Text × Flags)
with_mode file none = none
with_mode file (some flags) = some (file, flags)

-- The input file and the flags; `none` is the result NULL.
unfoldable pub parse_args : List Text → Option (Text × Flags)
unfolding is_option mode_of
parse_args (prog ∷ arg ∷ []) = if is_option arg then none else some (arg, no_flags)
parse_args (prog ∷ option ∷ file ∷ []) = with_mode file (mode_of option)
parse_args _ = none
