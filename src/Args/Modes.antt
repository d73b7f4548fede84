-- ===== src/Args/Modes.antt =====
-- What the command line of src/args/args.c can ask for.
use mathlib.Core.Option
use cleric.Common.{◌≡◌, true, Option, none, some, List, [], ◌∷◌, ◌⊎◌}
use cleric.Common.Text.{Text, codes}
use cleric.Compiler.Stages.{Flags}
use cleric.Compiler.Modes.{no_flags}

-- The options, each with the flag that it stands for.
pub data Selects : Text → Flags → Type 0 where
  lex : Selects (codes "--lex") (record no_flags { lex_only = true })
  parse : Selects (codes "--parse") (record no_flags { parse_only = true })
  validate : Selects (codes "--validate") (record no_flags { validate_only = true })
  tac : Selects (codes "--tac") (record no_flags { tac_only = true })
  tacky : Selects (codes "--tacky") (record no_flags { tac_only = true })
  codegen : Selects (codes "--codegen") (record no_flags { codegen_only = true })

-- A mode that the argument selects, if the answer is a mode.
abbrev Sound : Text → Option Flags → Type 0
Sound arg none = Unit
Sound arg (some flags) = Selects arg flags

abbrev IsSelected : Text → Type 0
IsSelected arg = (flags : Flags) × Selects arg flags

-- A command line of a file that is not an option, or of an option and a file.
abbrev pub AsksFor : List Text → Text → Flags → Type 0
AsksFor argv file flags =
    ((prog : Text) × (argv ≡ prog ∷ file ∷ [])
      × ((set : Flags) → ¬ (Selects file set))
      × (flags ≡ no_flags))
    ⊎ ((prog : Text) × (option : Text) × (argv ≡ prog ∷ option ∷ file ∷ []) × Selects option flags)
