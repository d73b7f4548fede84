-- ===== src/Args/Tests.antt =====
-- The theorem on src/args/args.c at a concrete command line.
use cleric.Common.{◌≡◌, refl, true, some, [], ◌∷◌}
use cleric.Common.Text.{codes, text_eq}
use cleric.Compiler.Modes.{no_flags}
use cleric.Args.{parse_args, mode_of}

accepted :
    parse_args (codes "cleric" ∷ codes "--tacky" ∷ codes "main.c" ∷ [])
    ≡ some (codes "main.c", record no_flags { tac_only = true })
unfolding parse_args mode_of text_eq
accepted = refl
