-- ===== src/Tac/Tests.antt =====
-- The printing of a program of src/ir/tac.c with two functions.
use cleric.Common.{◌≡◌, refl, [], ◌∷◌, ◌++◌}
use cleric.Common.Int.{pos, int_text}
use cleric.Common.Text.{codes, decimal, decimal_loop}
use cleric.Tac.{const, temp, label, BinaryType, binary_op, ret, label_def, TacFunction, TacProgram}
use cleric.Tac.Print.{
  print_tac_indent, tac_print_operand, binary_sign, tac_print_instruction, print_instructions,
  tac_print_function, print_functions, tac_print_program,
}
use cleric.Tac.Listing.{lines, listing, HaveRows}
use cleric.Tac.Rows.{tac_print_program-rows}

abbrev main_function : TacFunction
main_function = record {
  name = codes "main";
  instructions =
      binary_op BinaryType.mod_ (temp 0) (const (pos 7)) (const (pos 2))
      ∷ label_def (label (codes "L0"))
      ∷ ret (temp 0)
      ∷ [];
  instruction_capacity = 8;
}

abbrev empty_function : TacFunction
empty_function = record { name = codes "f"; instructions = []; instruction_capacity = 8 }

abbrev two_functions : TacProgram
two_functions = record { functions = main_function ∷ empty_function ∷ []; function_capacity = 8 }

printed :
    tac_print_program two_functions
    ≡ codes
        "program:\n  function main:\n    t0 = 7 % 2\n    L0:\n    return t0\n\n  function f:\nend program\n"
unfolding tac_print_program print_functions tac_print_function print_instructions
    tac_print_instruction tac_print_operand print_tac_indent binary_sign int_text decimal
    decimal_loop
printed = refl

two_functions-HaveRows : HaveRows two_functions.functions
two_functions-HaveRows = (
  ((refl, (refl, (refl, (refl, tt)))), ((tt, tt, tt), ((refl, (refl, tt)), (tt, tt)))),
  (((refl, tt), tt), tt),
)

tac_print_program-rows_example :
    lines (tac_print_program two_functions)
    ≡ codes "program:" ∷ (listing two_functions.functions ++ codes "end program" ∷ [] ∷ [])
tac_print_program-rows_example = tac_print_program-rows two_functions two_functions-HaveRows

listed :
    listing two_functions.functions
    ≡ codes "  function main:"
      ∷ codes "    t0 = 7 % 2"
      ∷ codes "    L0:"
      ∷ codes "    return t0"
      ∷ []
      ∷ codes "  function f:"
      ∷ []
unfolding int_text decimal decimal_loop
listed = refl
