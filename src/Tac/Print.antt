-- ===== src/Tac/Print.antt =====
-- The printing functions of src/ir/tac.c: each gives the text that it appends to its string buffer.
use cleric.Common.{ℕ, zero, suc, List, [], ◌∷◌, ◌++◌}
use cleric.Common.Int.{int_text}
use cleric.Common.Text.{Text, codes, decimal}
use cleric.Tac.{
  TacOperand, const, temp, label, invalid, UnaryType, BinaryType, RelationalType, ConditionalType,
  if_false_goto, if_true_goto, TacInstruction, copy, unary_op, ret, binary_op, relational_op,
  label_def, go_to, conditional_goto, TacFunction, TacProgram,
}

unfoldable pub print_tac_indent : ℕ → Text
print_tac_indent zero = []
print_tac_indent (suc level) = codes "  " ++ print_tac_indent level

unfoldable pub tac_print_operand : TacOperand → Text
tac_print_operand (const v) = int_text v
tac_print_operand (temp n) = b't' ∷ decimal n
tac_print_operand (label name) = name
tac_print_operand invalid = codes "<unk_op_type:-1>"

unfoldable pub unary_sign : UnaryType → Text
unary_sign UnaryType.negate = codes " = - "
unary_sign UnaryType.complement = codes " = ~ "
unary_sign UnaryType.logical_not = codes " = ! "

unfoldable pub binary_sign : BinaryType → Text
binary_sign BinaryType.add = codes " + "
binary_sign BinaryType.sub = codes " - "
binary_sign BinaryType.mul = codes " * "
binary_sign BinaryType.div = codes " / "
binary_sign BinaryType.mod_ = codes " % "
binary_sign BinaryType.logical_and = codes " && "
binary_sign BinaryType.logical_or = codes " || "

unfoldable pub relational_sign : RelationalType → Text
relational_sign RelationalType.less = codes " < "
relational_sign RelationalType.greater = codes " > "
relational_sign RelationalType.less_equal = codes " <= "
relational_sign RelationalType.greater_equal = codes " >= "
relational_sign RelationalType.equal = codes " == "
relational_sign RelationalType.not_equal = codes " != "

unfoldable pub condition_word : ConditionalType → Text
condition_word if_false_goto = codes "if_false "
condition_word if_true_goto = codes "if_not_zero "

-- dst = src1 <sign> src2
abbrev pub print_assignment : (dst src₁ : Text) → (sign : Text) → (src₂ : Text) → Text
print_assignment dst src₁ sign src₂ =
    dst ++ (codes " = " ++ (src₁ ++ (sign ++ (src₂ ++ codes "\n"))))

unfoldable pub tac_print_instruction : TacInstruction → Text
unfolding tac_print_operand unary_sign binary_sign relational_sign condition_word
tac_print_instruction (copy dst src) =
    tac_print_operand dst ++ (codes " = " ++ (tac_print_operand src ++ codes "\n"))
tac_print_instruction (unary_op op dst src) =
    tac_print_operand dst ++ (unary_sign op ++ (tac_print_operand src ++ codes "\n"))
tac_print_instruction (ret src) = codes "return " ++ (tac_print_operand src ++ codes "\n")
tac_print_instruction (binary_op op dst src₁ src₂) =
    print_assignment (tac_print_operand dst) (tac_print_operand src₁) (binary_sign op)
      (tac_print_operand src₂)
tac_print_instruction (relational_op op dst src₁ src₂) =
    print_assignment (tac_print_operand dst) (tac_print_operand src₁) (relational_sign op)
      (tac_print_operand src₂)
tac_print_instruction (label_def l) = tac_print_operand l ++ (codes ":" ++ codes "\n")
tac_print_instruction (go_to l) = codes "goto " ++ (tac_print_operand l ++ codes "\n")
tac_print_instruction (conditional_goto op condition l) =
    condition_word op
    ++ (tac_print_operand condition ++ (codes " goto " ++ (tac_print_operand l ++ codes "\n")))

unfoldable pub print_instructions : List TacInstruction → ℕ → Text
unfolding print_tac_indent tac_print_instruction
print_instructions [] level = []
print_instructions (i ∷ is) level =
    print_tac_indent level ++ (tac_print_instruction i ++ print_instructions is level)

unfoldable pub tac_print_function : TacFunction → ℕ → Text
unfolding print_tac_indent print_instructions
tac_print_function function level =
    print_tac_indent level
    ++ (codes "function "
        ++ (function.name ++ (codes ":\n" ++ print_instructions function.instructions (suc level))))

-- The functions, with a line feed between two of them.
unfoldable pub print_functions : List TacFunction → Text
unfolding tac_print_function
print_functions [] = []
print_functions (f ∷ []) = tac_print_function f 1
print_functions (f ∷ g ∷ fs) = tac_print_function f 1 ++ (10 ∷ print_functions (g ∷ fs))

unfoldable pub tac_print_program : TacProgram → Text
unfolding print_functions
tac_print_program program =
    codes "program:\n" ++ (print_functions program.functions ++ codes "end program\n")
