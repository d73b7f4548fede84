-- ===== src/AstToTac.antt =====
-- src/ir/ast_to_tac.c: from the syntax tree to three-address code. The counters and the function
-- under construction, which the source passes by pointer, are a `Context` that each visitor
-- returns with its result. A helper for one kind of node takes the visits of its operands as
-- functions. The messages on stderr are left out.
pub mod Gen
pub mod Labels
pub mod Arrival
pub mod Operators
pub mod Join
pub mod Simulation
pub mod Body
pub mod Correct
pub mod Support
pub mod Returns
mod Tests
use cleric.Common.{ℕ, ◌+◌, Bool, true, false, Option, none, some, List, [], ◌∷◌, if◌then◌else◌}
use cleric.Common.Int.{ℤ, pos}
use cleric.Common.Text.{Text, decimal}
use cleric.Ast.{
  UnaryOperatorType, BinaryOperatorType, AstNode, Nodes, null, program, func_def, return_stmt,
  int_literal, block, nil, cons,
}
use cleric.Tac.{
  TacOperand, const, temp, label, invalid, TacInstruction, copy, ret, relational_op, label_def,
  go_to, conditional_goto, UnaryType, BinaryType, RelationalType, TacFunction, TacProgram,
  if_false_goto, if_true_goto, create_tac_function, add_instruction_to_function, create_tac_program,
  add_function_to_program,
}

pub record Context : Type 0 where
  pub current_function : TacFunction
  pub next_temp_id : ℕ
  pub label_counter : ℕ

abbrev pub Visit : Type 0
Visit = Context → TacOperand × Context

unfoldable pub label_name : ℕ → Text
label_name n = b'L' ∷ decimal n

-- The label's name and the counter after it.
unfoldable pub generate_label_name : Context → Text × Context
generate_label_name c =
    (label_name c.label_counter, record c { label_counter = c.label_counter + 1 })

unfoldable pub is_valid_operand : TacOperand → Bool
is_valid_operand invalid = false
is_valid_operand _ = true

-- create_tac_operand_temp((*next_temp_id_ptr)++)
unfoldable pub fresh_temp : Context → TacOperand × Context
fresh_temp c = (temp c.next_temp_id, record c { next_temp_id = c.next_temp_id + 1 })

unfoldable pub emit : TacInstruction → Context → Context
emit i c = record c { current_function = add_instruction_to_function c.current_function i }

unfoldable pub unary_instruction : UnaryOperatorType → TacOperand → TacOperand → TacInstruction
unary_instruction UnaryOperatorType.negate d a = TacInstruction.unary_op UnaryType.negate d a
unary_instruction UnaryOperatorType.complement d a =
    TacInstruction.unary_op UnaryType.complement d a
unary_instruction UnaryOperatorType.logical_not d a =
    TacInstruction.unary_op UnaryType.logical_not d a

-- `none` is the default branch of the switch.
unfoldable pub binary_instruction :
    BinaryOperatorType → TacOperand → TacOperand → TacOperand → Option TacInstruction
binary_instruction BinaryOperatorType.add d a b =
    some (TacInstruction.binary_op BinaryType.add d a b)
binary_instruction BinaryOperatorType.subtract d a b =
    some (TacInstruction.binary_op BinaryType.sub d a b)
binary_instruction BinaryOperatorType.multiply d a b =
    some (TacInstruction.binary_op BinaryType.mul d a b)
binary_instruction BinaryOperatorType.divide d a b =
    some (TacInstruction.binary_op BinaryType.div d a b)
binary_instruction BinaryOperatorType.modulo d a b =
    some (TacInstruction.binary_op BinaryType.mod_ d a b)
binary_instruction BinaryOperatorType.less d a b = some (relational_op RelationalType.less d a b)
binary_instruction BinaryOperatorType.greater d a b =
    some (relational_op RelationalType.greater d a b)
binary_instruction BinaryOperatorType.less_equal d a b =
    some (relational_op RelationalType.less_equal d a b)
binary_instruction BinaryOperatorType.greater_equal d a b =
    some (relational_op RelationalType.greater_equal d a b)
binary_instruction BinaryOperatorType.equal_equal d a b =
    some (relational_op RelationalType.equal d a b)
binary_instruction BinaryOperatorType.not_equal d a b =
    some (relational_op RelationalType.not_equal d a b)
binary_instruction _ d a b = none

unfoldable pub visit_unary_op_expression : UnaryOperatorType → Visit → Visit
visit_unary_op_expression op operand c =
    let (operand_result, c₁) = operand c in
    let (dest_temp, c₂) = fresh_temp c₁ in
    if is_valid_operand operand_result
    then (dest_temp, emit (unary_instruction op dest_temp operand_result) c₂)
    else (invalid, c₁)

unfoldable pub visit_logical_and_expression : Visit → Visit → Visit
visit_logical_and_expression left right c =
    let (lhs_result, c₁) = left c in
    let (dest_temp, c₂) = fresh_temp c₁ in
    let (false_exit_label, c₃) = generate_label_name c₂ in
    let (end_label, c₄) = generate_label_name c₃ in
    let c₅ = emit (conditional_goto if_false_goto lhs_result (label false_exit_label)) c₄ in
    let (rhs_result, c₆) = right c₅ in
    let on_error =
      emit (label_def (label end_label))
        (emit (copy dest_temp (const (pos 0))) (emit (label_def (label false_exit_label)) c₆)) in
    let c₇ =
      emit (relational_op RelationalType.not_equal dest_temp rhs_result (const (pos 0))) c₆ in
    let c₈ = emit (go_to (label end_label)) c₇ in
    let c₉ = emit (label_def (label false_exit_label)) c₈ in
    let c₁₀ = emit (copy dest_temp (const (pos 0))) c₉ in
    let c₁₁ = emit (label_def (label end_label)) c₁₀ in
    if is_valid_operand lhs_result
    then (if is_valid_operand rhs_result then (dest_temp, c₁₁) else (invalid, on_error))
    else (invalid, c₁)

unfoldable pub visit_logical_or_expression : Visit → Visit → Visit
visit_logical_or_expression left right c =
    let (dest_temp, c₁) = fresh_temp c in
    let (eval_rhs_label, c₂) = generate_label_name c₁ in
    let (true_exit_label, c₃) = generate_label_name c₂ in
    let (end_label, c₄) = generate_label_name c₃ in
    let (lhs_result, c₅) = left c₄ in
    let c₆ = emit (conditional_goto if_true_goto lhs_result (label true_exit_label)) c₅ in
    let (rhs_result, c₇) = right c₆ in
    let e₁ = emit (label_def (label true_exit_label)) c₇ in
    let e₂ = emit (copy dest_temp (const (pos 1))) e₁ in
    let e₃ = emit (label_def (label eval_rhs_label)) e₂ in
    let e₄ = emit (label_def (label end_label)) e₃ in
    let c₈ =
      emit (relational_op RelationalType.not_equal dest_temp rhs_result (const (pos 0))) c₇ in
    let c₉ = emit (go_to (label end_label)) c₈ in
    let c₁₀ = emit (label_def (label true_exit_label)) c₉ in
    let c₁₁ = emit (copy dest_temp (const (pos 1))) c₁₀ in
    let c₁₂ = emit (label_def (label end_label)) c₁₁ in
    if is_valid_operand lhs_result
    then (if is_valid_operand rhs_result then (dest_temp, c₁₂) else (invalid, e₄))
    else (invalid, c₅)

-- The part of visit_binary_op_expression for the operators that evaluate both operands.
unfoldable pub visit_standard_binary_op : BinaryOperatorType → Visit → Visit → Visit
visit_standard_binary_op op left right c =
    let (left_operand, c₁) = left c in
    let (right_operand, c₂) = right c₁ in
    let (dest_temp, c₃) = fresh_temp c₂ in
    if is_valid_operand left_operand
    then (if is_valid_operand right_operand
        then (elim (binary_instruction op dest_temp left_operand right_operand) [
          | some binary_instr ↦ (dest_temp, emit binary_instr c₃)
          | none ↦ (invalid, c₃)
        ])
        else (invalid, c₂))
    else (invalid, c₁)

unfoldable pub visit_binary_op_expression : BinaryOperatorType → Visit → Visit → Visit
visit_binary_op_expression BinaryOperatorType.logical_and = visit_logical_and_expression
visit_binary_op_expression BinaryOperatorType.logical_or = visit_logical_or_expression
visit_binary_op_expression op = visit_standard_binary_op op

unfoldable pub visit_expression : AstNode → Visit
visit_expression (int_literal value) c = (const value, c)
visit_expression (AstNode.unary_op op operand) c =
    visit_unary_op_expression op (visit_expression operand) c
visit_expression (AstNode.binary_op op left right) c =
    visit_binary_op_expression op (visit_expression left) (visit_expression right) c
visit_expression _ c = (invalid, c)

unfoldable mutual
  pub visit_statement : AstNode → Context → Context
  visit_statement (return_stmt expression) c =
      let (result_operand, c₁) = visit_expression expression c in
      if is_valid_operand result_operand then emit (ret result_operand) c₁ else c₁
  visit_statement (block items) c = visit_items items c
  visit_statement _ c = c

  -- The loop over the items of a block.
  pub visit_items : Nodes → Context → Context
  visit_items nil c = c
  visit_items (cons item items) c = visit_items items (visit_statement item c)

unfoldable pub start_context : Text → Context
start_context name = record {
  current_function = create_tac_function name;
  next_temp_id = 0;
  label_counter = 0;
}

-- `none` is the NULL result. The source adds the function to the program before it fills it, and
-- the program holds a pointer to it: the model adds it when it is filled.
unfoldable pub ast_to_tac : AstNode → Option TacProgram
ast_to_tac (program (func_def name body)) = some (
    add_function_to_program create_tac_program
      (visit_statement body (start_context name)).current_function)
ast_to_tac _ = none
