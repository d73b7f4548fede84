-- ===== src/Validator/Tests.antt =====
-- The theorems on src/validator/validator.c at a concrete program.
use mathlib.Core.Logic.{◌↔◌}
use cleric.Common.{◌≡◌, true, [], ◌∷◌, arith, length}
use cleric.Common.Int.{pos}
use cleric.Common.Text.{codes}
use cleric.Ast.{
  BinaryOperatorType, AstNode, null, program, func_def, return_stmt, int_literal, binary_op,
  var_decl, identifier, block, nil, cons,
}
use cleric.SymbolTable.{symbol_table_init, symbol_table_enter_scope, grown}
use cleric.Validator.{validate_node, validate_program}
use cleric.Validator.Scoping.{Env, Scoped}
use cleric.Validator.Correct.{validate_program_iff}
use cleric.Validator.Depth.{IsRoomy, validate_node-depth, validate_node-IsRoomy}

-- int main(void) { int x; x = 2; return y; }
abbrev a_program : AstNode
a_program = program (
    func_def (codes "main") (
      block (
        cons (var_decl (codes "int") (codes "x") null) (
          cons (binary_op BinaryOperatorType.assign (identifier (codes "x")) (int_literal (pos 2)))
            (cons (return_stmt (identifier (codes "y"))) nil)))))

validate_program_iff_example :
    (validate_program a_program ≡ true)
    ↔ ((f : AstNode) × (a_program ≡ program f) × ((Δ : Env) × Scoped f ([] ∷ []) Δ))
validate_program_iff_example = validate_program_iff a_program

validate_node-depth_example :
    length (validate_node a_program symbol_table_init).1.scopes ≡ length symbol_table_init.scopes
validate_node-depth_example = validate_node-depth a_program symbol_table_init

init-IsRoomy : IsRoomy symbol_table_init
unfolding symbol_table_init symbol_table_enter_scope grown
init-IsRoomy = record { stack = omega arith; each = (omega arith, tt) }

validate_node-IsRoomy_example : IsRoomy (validate_node a_program symbol_table_init).1
validate_node-IsRoomy_example = validate_node-IsRoomy a_program symbol_table_init init-IsRoomy
