-- ===== src/AstToTac/Tests.antt =====
-- The theorems on src/ir/ast_to_tac.c at concrete trees.
use cleric.Common.{ℕ, ◌+◌, ◌≡◌, refl, true, some, [], ◌∷◌}
use cleric.Common.Int.{pos}
use cleric.Common.Text.{codes}
use cleric.Ast.{
  BinaryOperatorType, AstNode, binary_op, int_literal, return_stmt, block, nil, cons, program,
  func_def, identifier,
}
use cleric.Common.Int.{divides_well, wrap, quotient}
use cleric.Source.{eval, binary, Ending, run_statement}
use cleric.Tac.{TacFunction, TacProgram}
use cleric.Tac.Machine.{at, no_temps, run}
use cleric.AstToTac.{start_context, is_valid_operand, visit_expression, ast_to_tac}
use cleric.AstToTac.Gen.{is_supported}
use cleric.AstToTac.Support.{visit_expression-valid}
use cleric.AstToTac.Returns.{ret_count, returns_in, ast_to_tac-returns}
use cleric.AstToTac.Body.{is_supported_statement}
use cleric.AstToTac.Correct.{outcome, ast_to_tac_correct}

-- 0 || (7 / 2 == 3)
abbrev a_test : AstNode
a_test = binary_op BinaryOperatorType.logical_or (int_literal (pos 0)) (
    binary_op BinaryOperatorType.equal_equal
      (binary_op BinaryOperatorType.divide (int_literal (pos 7)) (int_literal (pos 2)))
      (int_literal (pos 3)))

-- { { return 0 || (7 / 2 == 3); } }
abbrev a_body : AstNode
a_body = block (cons (block (cons (return_stmt a_test) nil)) nil)

a_body-supported : is_supported_statement a_body ≡ true
unfolding is_supported_statement is_supported
a_body-supported = refl

a_body-ends : run_statement a_body ≡ Ending.returned (pos 1)
unfolding run_statement eval binary divides_well wrap quotient
a_body-ends = refl

ast_to_tac_correct_example :
    (f : TacFunction) × (prog : TacProgram) × (ast_to_tac (program (func_def (codes "main") a_body))
      ≡ some prog)
    × (prog.functions ≡ f ∷ [])
    × (f.name ≡ codes "main")
    × ((n : ℕ) × ((more : ℕ)
          → run (n + more) f.instructions (at f.instructions no_temps)
            ≡ some (outcome (run_statement a_body))))
ast_to_tac_correct_example = ast_to_tac_correct (codes "main") a_body a_body-supported

-- { return x; }
abbrev a_dropped : AstNode
a_dropped = block (cons (return_stmt (identifier (codes "x"))) nil)

ast_to_tac-returns_example :
    (f : TacFunction) × (prog : TacProgram) × (ast_to_tac
        (program (func_def (codes "main") a_dropped))
      ≡ some prog)
    × (prog.functions ≡ f ∷ [])
    × (ret_count f.instructions ≡ returns_in a_dropped)
ast_to_tac-returns_example = ast_to_tac-returns (codes "main") a_dropped

visit_expression-valid_example :
    is_valid_operand (visit_expression a_test (start_context (codes "main"))).0
    ≡ is_supported a_test
visit_expression-valid_example = visit_expression-valid a_test (start_context (codes "main"))
