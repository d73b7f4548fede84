-- ===== src/Compiler/EndToEnd.antt =====
-- src/ir/ast_to_tac.c and src/codegen/codegen.c one after the other: from the syntax tree of a
-- function to the run of its code.
use cleric.Common.{
  ◌+◌, ◌*◌, ◌≤◌, ◌≡◌, refl, ◌∙◌, sym, true, Option, none, some, List, [], ◌∷◌, ◌++◌, append-nil,
  arith,
}
use cleric.Common.Int.{ℤ}
use cleric.Common.Text.{Text}
use cleric.Ast.{AstNode, program, func_def, return_stmt, block, nil, cons}
use cleric.Source.{eval, Ending, ending, and_then, run_statement}
use cleric.Tac.{TacProgram, create_tac_program, add_function_to_program, ret}
use cleric.Tac.Machine as Tac
use cleric.Tac.Machine.{Outcome, at, no_temps}
use cleric.AstToTac.{ast_to_tac}
use cleric.AstToTac.Body.{body_of, is_supported_statement}
use cleric.AstToTac.Correct.{outcome, function_of, translated, instructions-function_of, body-Runs}
use cleric.AstToTac.Gen.{gen, is_supported}
use cleric.Codegen.{codegen_generate_program, generate_functions}
use cleric.Codegen.Asm.{AsmLine}
use cleric.Codegen.Correct.{EndsAs, HasResult, generate_tac_function_refines}
use cleric.Codegen.Encoding.{max_places}
use cleric.Codegen.Machine.{Cpu, Runs}
use cleric.Codegen.Targets.{EndsInReturn}
use cleric.Compiler.Legal.{HasInts, gen-Legal, max_labels, inner-EndsInReturn}

-- A body that is one return of the expression, within any number of blocks.
pub data OnlyReturns (e : AstNode) : AstNode → Type 0 where
  direct : OnlyReturns e (return_stmt e)
  nested : {n : AstNode} → OnlyReturns e n → OnlyReturns e (block (cons n nil))

-- What such a body is to the other parts.
record IsReturn (e n : AstNode) : Type 0 where
  meaning : run_statement n ≡ ending (eval e)
  code : (body_of n 0 0).code ≡ (gen e 0 0).code ++ ret (gen e 0 0).operand ∷ []
  support : is_supported_statement n ≡ is_supported e

and_then-falls_through : (r : Ending) → and_then r Ending.falls_through ≡ r
and_then-falls_through (Ending.returned v) = refl
and_then-falls_through Ending.no_value = refl
and_then-falls_through Ending.falls_through = refl

body-IsReturn : (e n : AstNode) → OnlyReturns e n → IsReturn e n
unfolding run_statement body_of is_supported_statement
body-IsReturn e n direct = record { meaning = refl; code = refl; support = refl }
body-IsReturn e n (nested o) =
    let p = body-IsReturn e _ o in
    record {
      meaning = and_then-falls_through _ ∙ p.meaning;
      code = append-nil _ ∙ p.code;
      support = ground (arith, p.support);
    }

ending-HasResult : (o : Option ℤ) → HasResult (outcome (ending o))
ending-HasResult none = tt
ending-HasResult (some v) = tt

-- For a function whose body is one return of an expression (within any number of blocks) that the
-- translation has a case for, with literals of type `int`, whose code needs at most 2^28 - 1
-- temporaries and 2^31 labels: ast_to_tac gives a program, codegen_generate_program succeeds on it,
-- and a call of the lines that it appends to an empty buffer, with room for the temporaries on the
-- stack, returns the value of the expression in %eax as the calling convention wants, or raises
-- the exception of the division where the expression has no value.
pub compiled_expression_returns :
    (name : Text) (e body : AstNode)
    → OnlyReturns e body
    → is_supported e ≡ true
    → HasInts e
    → (gen e 0 0).next_temp ≤ max_places
    → (gen e 0 0).next_label ≤ max_labels
    → (m : Cpu) → (gen e 0 0).next_temp * 8 + 8 ≤ m.rsp
    → (prog : TacProgram) × (lines : List AsmLine) × (ast_to_tac (program (func_def name body))
        ≡ some prog)
      × (codegen_generate_program prog [] ≡ (true, lines))
      × Runs lines (EndsAs m (outcome (ending (eval e)))) (record m { rest = lines })
unfolding ast_to_tac codegen_generate_program generate_functions create_tac_program
    add_function_to_program
compiled_expression_returns name e body o s ints places labels m room =
    let p = body-IsReturn e body o in
    let f = function_of name body in
    let d = (gen e 0 0).next_temp in
    let code : f.instructions ≡ (gen e 0 0).code ++ ret (gen e 0 0).operand ∷ [] =
      instructions-function_of name body ∙ p.code in
    let support : is_supported_statement body ≡ true = p.support ∙ s in
    let legal = gen-Legal e ints d 0 0 (omega arith) labels in
    let whole : EndsInReturn d f.instructions =
      rw code
        (inner-EndsInReturn d (gen e 0 0).code (gen e 0 0).operand legal.code legal.operand) in
    let runs : Tac.Runs f.instructions (outcome (ending (eval e))) (at f.instructions no_temps) =
      rw (instructions-function_of name body, sym p.meaning) (body-Runs body support) in
    let (lines, done, run) =
      generate_tac_function_refines f d places whole (outcome (ending (eval e)))
        (ending-HasResult (eval e)) runs m room in
    (
      add_function_to_program create_tac_program f,
      lines,
      rw (translated name body support) refl,
      rw done refl,
      run,
    )
