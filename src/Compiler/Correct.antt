-- ===== src/Compiler/Correct.antt =====
-- compile of src/compiler/compiler.c on a source whose function returns an expression: from the
-- source text to the run of the code.
use cleric.Common.{ℕ, ◌+◌, ◌*◌, ◌≤◌, ◌≡◌, refl, ◌∙◌, ap, true, false, some, length}
use mathlib.Core.Bool.{and-eq-true_iff}
use cleric.Common.Text.{Text}
use cleric.Lexer.{lexer_init}
use cleric.Ast.{AstNode, BinaryOperatorType, program, func_def, int_literal, unary_op, binary_op}
use cleric.Source.{eval, ending}
use cleric.Parser.{Parser, parsed, parser_init}
use cleric.Parser.Program.{parse_program}
use cleric.SymbolTable.{SymbolTable, symbol_table_init, symbol_table_enter_scope}
use cleric.Validator.{
  validate_node, validate_items, validate_block_node, validate_binary_op_node, has_lvalue,
  validate_program,
}
use cleric.AstToTac.Correct.{outcome}
use cleric.AstToTac.Gen.{is_supported, is_supported_op, gen}
use cleric.Codegen.{Buffer}
use cleric.Codegen.Correct.{EndsAs}
use cleric.Codegen.Encoding.{max_places}
use cleric.Codegen.Machine.{Cpu, Runs}
use cleric.Compiler.{Lexed, run_lexer}
use cleric.Compiler.Answers.{accepts, tree, answer_of, compile-Answers}
use cleric.Compiler.EndToEnd.{OnlyReturns, direct, nested, compiled_expression_returns}
use cleric.Compiler.Legal.{HasInts, max_labels}
use cleric.Compiler.Modes.{no_flags}
use cleric.Compiler.Stages.{Compiled, compile}

supported_lvalue :
    (op : BinaryOperatorType) (left : AstNode)
    → is_supported_op op ≡ true
    → has_lvalue op left ≡ true
unfolding is_supported_op has_lvalue
supported_lvalue BinaryOperatorType.assign left h = cc
supported_lvalue BinaryOperatorType.comma left h = refl
supported_lvalue _ left h = refl

-- An expression that the translation has a case for names no variable.
supported-valid :
    (e : AstNode) (st : SymbolTable) → is_supported e ≡ true → validate_node e st ≡ (true, st)
unfolding validate_node is_supported validate_binary_op_node
supported-valid (int_literal v) st s = refl
supported-valid (unary_op op e) st s = supported-valid e st s
supported-valid (binary_op op l r) st s =
    let (so, slr) = (and-eq-true_iff _ _).0 s in
    let (sl, sr) = (and-eq-true_iff _ _).0 slr in
    rw (supported_lvalue op l so, supported-valid l st sl, supported-valid r st sr) refl
supported-valid _ st s = cc

body-valid :
    (e n : AstNode) (st : SymbolTable)
    → OnlyReturns e n
    → is_supported e ≡ true
    → (validate_node n st).0 ≡ true
unfolding validate_node validate_items validate_block_node
body-valid e n st direct s = rw (supported-valid e st s) refl
body-valid e n st (nested o) s = rw (body-valid e _ (symbol_table_enter_scope st) o s) refl

-- Where the lexer accepts the source text and the parser makes of it, without an error, a function
-- whose body is one return of an expression (within any number of blocks) that the translation has
-- a case for, with literals of type `int`, and whose code needs at most 2^28 - 1 temporaries and
-- 2^31 labels: compile succeeds, whatever the buffer holds before, and a call of the lines that it
-- leaves in the buffer, with room for the temporaries on the stack, returns the value of the
-- expression in %eax as the calling convention wants, or raises the exception of the division
-- where the expression has no value.
pub compile_correct :
    (fuel : ℕ) (src : Text) (sb : Buffer) (lexed : Lexed) (p : Parser) (name : Text)
    (e body : AstNode)
    → length src * 3 + 10 ≤ fuel
    → run_lexer fuel false (lexer_init src) ≡ some lexed
    → lexed.success ≡ true
    → parse_program fuel (parser_init (lexer_init src)) ≡ parsed (program (func_def name body)) p
    → p.error_flag ≡ false
    → OnlyReturns e body
    → is_supported e ≡ true
    → HasInts e
    → (gen e 0 0).next_temp ≤ max_places
    → (gen e 0 0).next_label ≤ max_labels
    → (m : Cpu) → (gen e 0 0).next_temp * 8 + 8 ≤ m.rsp
    → (r : Compiled) × (lines : Buffer) × (compile fuel src no_flags (some sb) ≡ some r)
      × (r.success ≡ true)
      × (r.buffer ≡ some lines)
      × Runs lines (EndsAs m (outcome (ending (eval e)))) (record m { rest = lines })
unfolding accepts tree validate_program validate_node
compile_correct fuel src sb lexed p name e body enough lexes ok parses flag o s ints places labels m
      room =
    let (prog, lines, tac, code, runs) =
      compiled_expression_returns name e body o s ints places labels m room in
    let (r, f, success, buffer) = compile-Answers fuel src no_flags (some sb) enough in
    let accepted : accepts fuel src ≡ true = rw lexes ok in
    let made : tree fuel src ≡ some (program (func_def name body)) = rw (parses, flag) refl in
    let valid : validate_program (program (func_def name body)) ≡ true =
      body-valid e body symbol_table_init o s in
    let answer : answer_of fuel src no_flags (some sb) ≡ (true, some lines) =
      rw (accepted, made, valid, tac, code) refl in
    (r, lines, f, success ∙ ap (λ a. a.0) answer, buffer ∙ ap (λ a. a.1) answer, runs)
