-- ===== src/Compiler/Tests.antt =====
-- The theorems on src/compiler/compiler.c at concrete sources.
use cleric.Common.{◌≡◌, refl, true, false, none, some, List, [], ◌∷◌, map, All, arith}
use cleric.Common.Int.{pos}
use cleric.Common.Text.{Text, codes, text_eq, digits_value}
use cleric.Token.{TokenType, Token}
use cleric.Lexer.{
  Lexer, lexer_init, lexer_next_token, scan, scan_word, scan_symbol, scan_number, bad_suffix,
  count_while, is_alpha, is_digit, is_keyword, is_space, is_word, is_word_start, next_is,
  skip_whitespace, symbol_type,
}
use cleric.Lexer.Spelling.{IsSpelled}
use cleric.Ast.{
  BinaryOperatorType, AstNode, program, func_def, return_stmt, int_literal, binary_op, block, nil,
  cons,
}
use cleric.Source.{eval, ending}
use cleric.Parser.{
  Parser, parsed, parser_init, parser_consume, parser_advance, parser_error, same_type, type_number,
  token_to_binary_operator_type, token_to_unary_operator_type, get_token_precedence,
}
use cleric.Parser.Program.{parse_program, parse_function_definition, parse_block, parse_parameters}
use cleric.Parser.Grammar.{
  parse_expression, parse_return_statement, parse_literal, literal_value, next_min_precedence,
  parse_declaration,
}
use cleric.Tac.{TacFunction, TacProgram}
use cleric.AstToTac.{ast_to_tac}
use cleric.AstToTac.Body.{body_of, is_supported_statement}
use cleric.AstToTac.Correct.{outcome}
use cleric.AstToTac.Gen.{is_supported, is_supported_op, gen}
use cleric.Codegen.{Buffer, codegen_generate_program}
use cleric.Codegen.Asm.{AsmLine, cltd}
use cleric.Codegen.Correct.{EndsAs}
use cleric.Codegen.Encoding.{IsLegal}
use cleric.Codegen.Machine.{Cpu, Runs}
use cleric.Compiler.{Lexed, token_line, run_lexer}
use cleric.Compiler.Correct.{compile_correct}
use cleric.Compiler.EndToEnd.{direct, nested, compiled_expression_returns}
use cleric.Compiler.Lexing.{run_lexer-ends, run_lexer-spaced}
use cleric.Compiler.Modes.{no_flags, compile-ends, compile-keeps, compile_modes}
use cleric.Compiler.Translation.{translation-IsLegal}
use cleric.Compiler.Stages.{Flags, Compiled, compile}

-- A source with an unknown character.
abbrev a_lexer : Lexer
a_lexer = record { src = codes "int main @"; pos = 3 }

run_lexer-ends_example : (r : Lexed) × (run_lexer 8 true a_lexer ≡ some r)
run_lexer-ends_example = run_lexer-ends 8 true a_lexer (omega arith) (omega arith)

abbrev some_tokens : List Token
some_tokens =
    record { type = TokenType.keyword_return; lexeme = none; position = 1 }
    ∷ record { type = TokenType.identifier; lexeme = some (codes "x1"); position = 8 }
    ∷ record { type = TokenType.symbol_less_equal; lexeme = none; position = 11 }
    ∷ record { type = TokenType.constant; lexeme = some (codes "42"); position = 14 }
    ∷ []

spelled : All (λ t. IsSpelled t.type t.lexeme) some_tokens
unfolding is_word_start is_alpha is_word is_digit is_keyword text_eq
spelled = (tt, ((refl, (refl, tt), refl), (tt, ((refl, (refl, tt)), tt))))

abbrev a_spaced : Lexer
a_spaced = record { src = codes " return x1 <= 42 "; pos = 0 }

run_lexer-spaced_example :
    (l' : Lexer) × (run_lexer 5 true a_spaced
      ≡ some (record { success = true; lines = map token_line some_tokens; lexer = l' }))
run_lexer-spaced_example = run_lexer-spaced some_tokens 5 a_spaced spelled refl (omega arith)

abbrev a_source : Text
a_source = codes "int main(void) { { return 7 / 2; } }"

-- 7 / 2
abbrev a_quotient : AstNode
a_quotient = binary_op BinaryOperatorType.divide (int_literal (pos 7)) (int_literal (pos 2))

abbrev a_body : AstNode
a_body = block (cons (block (cons (return_stmt a_quotient) nil)) nil)

-- A call with 64 bytes of stack.
abbrev a_cpu : Cpu
a_cpu = record {
  rest = [];
  a = pos 5;
  c = pos 6;
  d = pos 7;
  r10 = pos 8;
  left = pos 0;
  right = pos 1;
  rsp = 64;
  rbp = 96;
  memory = λ x. pos x;
}

compiled_expression_returns_example :
    (prog : TacProgram) × (lines : List AsmLine) × (ast_to_tac
        (program (func_def (codes "main") a_body))
      ≡ some prog)
    × (codegen_generate_program prog [] ≡ (true, lines))
    × Runs lines (EndsAs a_cpu (outcome (ending (eval a_quotient)))) (record a_cpu { rest = lines })
unfolding is_supported is_supported_op gen
compiled_expression_returns_example =
    compiled_expression_returns (codes "main") a_quotient a_body (nested (nested direct)) refl
      (omega arith) (omega arith) (omega arith) a_cpu (omega arith)

abbrev a_lexed : Lexed
a_lexed = record { success = true; lines = []; lexer = record { src = a_source; pos = 36 } }

a_source-lexed : run_lexer 120 false (lexer_init a_source) ≡ some a_lexed
unfolding run_lexer lexer_init lexer_next_token scan scan_word scan_symbol scan_number bad_suffix
    count_while is_alpha is_digit is_keyword is_space is_word is_word_start next_is skip_whitespace
    symbol_type text_eq
a_source-lexed = refl

abbrev eof_token : Token
eof_token = record { type = TokenType.eof; lexeme = none; position = 36 }

abbrev a_parser : Parser
a_parser = record {
  lexer = record { src = a_source; pos = 36 };
  current_token = eof_token;
  peek_token = eof_token;
  error_flag = false;
}

a_source-parsed :
    parse_program 120 (parser_init (lexer_init a_source))
    ≡ parsed (program (func_def (codes "main") a_body)) a_parser
unfolding parse_expression parse_return_statement parse_literal literal_value next_min_precedence
    parse_declaration parse_program parse_function_definition parse_block parse_parameters
    parser_init parser_consume parser_advance parser_error same_type type_number
    token_to_binary_operator_type token_to_unary_operator_type get_token_precedence lexer_init
    lexer_next_token scan scan_word scan_symbol scan_number bad_suffix count_while is_alpha is_digit
    is_keyword is_space is_word is_word_start next_is skip_whitespace symbol_type text_eq
    digits_value
a_source-parsed = refl

a_compilation :
    (r : Compiled) × (lines : Buffer) × (compile 120 a_source no_flags (some (cltd ∷ [])) ≡ some r)
    × (r.success ≡ true)
    × (r.buffer ≡ some lines)
    × Runs lines (EndsAs a_cpu (outcome (ending (eval a_quotient)))) (record a_cpu { rest = lines })
unfolding is_supported is_supported_op gen
a_compilation =
    compile_correct 120 a_source (cltd ∷ []) a_lexed a_parser (codes "main") a_quotient a_body
      (omega arith) a_source-lexed refl a_source-parsed refl (nested (nested direct)) refl
      (omega arith) (omega arith) (omega arith) a_cpu (omega arith)

compile_correct_example :
    (r : Compiled) × (lines : Buffer) × (compile 120 a_source no_flags (some []) ≡ some r)
    × (r.success ≡ true)
    × (r.buffer ≡ some lines)
    × Runs lines (EndsAs a_cpu (outcome (ending (eval a_quotient)))) (record a_cpu { rest = lines })
unfolding is_supported is_supported_op gen
compile_correct_example =
    compile_correct 120 a_source [] a_lexed a_parser (codes "main") a_quotient a_body (omega arith)
      a_source-lexed refl a_source-parsed refl (nested (nested direct)) refl (omega arith)
      (omega arith) (omega arith) a_cpu (omega arith)

abbrev tac_mode : Flags
tac_mode = record no_flags { tac_only = true }

compile_modes_example :
    (q : Compiled) × (compile 120 a_source tac_mode (some []) ≡ some q) × (q.success ≡ true)
compile_modes_example =
    compile_modes 120 a_source tac_mode (cltd ∷ []) [] a_compilation.0 (omega arith) a_compilation.2
      a_compilation.3

-- Its name is not closed.
abbrev a_wrong_source : Text
a_wrong_source = codes "int main(void { return 7; }"

compile-keeps_example :
    (r : Compiled) × (compile 91 a_wrong_source tac_mode (some (cltd ∷ [])) ≡ some r)
    × (r.buffer ≡ some (cltd ∷ []))
compile-keeps_example =
    compile-keeps 91 a_wrong_source tac_mode (some (cltd ∷ [])) (omega arith) refl

compile-ends_example : (r : Compiled) × (compile 91 a_wrong_source no_flags none ≡ some r)
compile-ends_example = compile-ends 91 a_wrong_source no_flags none (omega arith)

-- { return 7 / 2; return 3; }
abbrev two_returns : AstNode
two_returns = block (cons (return_stmt a_quotient) (cons (return_stmt (int_literal (pos 3))) nil))

translation-IsLegal_example :
    (f : TacFunction) × (prog : TacProgram) × (ast_to_tac
        (program (func_def (codes "main") two_returns))
      ≡ some prog)
    × (prog.functions ≡ f ∷ [])
    × All (IsLegal (body_of two_returns 0 0).next_temp) f.instructions
    × ((codegen_generate_program prog []).0 ≡ true)
unfolding is_supported_statement is_supported is_supported_op body_of gen
translation-IsLegal_example =
    translation-IsLegal (codes "main") two_returns [] refl
      ((omega arith, omega arith), (omega arith, tt)) (omega arith) (omega arith)
