-- ===== src/Parser/Tests.antt =====
-- The parser of src/parser/parser.c on concrete sources.
use cleric.Common.{◌≡◌, refl, arith}
use cleric.Common.Int.{pos}
use cleric.Common.Text.{Text, codes, text_eq, digits_value}
use cleric.Lexer.{
  lexer_init, lexer_next_token, scan, scan_word, scan_symbol, scan_number, bad_suffix, count_while,
  is_alpha, is_digit, is_keyword, is_space, is_word, is_word_start, next_is, skip_whitespace,
  symbol_type,
}
use cleric.Ast.{
  UnaryOperatorType, BinaryOperatorType, AstNode, null, program, func_def, return_stmt, int_literal,
  unary_op, binary_op, block, nil, cons,
}
use cleric.Parser.{
  Parsed, parsed, null_result, out_of_fuel, parser_init, parser_consume, parser_advance,
  parser_error, same_type, type_number, token_to_binary_operator_type, token_to_unary_operator_type,
  get_token_precedence,
}
use cleric.Parser.Measure.{left, Ends}
use cleric.Parser.Endings.{parse_program-Ends}
use cleric.Parser.Program.{parse_program, parse_function_definition, parse_block, parse_parameters}
use cleric.Parser.Grammar.{
  parse_expression, parse_return_statement, parse_literal, literal_value, next_min_precedence,
  parse_declaration,
}

abbrev tree : Parsed AstNode → AstNode
tree out_of_fuel = null
tree (null_result p) = null
tree (parsed n p) = n

abbrev parse : Text → AstNode
parse source = tree (parse_program 40 (parser_init (lexer_init source)))

-- A unary operator takes the product behind it as its operand.
parse-unary :
    parse (codes "int main(void) { return !2 * 3; }")
    ≡ program (
        func_def (codes "main") (
          block (
            cons
              (return_stmt (
                unary_op UnaryOperatorType.logical_not (
                  binary_op BinaryOperatorType.multiply
                    (int_literal (pos 2))
                    (int_literal (pos 3)))))
              nil)))
unfolding parse_expression parse_return_statement parse_literal literal_value next_min_precedence
    parse_declaration parse_program parse_function_definition parse_block parse_parameters
    parser_init parser_consume parser_advance parser_error same_type type_number
    token_to_binary_operator_type token_to_unary_operator_type get_token_precedence lexer_init
    lexer_next_token scan scan_word scan_symbol scan_number bad_suffix count_while is_alpha is_digit
    is_keyword is_space is_word is_word_start next_is skip_whitespace symbol_type text_eq
    digits_value
parse-unary = refl

abbrev a_source : Text
a_source = codes "int main(void) { int x = 4; return (x; }"

parse_program-Ends_example :
    let p = parser_init (lexer_init a_source) in Ends (left p) (parse_program 200 p)
parse_program-Ends_example = parse_program-Ends a_source 200 (omega arith)
