-- ===== src/Parser.antt =====
-- src/parser/parser.c: a recursive-descent parser with precedence climbing, over the lexer and two
-- tokens. A function that returns a node or NULL gives a `Parsed`. The recursion has fuel. The text
-- of error messages is left out, nodes are allocated without failure, and the lexeme of a constant
-- consists of digits, as the lexer makes it.
pub mod Grammar
pub mod Program
pub mod Measure
pub mod Expressions
pub mod Statements
pub mod Endings
mod Tests
use cleric.Common.{
  ℕ, zero, suc, ◌+◌, Bool, true, false, not, ◌&&◌, ◌||◌, Option, none, some, List, [], ◌∷◌, ltb,
  ◌==◌, if◌then◌else◌,
}
use cleric.Common.Int.{pos}
use cleric.Common.Text.{Text, codes, digits_value}
use cleric.Token.{TokenType, Token}
use cleric.Lexer.{Lexer, lexer_next_token}
use cleric.Ast.{
  UnaryOperatorType, BinaryOperatorType, AstNode, Nodes, null, program, func_def, return_stmt,
  int_literal, unary_op, binary_op, var_decl, identifier, block, nil, cons,
}

pub record Parser : Type 0 where
  pub lexer : Lexer
  pub current_token : Token
  pub peek_token : Token
  pub error_flag : Bool

-- What a parsing function leaves: NULL or a node, and the parser.
pub data Parsed (A : Type 0) : Type 0 where
  out_of_fuel : Parsed A
  null_result : Parser → Parsed A
  parsed : A → Parser → Parsed A

-- `==` on token types.
unfoldable pub type_number : TokenType → ℕ
type_number TokenType.identifier = 0
type_number TokenType.constant = 1
type_number TokenType.keyword_int = 2
type_number TokenType.keyword_void = 3
type_number TokenType.keyword_return = 4
type_number TokenType.symbol_lparen = 5
type_number TokenType.symbol_rparen = 6
type_number TokenType.symbol_lbrace = 7
type_number TokenType.symbol_rbrace = 8
type_number TokenType.symbol_semicolon = 9
type_number TokenType.symbol_tilde = 10
type_number TokenType.symbol_minus = 11
type_number TokenType.symbol_plus = 12
type_number TokenType.symbol_star = 13
type_number TokenType.symbol_slash = 14
type_number TokenType.symbol_percent = 15
type_number TokenType.symbol_less = 16
type_number TokenType.symbol_greater = 17
type_number TokenType.symbol_less_equal = 18
type_number TokenType.symbol_greater_equal = 19
type_number TokenType.symbol_equal_equal = 20
type_number TokenType.symbol_not_equal = 21
type_number TokenType.symbol_logical_and = 22
type_number TokenType.symbol_logical_or = 23
type_number TokenType.symbol_bang = 24
type_number TokenType.symbol_assign = 25
type_number TokenType.symbol_decrement = 26
type_number TokenType.eof = 27
type_number TokenType.unknown = 28

unfoldable pub same_type : TokenType → TokenType → Bool
unfolding type_number
same_type a b = type_number a == type_number b

unfoldable pub get_token_precedence : TokenType → ℕ
get_token_precedence TokenType.symbol_assign = 1
get_token_precedence TokenType.symbol_logical_or = 2
get_token_precedence TokenType.symbol_logical_and = 3
get_token_precedence TokenType.symbol_equal_equal = 4
get_token_precedence TokenType.symbol_not_equal = 4
get_token_precedence TokenType.symbol_less = 5
get_token_precedence TokenType.symbol_greater = 5
get_token_precedence TokenType.symbol_less_equal = 5
get_token_precedence TokenType.symbol_greater_equal = 5
get_token_precedence TokenType.symbol_plus = 6
get_token_precedence TokenType.symbol_minus = 6
get_token_precedence TokenType.symbol_star = 7
get_token_precedence TokenType.symbol_slash = 7
get_token_precedence TokenType.symbol_percent = 7
get_token_precedence _ = 0

-- `none` is the source's -1.
unfoldable pub token_to_binary_operator_type : TokenType → Option BinaryOperatorType
token_to_binary_operator_type TokenType.symbol_plus = some BinaryOperatorType.add
token_to_binary_operator_type TokenType.symbol_minus = some BinaryOperatorType.subtract
token_to_binary_operator_type TokenType.symbol_star = some BinaryOperatorType.multiply
token_to_binary_operator_type TokenType.symbol_slash = some BinaryOperatorType.divide
token_to_binary_operator_type TokenType.symbol_percent = some BinaryOperatorType.modulo
token_to_binary_operator_type TokenType.symbol_logical_or = some BinaryOperatorType.logical_or
token_to_binary_operator_type TokenType.symbol_logical_and = some BinaryOperatorType.logical_and
token_to_binary_operator_type TokenType.symbol_equal_equal = some BinaryOperatorType.equal_equal
token_to_binary_operator_type TokenType.symbol_not_equal = some BinaryOperatorType.not_equal
token_to_binary_operator_type TokenType.symbol_less = some BinaryOperatorType.less
token_to_binary_operator_type TokenType.symbol_less_equal = some BinaryOperatorType.less_equal
token_to_binary_operator_type TokenType.symbol_greater = some BinaryOperatorType.greater
token_to_binary_operator_type TokenType.symbol_greater_equal = some BinaryOperatorType.greater_equal
token_to_binary_operator_type TokenType.symbol_assign = some BinaryOperatorType.assign
token_to_binary_operator_type _ = none

unfoldable pub token_to_unary_operator_type : TokenType → Option UnaryOperatorType
token_to_unary_operator_type TokenType.symbol_minus = some UnaryOperatorType.negate
token_to_unary_operator_type TokenType.symbol_tilde = some UnaryOperatorType.complement
token_to_unary_operator_type TokenType.symbol_bang = some UnaryOperatorType.logical_not
token_to_unary_operator_type _ = none

unfoldable pub parser_error : Parser → Parser
parser_error p = record p { error_flag = true }

unfoldable pub parser_init : Lexer → Parser
unfolding lexer_next_token same_type parser_error
parser_init lexer =
    let (current, lexer₁) = lexer_next_token lexer in
    let (peek, lexer₂) = lexer_next_token lexer₁ in
    record {
      lexer = lexer₂;
      current_token = current;
      peek_token = peek;
      error_flag = same_type current.type TokenType.unknown;
    }

unfoldable pub parser_advance : Parser → Parser
unfolding lexer_next_token same_type
parser_advance p =
    let (peek, lexer) = lexer_next_token p.lexer in
    if same_type p.current_token.type TokenType.eof then p else record {
      lexer = lexer;
      current_token = p.peek_token;
      peek_token = peek;
      error_flag = p.error_flag || same_type peek.type TokenType.unknown;
    }

unfoldable pub parser_consume : Parser → TokenType → Bool × Parser
unfolding parser_advance same_type parser_error
parser_consume p expected_type =
    let advanced = parser_advance p in
    if same_type p.current_token.type expected_type
    then (not advanced.error_flag, advanced)
    else (false, parser_error p)
