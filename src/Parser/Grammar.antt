-- ===== src/Parser/Grammar.antt =====
-- src/parser/parser.c: the functions that parse a rule of the grammar each. A test that leaves a
-- function early is a helper that takes what follows as a function.
use cleric.Common.{
  ℕ, zero, suc, ◌+◌, Bool, true, false, not, Option, none, some, [], ltb, if◌then◌else◌,
}
use cleric.Common.Int.{pos}
use cleric.Common.Text.{Text, codes, digits_value}
use cleric.Token.{TokenType}
use cleric.Ast.{
  BinaryOperatorType, AstNode, null, return_stmt, int_literal, unary_op, binary_op, var_decl,
  identifier,
}
use cleric.Parser.{
  Parser, Parsed, out_of_fuel, null_result, parsed, same_type, get_token_precedence,
  token_to_binary_operator_type, token_to_unary_operator_type, parser_error, parser_advance,
  parser_consume,
}

-- The current token's type is the given one.
abbrev pub at_type : Parser → TokenType → Bool
at_type p type = same_type p.current_token.type type

abbrev pub lexeme_text : Option Text → Text
lexeme_text none = []
lexeme_text (some w) = w

-- NULL unless the test holds.
abbrev pub go_if : {A : Type 0} → Bool → Parser → (Parser → Parsed A) → Parsed A
go_if true p next = next p
go_if false p next = null_result p

-- `if (parser->error_flag) return NULL;`
abbrev pub unless_error : {A : Type 0} → Parser → (Parser → Parsed A) → Parsed A
unless_error p next = go_if (not p.error_flag) p next

-- parser_advance and the test of the error flag behind it.
abbrev pub advance : {A : Type 0} → Parser → (Parser → Parsed A) → Parsed A
advance p next = unless_error (parser_advance p) next

-- `if (!parser_consume(parser, type)) return NULL;`
abbrev pub consume : {A : Type 0} → Parser → TokenType → (Parser → Parsed A) → Parsed A
consume p type next = let (done, p') = parser_consume p type in go_if done p' next

-- `if (!node) return NULL;`
abbrev pub with_node : {A B : Type 0} → Parsed A → (A → Parser → Parsed B) → Parsed B
with_node out_of_fuel next = out_of_fuel
with_node (null_result p) next = null_result p
with_node (parsed n p) next = next n p

-- The same with an error for NULL, unless there is one.
abbrev pub with_node_or_error : {A B : Type 0} → Parsed A → (A → Parser → Parsed B) → Parsed B
with_node_or_error out_of_fuel next = out_of_fuel
with_node_or_error (null_result p) next = null_result (parser_error p)
with_node_or_error (parsed n p) next = next n p

-- The constant of an int literal; `none` where it is out of the range of an int.
unfoldable pub literal_value : Text → Option ℕ
literal_value w = let value = digits_value w 0 in if ltb 2147483647 value then none else some value

unfoldable pub parse_literal : Parser → Parsed AstNode
unfolding literal_value
parse_literal p = elim (literal_value (lexeme_text p.current_token.lexeme)) [
  | none ↦ null_result (parser_error p)
  | some value ↦ parsed (int_literal (pos value)) (parser_advance p)
]

-- The least precedence of an operator in the right operand.
unfoldable pub next_min_precedence : BinaryOperatorType → ℕ → ℕ
next_min_precedence BinaryOperatorType.assign op_precedence = op_precedence
next_min_precedence _ op_precedence = op_precedence + 1

unfoldable mutual
  pub parse_expression : ℕ → Parser → Parsed AstNode
  parse_expression zero p = out_of_fuel
  parse_expression (suc fuel) p = unless_error p (λ p. parse_expression_recursive fuel p 1)

  pub parse_primary_expression : ℕ → Parser → Parsed AstNode
  parse_primary_expression zero p = out_of_fuel
  parse_primary_expression (suc fuel) p = unless_error p λ p.
      elim (token_to_unary_operator_type p.current_token.type) [
        | some op ↦ advance p λ p.
            with_node_or_error (parse_expression_recursive fuel p 7)
              λ operand p. unless_error p λ p. parsed (unary_op op operand) p
        | none ↦ elim (at_type p TokenType.identifier) [
          | true ↦ parsed (identifier (lexeme_text p.current_token.lexeme)) (parser_advance p)
          | false ↦ elim (at_type p TokenType.constant) [
            | true ↦ parse_literal p
            | false ↦ elim (at_type p TokenType.symbol_lparen) [
              | true ↦ advance p λ p.
                  with_node (parse_expression fuel p)
                    λ inner p. consume p TokenType.symbol_rparen λ p. parsed inner p
              | false ↦ null_result (parser_error p)
            ]
          ]
        ]
      ]

  pub parse_expression_recursive : ℕ → Parser → ℕ → Parsed AstNode
  parse_expression_recursive zero p min_precedence = out_of_fuel
  parse_expression_recursive (suc fuel) p min_precedence = unless_error p λ p.
      with_node (parse_primary_expression fuel p)
        λ left p. unless_error p λ p. parse_operators fuel p min_precedence left

  -- The loop over the operators behind the left operand.
  pub parse_operators : ℕ → Parser → ℕ → AstNode → Parsed AstNode
  parse_operators zero p min_precedence left = out_of_fuel
  parse_operators (suc fuel) p min_precedence left =
      let op_precedence = get_token_precedence p.current_token.type in
      elim (ltb op_precedence min_precedence) [
        | true ↦ parsed left p
        | false ↦ elim (token_to_binary_operator_type p.current_token.type) [
          | none ↦ null_result (parser_error p)
          | some op ↦ advance p λ p.
              with_node_or_error
                (parse_expression_recursive fuel p (next_min_precedence op op_precedence))
                λ right p. parse_operators fuel p min_precedence (binary_op op left right)
        ]
      ]

unfoldable pub parse_return_statement : ℕ → Parser → Parsed AstNode
parse_return_statement fuel p = unless_error p λ p. consume p TokenType.keyword_return λ p.
    with_node (parse_expression fuel p)
      λ expression p. consume p TokenType.symbol_semicolon λ p. parsed (return_stmt expression) p

unfoldable pub parse_declaration : ℕ → Parser → Parsed AstNode
parse_declaration fuel p = elim (at_type p TokenType.keyword_int) [
  | false ↦ null_result (parser_error p)
  | true ↦ advance p λ p. elim (at_type p TokenType.identifier) [
    | false ↦ null_result (parser_error p)
    | true ↦
        let var_name = lexeme_text p.current_token.lexeme in
        let declare : AstNode → Parser → Parsed AstNode = λ initializer p.
          consume p TokenType.symbol_semicolon
            λ p. parsed (var_decl (codes "int") var_name initializer) p in
        advance p λ p. elim (at_type p TokenType.symbol_assign) [
          | true ↦ advance p λ p. with_node_or_error (parse_expression fuel p) declare
          | false ↦ declare null p
        ]
  ]
]
