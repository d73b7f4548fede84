-- ===== src/Parser/Program.antt =====
-- src/parser/parser.c: statements, blocks, the function definition and the program.
use cleric.Common.{ℕ, zero, suc, Bool, true, false, ◌||◌}
use cleric.Token.{TokenType}
use cleric.Ast.{AstNode, Nodes, program, func_def, block, nil, cons}
use cleric.Parser.{Parser, Parsed, out_of_fuel, null_result, parsed, parser_error, parser_advance}
use cleric.Parser.Grammar.{
  at_type, lexeme_text, unless_error, advance, consume, with_node, with_node_or_error,
  parse_expression, parse_return_statement, parse_declaration,
}

-- The test of the error flag behind the switch of parse_statement.
abbrev pub checked : Parsed AstNode → Parsed AstNode
checked r = with_node r λ n p. unless_error p λ p. parsed n p

-- The loop's body behind an item: NULL without an error, for an empty statement, adds nothing.
abbrev pub after_item : Parsed AstNode → (Parser → Parsed Nodes) → Parsed Nodes
after_item out_of_fuel rest = out_of_fuel
after_item (null_result p) rest = unless_error p rest
after_item (parsed item p) rest =
    unless_error p λ p. with_node (rest p) λ items p. parsed (cons item items) p

-- The loop of parse_block goes on.
abbrev pub more_items : Parser → Bool
more_items p =
    elim (at_type p TokenType.symbol_rbrace || (at_type p TokenType.eof || p.error_flag)) [
      | true ↦ false
      | false ↦ true
    ]

unfoldable mutual
  pub parse_statement : ℕ → Parser → Parsed AstNode
  parse_statement zero p = out_of_fuel
  parse_statement (suc fuel) p = unless_error p λ p. elim (at_type p TokenType.keyword_return) [
    | true ↦ checked (parse_return_statement fuel p)
    | false ↦ elim (at_type p TokenType.symbol_lbrace) [
      | true ↦ checked (parse_block fuel p)
      | false ↦ elim (at_type p TokenType.symbol_semicolon) [
        | true ↦ null_result (parser_advance p)
        | false ↦ with_node_or_error (parse_expression fuel p) λ expression p.
            unless_error p λ p. consume p TokenType.symbol_semicolon λ p. parsed expression p
      ]
    ]
  ]

  pub parse_block : ℕ → Parser → Parsed AstNode
  parse_block zero p = out_of_fuel
  parse_block (suc fuel) p = consume p TokenType.symbol_lbrace λ p.
      with_node (parse_items fuel p)
        λ items p. unless_error p λ p. consume p TokenType.symbol_rbrace λ p. parsed (block items) p

  -- The loop over the items of a block.
  pub parse_items : ℕ → Parser → Parsed Nodes
  parse_items zero p = out_of_fuel
  parse_items (suc fuel) p = elim (more_items p) [
    | false ↦ parsed nil p
    | true ↦ elim (at_type p TokenType.keyword_int) [
      | true ↦ after_item (parse_declaration fuel p) λ p. parse_items fuel p
      | false ↦ after_item (parse_statement fuel p) λ p. parse_items fuel p
    ]
  ]

unfoldable pub parse_parameters : {A : Type 0} → Parser → (Parser → Parsed A) → Parsed A
parse_parameters p next = consume p TokenType.symbol_lparen λ p.
    elim (at_type p TokenType.keyword_void) [
      | true ↦ advance p λ p. consume p TokenType.symbol_rparen next
      | false ↦ elim (at_type p TokenType.symbol_rparen) [
        | true ↦ consume p TokenType.symbol_rparen next
        | false ↦ null_result (parser_error p)
      ]
    ]

unfoldable pub parse_function_definition : ℕ → Parser → Parsed AstNode
unfolding parse_parameters
parse_function_definition fuel p = unless_error p λ p. consume p TokenType.keyword_int λ p.
    elim (at_type p TokenType.identifier) [
      | false ↦ null_result (parser_error p)
      | true ↦
          let func_name = lexeme_text p.current_token.lexeme in
          advance p λ p. parse_parameters p λ p.
            with_node_or_error (parse_block fuel p) λ body p. parsed (func_def func_name body) p
    ]

unfoldable pub parse_program : ℕ → Parser → Parsed AstNode
parse_program fuel p = with_node (parse_function_definition fuel p) λ f p. unless_error p λ p.
    elim (at_type p TokenType.eof) [
      | true ↦ parsed (program f) p
      | false ↦ null_result (parser_error p)
    ]
