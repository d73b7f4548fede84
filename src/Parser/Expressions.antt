-- ===== src/Parser/Expressions.antt =====
-- The parsing of expressions in src/parser/parser.c ends: fuel in proportion to what is left of the
-- source is enough.
use cleric.Common.{
  ℕ, zero, suc, ◌+◌, ◌*◌, ◌≤◌, ◌<◌, ◌≡◌, refl, false, some, arith, ltb, Bool-cases, Option-cases,
  inl, inr,
}
use cleric.Token.{TokenType}
use cleric.Lexer.Progress.{is_eof}
use cleric.Ast.{AstNode, binary_op, UnaryOperatorType, BinaryOperatorType}
use cleric.Parser.{
  Parser, token_to_unary_operator_type, token_to_binary_operator_type, get_token_precedence,
}
use cleric.Parser.Grammar.{
  at_type, lexeme_text, literal_value, parse_literal, next_min_precedence, parse_expression,
  parse_primary_expression, parse_expression_recursive, parse_operators,
}
use cleric.Parser.Measure.{
  left, IsFine, Ends, at_type-real, advance-left, parser_error-Ends, unless_error-Ends,
  advance-Ends, consume-Ends, with_node-Ends, with_node_or_error-Ends,
}

unary-real :
    (t : TokenType) (op : UnaryOperatorType)
    → token_to_unary_operator_type t ≡ some op
    → is_eof t ≡ false
unfolding token_to_unary_operator_type
unary-real TokenType.symbol_minus op h = refl
unary-real TokenType.symbol_tilde op h = refl
unary-real TokenType.symbol_bang op h = refl
unary-real TokenType.eof op h = cc
unary-real _ op h = refl

binary-real :
    (t : TokenType) (op : BinaryOperatorType)
    → token_to_binary_operator_type t ≡ some op
    → is_eof t ≡ false
unfolding token_to_binary_operator_type
binary-real TokenType.eof op h = cc
binary-real _ op h = refl

literal-Ends :
    (m : ℕ) (p : Parser)
    → IsFine p
    → is_eof p.current_token.type ≡ false
    → left p ≤ m
    → Ends m (parse_literal p)
unfolding parse_literal
literal-Ends m p h real le =
    elim (Option-cases (literal_value (lexeme_text p.current_token.lexeme))) [
      | inl e ↦ rw (e, parse_literal) (parser_error-Ends AstNode m p h)
      | inr (v, e) ↦
          let (fine, less) = advance-left p h real in rw (e, parse_literal) (fine, omega arith)
    ]

mutual
  unfolding parse_expression

  expression-Ends :
      (fuel : ℕ) (p : Parser)
      → IsFine p
      → left p * 3 + 3 ≤ fuel
      → Ends (left p) (parse_expression fuel p)
  expression-Ends zero p h enough = absurd (omega arith)
  expression-Ends (suc fuel) p h enough =
      unless_error-Ends (left p) p _ h (λ e. recursive-Ends fuel p 1 h (omega arith))

  recursive-Ends :
      (fuel : ℕ) (p : Parser) (min : ℕ)
      → IsFine p
      → left p * 3 + 2 ≤ fuel
      → Ends (left p) (parse_expression_recursive fuel p min)
  recursive-Ends zero p min h enough = absurd (omega arith)
  recursive-Ends (suc fuel) p min h enough = unless_error-Ends (left p) p _ h (λ e.
      with_node-Ends (left p) (left p) (parse_primary_expression fuel p) _ (omega arith)
        (primary-Ends fuel p h (omega arith))
        (λ n q fine less.
          unless_error-Ends (left p) q _ fine
            (λ f. operators-Ends (left p) fuel q min n fine less (omega arith))))

  operators-Ends :
      (m fuel : ℕ) (p : Parser) (min : ℕ) (n : AstNode)
      → IsFine p
      → left p < m
      → left p * 3 + 3 ≤ fuel
      → Ends m (parse_operators fuel p min n)
  operators-Ends m zero p min n h less enough = absurd (omega arith)
  operators-Ends m (suc fuel) p min n h less enough =
      let prec = get_token_precedence p.current_token.type in
      elim (Bool-cases (ltb prec min)) [
        | inl e ↦ rw (e, parse_operators) (h, less)
        | inr e ↦ elim (Option-cases (token_to_binary_operator_type p.current_token.type)) [
          | inl f ↦ rw (e, f, parse_operators) (parser_error-Ends AstNode m p h)
          | inr (op, f) ↦
              rw (e, f, parse_operators)
                (advance-Ends m p _ h (binary-real p.current_token.type op f) (λ q fine fewer.
                  with_node_or_error-Ends (left q) m
                    (parse_expression_recursive fuel q (next_min_precedence op prec)) _
                    (recursive-Ends fuel q (next_min_precedence op prec) fine (omega arith))
                    (λ r s fine' fewer'.
                      operators-Ends m fuel s min (binary_op op n r) fine' (omega arith)
                        (omega arith))))
        ]
      ]

  primary-Ends :
      (fuel : ℕ) (p : Parser)
      → IsFine p
      → left p * 3 + 1 ≤ fuel
      → Ends (left p) (parse_primary_expression fuel p)
  primary-Ends zero p h enough = absurd (omega arith)
  primary-Ends (suc fuel) p h enough = unless_error-Ends (left p) p _ h (λ e.
      elim (Option-cases (token_to_unary_operator_type p.current_token.type)) [
        | inr (op, f) ↦ rw f (
            advance-Ends (left p) p _ h (unary-real p.current_token.type op f) (λ q fine fewer.
              with_node_or_error-Ends (left q) (left p) (parse_expression_recursive fuel q 7) _
                (recursive-Ends fuel q 7 fine (omega arith))
                (λ n r fine' fewer'.
                  unless_error-Ends (left p) r _ fine' (λ g. (fine', omega arith)))))
        | inl f ↦ elim (Bool-cases (at_type p TokenType.identifier)) [
          | inl a ↦
              let (fine, less) = advance-left p h (at_type-real p TokenType.identifier a refl) in
              rw (f, a) (fine, less)
          | inr a ↦ elim (Bool-cases (at_type p TokenType.constant)) [
            | inl b ↦
                rw (f, a, b)
                  (literal-Ends (left p) p h (at_type-real p TokenType.constant b refl)
                    (omega arith))
            | inr b ↦ elim (Bool-cases (at_type p TokenType.symbol_lparen)) [
              | inr c ↦ rw (f, a, b, c) (parser_error-Ends AstNode (left p) p h)
              | inl c ↦
                  rw (f, a, b, c)
                    (advance-Ends (left p) p _ h (at_type-real p TokenType.symbol_lparen c refl)
                      (λ q fine fewer.
                        with_node-Ends (left q) (left p) (parse_expression fuel q) _ (omega arith)
                          (expression-Ends fuel q fine (omega arith))
                          (λ n r fine' fewer'.
                            consume-Ends (left p) r TokenType.symbol_rparen _ fine' refl
                              (λ s fine'' fewer''. (fine'', omega arith)))))
            ]
          ]
        ]
      ])

-- With three units of fuel for each byte and token that is left, and three more, parse_expression
-- ends from every position within the source; and unless it reports an error, less is left then.
pub parse_expression-Ends :
    (fuel : ℕ) (p : Parser)
    → IsFine p
    → left p * 3 + 3 ≤ fuel
    → Ends (left p) (parse_expression fuel p)
parse_expression-Ends fuel p h enough = expression-Ends fuel p h enough
