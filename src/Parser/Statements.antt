-- ===== src/Parser/Statements.antt =====
-- The parsing of statements, declarations and blocks in src/parser/parser.c ends.
use mathlib.Core.Bool.{true≢false}
use cleric.Common.{
  ℕ, zero, suc, ◌+◌, ◌*◌, ◌≤◌, ◌<◌, ◌≡◌, refl, ◌∙◌, sym, false, arith, Bool-cases, inl, inr,
}
use cleric.Token.{TokenType}
use cleric.Lexer.Progress.{is_eof}
use cleric.Ast.{AstNode, Nodes, return_stmt, block}
use cleric.Parser.{Parser, Parsed, out_of_fuel, null_result, parsed}
use cleric.Parser.Grammar.{
  at_type, consume, parse_expression, parse_return_statement, parse_declaration,
}
use cleric.Parser.Program.{
  checked, after_item, more_items, parse_statement, parse_block, parse_items,
}
use cleric.Parser.Measure.{
  left, IsFine, Ends, at_type-real, advance-left, parser_error-Ends, unless_error-Ends,
  advance-Ends, consume-Ends, with_node-Ends, with_node_or_error-Ends,
}
use cleric.Parser.Expressions.{parse_expression-Ends}

-- A node behind one more token.
consumed-Ends :
    (m : ℕ) (n : AstNode) (type : TokenType) (p : Parser)
    → IsFine p
    → is_eof type ≡ false
    → left p < m
    → Ends m (consume p type λ p. parsed n p)
consumed-Ends m n type p h real less =
    consume-Ends m p type _ h real (λ q fine fewer. (fine, omega arith))

return-Ends :
    (fuel : ℕ) (p : Parser)
    → IsFine p
    → left p * 3 ≤ fuel
    → Ends (left p) (parse_return_statement fuel p)
unfolding parse_return_statement
return-Ends fuel p h enough = unless_error-Ends (left p) p _ h (λ e.
    consume-Ends (left p) p TokenType.keyword_return _ h refl (λ q fine fewer.
      with_node-Ends (left q) (left p) (parse_expression fuel q) _ (omega arith)
        (parse_expression-Ends fuel q fine (omega arith))
        (λ n r fine' fewer'.
          consumed-Ends (left p) (return_stmt n) TokenType.symbol_semicolon r fine' refl
            (omega arith))))

declaration-Ends :
    (fuel : ℕ) (p : Parser)
    → IsFine p
    → left p * 3 ≤ fuel
    → Ends (left p) (parse_declaration fuel p)
unfolding parse_declaration
declaration-Ends fuel p h enough = elim (Bool-cases (at_type p TokenType.keyword_int)) [
  | inr a ↦ rw (a, parse_declaration) (parser_error-Ends AstNode (left p) p h)
  | inl a ↦
      rw (a, parse_declaration)
        (advance-Ends (left p) p _ h (at_type-real p TokenType.keyword_int a refl) (λ q fine fewer.
          elim (Bool-cases (at_type q TokenType.identifier)) [
            | inr b ↦ rw b (parser_error-Ends AstNode (left p) q fine)
            | inl b ↦ rw b (
                advance-Ends (left p) q _ fine (at_type-real q TokenType.identifier b refl)
                  (λ r fine' fewer'. elim (Bool-cases (at_type r TokenType.symbol_assign)) [
                    | inr c ↦ rw c (
                        consumed-Ends (left p) _ TokenType.symbol_semicolon r fine' refl
                          (omega arith))
                    | inl c ↦ rw c (
                        advance-Ends (left p) r _ fine'
                          (at_type-real r TokenType.symbol_assign c refl)
                          (λ s fine₂ fewer₂.
                            with_node_or_error-Ends (left s) (left p) (parse_expression fuel s) _
                              (parse_expression-Ends fuel s fine₂ (omega arith))
                              (λ n t fine₃ fewer₃.
                                consumed-Ends (left p) _ TokenType.symbol_semicolon t fine₃ refl
                                  (omega arith))))
                  ]))
          ]))
]

checked-Ends : (m : ℕ) (r : Parsed AstNode) → Ends m r → Ends m (checked r)
checked-Ends m r h =
    with_node-Ends m m r _ (omega arith) h
      (λ n q fine less. unless_error-Ends m q _ fine (λ e. (fine, less)))

after_item-Ends :
    (k m : ℕ) (r : Parsed AstNode) (rest : Parser → Parsed Nodes)
    → Ends k r
    → ((q : Parser) → IsFine q → left q < k → Ends m (rest q))
    → Ends m (after_item r rest)
after_item-Ends k m out_of_fuel rest h go = absurd h
after_item-Ends k m (null_result p) rest (fine, inl e) go =
    unless_error-Ends m p rest fine (λ f. absurd (true≢false (sym e ∙ f)))
after_item-Ends k m (null_result p) rest (fine, inr less) go =
    unless_error-Ends m p rest fine (λ f. go p fine less)
after_item-Ends k m (parsed n p) rest (fine, less) go = unless_error-Ends m p _ fine (λ f.
    with_node-Ends m m (rest p) _ (omega arith) (go p fine less)
      (λ ns q fine' less'. (fine', less')))

mutual
  unfolding parse_statement

  statement-Ends :
      (fuel : ℕ) (p : Parser)
      → IsFine p
      → left p * 3 + 5 ≤ fuel
      → Ends (left p) (parse_statement fuel p)
  statement-Ends zero p h enough = absurd (omega arith)
  statement-Ends (suc fuel) p h enough = unless_error-Ends (left p) p _ h (λ e.
      elim (Bool-cases (at_type p TokenType.keyword_return)) [
        | inl a ↦ rw a (checked-Ends (left p) _ (return-Ends fuel p h (omega arith)))
        | inr a ↦ elim (Bool-cases (at_type p TokenType.symbol_lbrace)) [
          | inl b ↦ rw (a, b) (checked-Ends (left p) _ (block-Ends fuel p h (omega arith)))
          | inr b ↦ elim (Bool-cases (at_type p TokenType.symbol_semicolon)) [
            | inl c ↦
                let (fine, less) =
                  advance-left p h (at_type-real p TokenType.symbol_semicolon c refl) in
                rw (a, b, c) (fine, inr less)
            | inr c ↦
                rw (a, b, c)
                  (with_node_or_error-Ends (left p) (left p) (parse_expression fuel p) _
                    (parse_expression-Ends fuel p h (omega arith))
                    (λ n q fine less.
                      unless_error-Ends (left p) q _ fine (λ f.
                        consumed-Ends (left p) n TokenType.symbol_semicolon q fine refl less)))
          ]
        ]
      ])

  pub block-Ends :
      (fuel : ℕ) (p : Parser)
      → IsFine p
      → left p * 3 + 4 ≤ fuel
      → Ends (left p) (parse_block fuel p)
  block-Ends zero p h enough = absurd (omega arith)
  block-Ends (suc fuel) p h enough =
      consume-Ends (left p) p TokenType.symbol_lbrace _ h refl (λ q fine fewer.
        with_node-Ends (left p) (left p) (parse_items fuel q) _ (omega arith)
          (items-Ends (left p) fuel q fine fewer (omega arith))
          (λ ns r fine' fewer'.
            unless_error-Ends (left p) r _ fine'
              (λ e. consumed-Ends (left p) (block ns) TokenType.symbol_rbrace r fine' refl fewer')))

  items-Ends :
      (m fuel : ℕ) (p : Parser)
      → IsFine p
      → left p < m
      → left p * 3 + 6 ≤ fuel
      → Ends m (parse_items fuel p)
  items-Ends m zero p h less enough = absurd (omega arith)
  items-Ends m (suc fuel) p h less enough = elim (Bool-cases (more_items p)) [
    | inr a ↦ rw (a, parse_items) (h, less)
    | inl a ↦ elim (Bool-cases (at_type p TokenType.keyword_int)) [
      | inl b ↦
          rw (a, b, parse_items)
            (after_item-Ends (left p) m (parse_declaration fuel p) _
              (declaration-Ends fuel p h (omega arith))
              (λ q fine fewer. items-Ends m fuel q fine (omega arith) (omega arith)))
      | inr b ↦
          rw (a, b, parse_items)
            (after_item-Ends (left p) m (parse_statement fuel p) _
              (statement-Ends fuel p h (omega arith))
              (λ q fine fewer. items-Ends m fuel q fine (omega arith) (omega arith)))
    ]
  ]
