-- ===== src/Parser/Endings.antt =====
-- The parsing of a whole program in src/parser/parser.c ends.
use cleric.Common.{ℕ, ◌+◌, ◌*◌, ◌≤◌, ◌<◌, refl, ap, arith, Bool-cases, inl, inr, length}
use cleric.Common.Text.{Text}
use cleric.Token.{TokenType}
use cleric.Lexer.{lexer_init, lexer_next_token}
use cleric.Lexer.Progress.{next_token-advances}
use cleric.Ast.{AstNode}
use cleric.Parser.{Parser, Parsed, parser_init}
use cleric.Parser.Grammar.{at_type}
use cleric.Parser.Program.{parse_block, parse_parameters, parse_function_definition, parse_program}
use cleric.Parser.Measure.{
  unread_small, left, IsFine, Ends, at_type-real, parser_error-Ends, unless_error-Ends,
  advance-Ends, consume-Ends, with_node-Ends, with_node_or_error-Ends,
}
use cleric.Parser.Statements.{block-Ends}

parameters-Ends :
    (A : Type 0) (m : ℕ) (p : Parser) (next : Parser → Parsed A)
    → IsFine p
    → ((q : Parser) → IsFine q → left q < left p → Ends m (next q))
    → Ends m (parse_parameters p next)
unfolding parse_parameters
parameters-Ends A m p next h go = consume-Ends m p TokenType.symbol_lparen _ h refl (λ q fine fewer.
    elim (Bool-cases (at_type q TokenType.keyword_void)) [
      | inl a ↦ rw a (
          advance-Ends m q _ fine (at_type-real q TokenType.keyword_void a refl) (λ r fine' fewer'.
            consume-Ends m r TokenType.symbol_rparen next fine' refl
              (λ s fine₂ fewer₂. go s fine₂ (omega arith))))
      | inr a ↦ elim (Bool-cases (at_type q TokenType.symbol_rparen)) [
        | inl b ↦
            rw (a, b)
              (consume-Ends m q TokenType.symbol_rparen next fine refl
                (λ s fine₂ fewer₂. go s fine₂ (omega arith)))
        | inr b ↦ rw (a, b) (parser_error-Ends A m q fine)
      ]
    ])

function-Ends :
    (fuel : ℕ) (p : Parser)
    → IsFine p
    → left p * 3 + 4 ≤ fuel
    → Ends (left p) (parse_function_definition fuel p)
unfolding parse_function_definition
function-Ends fuel p h enough = unless_error-Ends (left p) p _ h (λ e.
    consume-Ends (left p) p TokenType.keyword_int _ h refl (λ q fine fewer.
      elim (Bool-cases (at_type q TokenType.identifier)) [
        | inr a ↦ rw a (parser_error-Ends AstNode (left p) q fine)
        | inl a ↦ rw a (
            advance-Ends (left p) q _ fine (at_type-real q TokenType.identifier a refl)
              (λ r fine' fewer'. parameters-Ends AstNode (left p) r _ fine' (λ s fine₂ fewer₂.
                with_node_or_error-Ends (left s) (left p) (parse_block fuel s) _
                  (block-Ends fuel s fine₂ (omega arith))
                  (λ n t fine₃ fewer₃. (fine₃, omega arith)))))
      ]))

program-Ends :
    (fuel : ℕ) (p : Parser)
    → IsFine p
    → left p * 3 + 4 ≤ fuel
    → Ends (left p) (parse_program fuel p)
unfolding parse_program
program-Ends fuel p h enough =
    with_node-Ends (left p) (left p) (parse_function_definition fuel p) _ (omega arith)
      (function-Ends fuel p h enough)
      (λ f q fine less. unless_error-Ends (left p) q _ fine (λ e.
        elim (Bool-cases (at_type q TokenType.eof)) [
          | inl a ↦ rw a (fine, less)
          | inr a ↦ rw a (parser_error-Ends AstNode (left p) q fine)
        ]))

init-left :
    (src : Text)
    → IsFine (parser_init (lexer_init src)) × (left (parser_init (lexer_init src)) ≤ length src + 2)
unfolding parser_init lexer_init
init-left src =
    let l = lexer_init src in
    let (same₁, within₁, _) = next_token-advances l (omega arith) in
    let l₁ = (lexer_next_token l).1 in
    let (same₂, within₂, _) = next_token-advances l₁ (rw same₁ within₁) in
    let len₁ = ap length same₁ in
    let len₂ = ap length same₂ in
    let p = parser_init l in
    let u = unread_small p.current_token in
    let v = unread_small p.peek_token in (omega arith, omega arith)

-- parse_program, on the tokens of any source text, ends with three units of fuel for each byte of the
-- source and ten more: it answers NULL or a node, and leaves the lexer within the source. Unless it
-- reports an error, the bytes that are left and the tokens in hand are fewer than at the start.
pub parse_program-Ends :
    (src : Text) (fuel : ℕ)
    → length src * 3 + 10 ≤ fuel
    → let p = parser_init (lexer_init src) in Ends (left p) (parse_program fuel p)
parse_program-Ends src fuel enough =
    let (fine, small) = init-left src in
    program-Ends fuel (parser_init (lexer_init src)) fine (omega arith)
