-- ===== src/Compiler/Lexing.antt =====
-- run_lexer of src/compiler/compiler.c: its loop ends.
use cleric.Common.{
  ℕ, zero, suc, ◌-◌, ◌≤◌, ◌<◌, ◌≡◌, refl, ap, ◌∙◌, Bool, true, Option, some, List, [], ◌∷◌, arith,
  length, inl, inr, drop, map, All,
}
use cleric.Common.Text.{Text}
use cleric.Token.{TokenType, Token, token_to_string}
use cleric.Lexer.{Lexer, lexer_next_token}
use cleric.Lexer.Progress.{is_eof, next_token-advances}
use cleric.Lexer.Spelling.{IsSpelled, spaced, next_token-spelled, next_token-blank}
use cleric.Compiler.{token_line, Lexed, print_before, after_token, run_lexer}

after_eof :
    (k : TokenType) (p : Bool) (t : Token) (l : Lexer) (rest : Option Lexed)
    → is_eof k ≡ true
    → (r : Lexed) × (after_token k p t l rest ≡ some r)
after_eof TokenType.eof p t l rest e = (_, refl)
after_eof _ p t l rest e = cc

after_some :
    (k : TokenType) (p : Bool) (t : Token) (l : Lexer) (q : Lexed)
    → (r : Lexed) × (after_token k p t l (some q) ≡ some r)
after_some TokenType.eof p t l q = (_, refl)
after_some TokenType.unknown p t l q = (_, refl)
after_some _ p t l q = (_, refl)

-- run_lexer ends from every position within the source: as many passes as there are bytes left, and
-- one more, are enough.
pub run_lexer-ends :
    (fuel : ℕ) (print_tokens : Bool) (l : Lexer)
    → l.pos ≤ length l.src
    → length l.src - l.pos < fuel
    → (r : Lexed) × (run_lexer fuel print_tokens l ≡ some r)
unfolding run_lexer
run_lexer-ends zero p l h enough = absurd (omega arith)
run_lexer-ends (suc fuel) p l h enough =
    let (same, within, ends) = next_token-advances l h in
    let (t, l') = lexer_next_token l in
    elim ends [
      | inl (e, _, _) ↦ after_eof t.type p t l' (run_lexer fuel p l') e
      | inr (_, behind, grows) ↦
          let total = run_lexer-ends fuel p l' (rw same within) (rw same (omega arith)) in
          rw (total.1) (after_some t.type p t l' total.0)
    ]

after_spelled :
    (k : TokenType) (lexeme : Option Text) (p : Bool) (t : Token) (l : Lexer) (rest : Option Lexed)
    → IsSpelled k lexeme
    → after_token k p t l rest ≡ print_before p t rest
after_spelled TokenType.eof lexeme p t l rest h = absurd h
after_spelled TokenType.unknown lexeme p t l rest h = absurd h
after_spelled _ lexeme p t l rest h = refl

pass :
    (fuel : ℕ) (p : Bool) (l : Lexer)
    → let (t', l') = lexer_next_token l in
      run_lexer (suc fuel) p l ≡ after_token t'.type p t' l' (run_lexer fuel p l')
unfolding run_lexer
pass fuel p l = refl

-- The printed line has the type and the lexeme of a token, and not its position.
same_line : (t t' : Token) → t'.type ≡ t.type → t'.lexeme ≡ t.lexeme → token_line t' ≡ token_line t
unfolding token_line token_to_string
same_line t t' e f =
    let line : TokenType → Option Text → Text =
      λ k w. token_line (record { type = k; lexeme = w; position = 0 }) in
    ap (λ k. line k t'.lexeme) e ∙ ap (line t.type) f

-- Where what is left of the source is a blank and then the texts of tokens of the language, each
-- with a blank behind, run_lexer succeeds, and prints the line of each of those tokens in order.
pub run_lexer-spaced :
    (ts : List Token) (fuel : ℕ) (l : Lexer)
    → All (λ t. IsSpelled t.type t.lexeme) ts
    → drop l.pos l.src ≡ 32 ∷ spaced ts
    → length ts < fuel
    → (l' : Lexer) × (run_lexer fuel true l
        ≡ some (record { success = true; lines = map token_line ts; lexer = l' }))
run_lexer-spaced ts zero l h front enough = absurd (omega arith)
run_lexer-spaced [] (suc fuel) l h front enough =
    let (t', l') = lexer_next_token l in
    (
      l',
      pass fuel true l
          ∙ ap (λ k. after_token k true t' l' (run_lexer fuel true l')) (next_token-blank l front),
    )
run_lexer-spaced (t ∷ ts) (suc fuel) l h front enough =
    let (type, lexeme, left) = next_token-spelled l t (spaced ts) h.0 front in
    let (t', l₁) = lexer_next_token l in
    let (l', rest) = run_lexer-spaced ts fuel l₁ h.1 left (omega arith) in
    (
      l',
      pass fuel true l
          ∙ ap (λ k. after_token k true t' l₁ (run_lexer fuel true l₁)) type
          ∙ after_spelled t.type t.lexeme true t' l₁ (run_lexer fuel true l₁) h.0
          ∙ ap (print_before true t') rest
          ∙ ap (λ w. some (record { success = true; lines = w ∷ map token_line ts; lexer = l' }))
              (same_line t t' type lexeme),
    )
