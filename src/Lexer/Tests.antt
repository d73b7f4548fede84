-- ===== src/Lexer/Tests.antt =====
-- The theorems on src/lexer/lexer.c at a concrete source.
use cleric.Common.{◌+◌, ◌≤◌, ◌<◌, ◌≡◌, ◌⊎◌, refl, true, false, some, length, take, drop, arith}
use cleric.Common.Text.{codes, text_eq}
use cleric.Lexer.{
  Lexer, lexer_next_token, skip_whitespace, is_space, count_while, scan, is_word_start, is_alpha,
  scan_word, is_word, is_digit, is_keyword,
}
use cleric.Lexer.Progress.{is_eof, next_token-advances, next_token-lexeme}

-- Behind the `return` of "return n1;".
abbrev a_lexer : Lexer
a_lexer = record { src = codes "return n1;"; pos = 6 }

a_lexer-within : a_lexer.pos ≤ length a_lexer.src
a_lexer-within = omega arith

next_token-advances_example :
    let (t, l') = lexer_next_token a_lexer in
    (l'.src ≡ a_lexer.src)
    × (l'.pos ≤ length a_lexer.src)
    × (((is_eof t.type ≡ true) × (t.position ≡ length a_lexer.src) × (l'.pos ≡ length a_lexer.src))
        ⊎ ((is_eof t.type ≡ false) × (a_lexer.pos ≤ t.position) × (t.position < l'.pos)))
next_token-advances_example = next_token-advances a_lexer a_lexer-within

a_lexeme : (lexer_next_token a_lexer).0.lexeme ≡ some (codes "n1")
unfolding lexer_next_token skip_whitespace is_space count_while scan is_word_start is_alpha
    scan_word is_word is_digit is_keyword text_eq
a_lexeme = refl

next_token-lexeme_example :
    let (t, l') = lexer_next_token a_lexer in
    (t.position + length (codes "n1") ≡ l'.pos)
    × (take (length (codes "n1")) (drop t.position a_lexer.src) ≡ codes "n1")
next_token-lexeme_example = next_token-lexeme a_lexer a_lexer-within (codes "n1") a_lexeme
