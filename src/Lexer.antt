-- ===== src/Lexer.antt =====
-- src/lexer/lexer.c: tokens from the bytes of a source text. `isspace`, `isalpha`, `isalnum` and
-- `isdigit` are those of the C locale. A loop that advances `pos` while a test holds is the count
-- of the bytes that pass it. Allocation of the lexemes succeeds.
pub mod Progress
pub mod Spelling
mod Tests
use cleric.Common.{
  ℕ, zero, suc, ◌+◌, ◌≤◌, ◌<◌, ◌≡◌, refl, Bool, true, false, not, ◌&&◌, ◌||◌, Option, none, some,
  List, [], ◌∷◌, ◌++◌, leb, ltb, ◌==◌, if◌then◌else◌, length, take, drop,
}
use cleric.Common.Text.{Text, codes, text_eq}
use cleric.Token.{TokenType, Token}

pub record Lexer : Type 0 where
  pub src : Text
  pub pos : ℕ

unfoldable pub is_space : ℕ → Bool
is_space c = c == 32 || (leb 9 c && leb c 13)

unfoldable pub is_digit : ℕ → Bool
is_digit c = leb b'0' c && leb c b'9'

unfoldable pub is_alpha : ℕ → Bool
is_alpha c = (leb b'A' c && leb c b'Z') || (leb b'a' c && leb c b'z')

-- The first character of an identifier, and any later one.
unfoldable pub is_word_start : ℕ → Bool
unfolding is_alpha
is_word_start c = is_alpha c || c == b'_'

unfoldable pub is_word : ℕ → Bool
unfolding is_alpha is_digit
is_word c = (is_alpha c || is_digit c) || c == b'_'

unfoldable pub count_while : (ℕ → Bool) → Text → ℕ
count_while p [] = 0
count_while p (c ∷ cs) = if p c then suc (count_while p cs) else 0

unfoldable pub is_keyword : Text → Option TokenType
is_keyword word =
    if text_eq word (codes "int")
    then some TokenType.keyword_int
    else if text_eq word (codes "void")
    then some TokenType.keyword_void
    else if text_eq word (codes "return")
    then some TokenType.keyword_return
    else none

unfoldable pub lexer_init : Text → Lexer
lexer_init src = record { src = src; pos = 0 }

unfoldable pub lexer_reset : Lexer → Lexer
lexer_reset lexer = record lexer { pos = 0 }

unfoldable pub skip_whitespace : Lexer → Lexer
unfolding is_space count_while
skip_whitespace lexer = record lexer {
  pos = lexer.pos + count_while is_space (drop lexer.pos lexer.src);
}

-- A token found at the front of the remaining text: its type and lexeme, how far from the front
-- its position is, and how many bytes are consumed.
pub record Scan : Type 0 where
  pub type : TokenType
  pub lexeme : Option Text
  pub offset : ℕ
  pub used : ℕ

abbrev pub plain : TokenType → ℕ → Scan
plain type used = record { type = type; lexeme = none; offset = 0; used = used }

-- Identifiers and keywords.
unfoldable pub scan_word : ℕ → Text → Scan
unfolding is_keyword is_word count_while
scan_word c cs =
    let id_len = suc (count_while is_word cs) in
    let word = take id_len (c ∷ cs) in
    elim (is_keyword word) [
      | some type ↦ plain type id_len
      | none ↦ record { type = TokenType.identifier; lexeme = some word; offset = 0; used = id_len }
    ]

-- What stands behind the digits of a constant.
unfoldable pub bad_suffix : Text → Option ℕ
unfolding is_word_start
bad_suffix [] = none
bad_suffix (c ∷ cs) = if is_word_start c then some c else none

-- Integer constants; a letter or underscore behind the digits gives an unknown token.
unfoldable pub scan_number : ℕ → Text → Scan
unfolding is_digit count_while bad_suffix
scan_number c cs =
    let const_len = suc (count_while is_digit cs) in
    elim (bad_suffix (drop const_len (c ∷ cs))) [
      | some bad_char ↦ record {
        type = TokenType.unknown;
        lexeme = some (bad_char ∷ []);
        offset = const_len;
        used = suc const_len;
      }
      | none ↦ record {
        type = TokenType.constant;
        lexeme = some (take const_len (c ∷ cs));
        offset = 0;
        used = const_len;
      }
    ]

unfoldable pub next_is : ℕ → Text → Bool
next_is c [] = false
next_is c (d ∷ ds) = d == c

-- The switch over symbols: the token's type and length, `none` for an unrecognized character.
unfoldable pub symbol_type : ℕ → Text → Option (TokenType × ℕ)
unfolding next_is
symbol_type c cs =
    if c == b'('
    then some (TokenType.symbol_lparen, 1)
    else if c == b')'
    then some (TokenType.symbol_rparen, 1)
    else if c == b'{'
    then some (TokenType.symbol_lbrace, 1)
    else if c == b'}'
    then some (TokenType.symbol_rbrace, 1)
    else if c == b';'
    then some (TokenType.symbol_semicolon, 1)
    else if c == b'~'
    then some (TokenType.symbol_tilde, 1)
    else if c == b'-'
    then (if next_is b'-' cs
        then some (TokenType.symbol_decrement, 2)
        else some (TokenType.symbol_minus, 1))
    else if c == b'+'
    then some (TokenType.symbol_plus, 1)
    else if c == b'*'
    then some (TokenType.symbol_star, 1)
    else if c == b'/'
    then some (TokenType.symbol_slash, 1)
    else if c == b'%'
    then some (TokenType.symbol_percent, 1)
    else if c == b'<'
    then (if next_is b'=' cs
        then some (TokenType.symbol_less_equal, 2)
        else some (TokenType.symbol_less, 1))
    else if c == b'>'
    then (if next_is b'=' cs
        then some (TokenType.symbol_greater_equal, 2)
        else some (TokenType.symbol_greater, 1))
    else if c == b'='
    then (if next_is b'=' cs
        then some (TokenType.symbol_equal_equal, 2)
        else some (TokenType.symbol_assign, 1))
    else if c == b'!'
    then (if next_is b'=' cs
        then some (TokenType.symbol_not_equal, 2)
        else some (TokenType.symbol_bang, 1))
    else if c == b'&'
    then (if next_is b'&' cs then some (TokenType.symbol_logical_and, 2) else none)
    else if c == b'|'
    then (if next_is b'|' cs then some (TokenType.symbol_logical_or, 2) else none)
    else none

unfoldable pub scan_symbol : ℕ → Text → Scan
unfolding symbol_type
scan_symbol c cs = elim (symbol_type c cs) [
  | some (type, used) ↦ plain type used
  | none ↦ record { type = TokenType.unknown; lexeme = some (c ∷ []); offset = 0; used = 1 }
]

-- The token at the front of a text that does not begin with whitespace.
unfoldable pub scan : Text → Scan
unfolding is_word_start is_digit
scan [] = plain TokenType.eof 0
scan (c ∷ cs) =
    if is_word_start c
    then scan_word c cs
    else if is_digit c
    then scan_number c cs
    else scan_symbol c cs

unfoldable pub lexer_next_token : Lexer → Token × Lexer
unfolding skip_whitespace
lexer_next_token lexer =
    let at_token = skip_whitespace lexer in
    let s = scan (drop at_token.pos at_token.src) in
    (
      record { type = s.type; lexeme = s.lexeme; position = at_token.pos + s.offset },
      record at_token { pos = at_token.pos + s.used },
    )
