-- ===== src/Token.antt =====
-- The tokens of src/lexer/lexer.h, and their printed form (src/lexer/lexer.c). `lexeme` is `none` where the source has
-- NULL.
use cleric.Common.{ℕ, ◌-◌, ◌++◌, Bool, true, false, Option, some, take}
use cleric.Common.Text.{Text, codes}

pub data TokenType : Type 0 where
  identifier constant keyword_int keyword_void keyword_return : TokenType
  symbol_lparen symbol_rparen symbol_lbrace symbol_rbrace symbol_semicolon : TokenType
  symbol_tilde symbol_minus symbol_plus symbol_star symbol_slash symbol_percent : TokenType
  symbol_less symbol_greater symbol_less_equal symbol_greater_equal : TokenType
  symbol_equal_equal symbol_not_equal symbol_logical_and symbol_logical_or : TokenType
  symbol_bang symbol_assign symbol_decrement eof unknown : TokenType

pub record Token : Type 0 where
  pub type : TokenType
  pub lexeme : Option Text
  pub position : ℕ

-- The name of a token's type, and whether its lexeme is shown.
unfoldable pub type_name : TokenType → Text × Bool
type_name TokenType.keyword_int = (codes "INT", false)
type_name TokenType.keyword_void = (codes "VOID", false)
type_name TokenType.keyword_return = (codes "RETURN", false)
type_name TokenType.identifier = (codes "IDENTIFIER", true)
type_name TokenType.constant = (codes "CONSTANT", true)
type_name TokenType.symbol_lparen = (codes "'('", false)
type_name TokenType.symbol_rparen = (codes "')'", false)
type_name TokenType.symbol_lbrace = (codes "'{'", false)
type_name TokenType.symbol_rbrace = (codes "'}'", false)
type_name TokenType.symbol_semicolon = (codes "';'", false)
type_name TokenType.symbol_tilde = (codes "'~'", false)
type_name TokenType.symbol_minus = (codes "'-'", false)
type_name TokenType.symbol_decrement = (codes "'--'", false)
type_name TokenType.symbol_plus = (codes "'+'", false)
type_name TokenType.symbol_star = (codes "'*'", false)
type_name TokenType.symbol_slash = (codes "'/'", false)
type_name TokenType.symbol_percent = (codes "'%'", false)
type_name TokenType.symbol_less = (codes "'<'", false)
type_name TokenType.symbol_greater = (codes "'>'", false)
type_name TokenType.symbol_less_equal = (codes "'<='", false)
type_name TokenType.symbol_greater_equal = (codes "'>='", false)
type_name TokenType.symbol_equal_equal = (codes "'=='", false)
type_name TokenType.symbol_not_equal = (codes "'!='", false)
type_name TokenType.symbol_logical_and = (codes "'&&'", false)
type_name TokenType.symbol_logical_or = (codes "'||'", false)
type_name TokenType.symbol_bang = (codes "'!'", false)
type_name TokenType.symbol_assign = (codes "'='", false)
type_name TokenType.eof = (codes "EOF", false)
type_name TokenType.unknown = (codes "UNKNOWN", true)

abbrev pub shown : Text → Bool → Option Text → Text
shown type_str true (some lexeme) = type_str ++ codes "('" ++ lexeme ++ codes "')"
shown type_str _ _ = type_str

-- What token_to_string leaves in a buffer of `buffer_size` bytes, without the terminating NUL.
unfoldable pub token_to_string : Token → ℕ → Text
unfolding type_name
token_to_string token buffer_size =
    let (type_str, has_lexeme) = type_name token.type in
    take (buffer_size - 1) (shown type_str has_lexeme token.lexeme)
