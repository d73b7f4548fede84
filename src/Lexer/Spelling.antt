-- ===== src/Lexer/Spelling.antt =====
-- How each token is spelled, described apart from the lexer of src/lexer/lexer.c, and that the lexer
-- reads back a spelling that a blank follows.
use cleric.Common.{
  ℕ, suc, ◌+◌, ◌≡◌, refl, ap, sym, ◌∙◌, Bool, true, false, Option, none, some, List, [], ◌∷◌, ◌++◌,
  arith, length, take, drop, drop-drop, All,
}
use cleric.Common.Text.{Text, codes, text_eq}
use cleric.Token.{TokenType, Token}
use cleric.Lexer.{
  Lexer, skip_whitespace, lexer_next_token, plain, is_space, is_digit, is_alpha, is_word_start,
  is_word, count_while, is_keyword, scan_word, bad_suffix, scan_number, next_is, symbol_type,
  scan_symbol, scan,
}

abbrev fixed : TokenType → Text
fixed TokenType.keyword_int = codes "int"
fixed TokenType.keyword_void = codes "void"
fixed TokenType.keyword_return = codes "return"
fixed TokenType.symbol_lparen = codes "("
fixed TokenType.symbol_rparen = codes ")"
fixed TokenType.symbol_lbrace = codes "{"
fixed TokenType.symbol_rbrace = codes "}"
fixed TokenType.symbol_semicolon = codes ";"
fixed TokenType.symbol_tilde = codes "~"
fixed TokenType.symbol_minus = codes "-"
fixed TokenType.symbol_plus = codes "+"
fixed TokenType.symbol_star = codes "*"
fixed TokenType.symbol_slash = codes "/"
fixed TokenType.symbol_percent = codes "%"
fixed TokenType.symbol_less = codes "<"
fixed TokenType.symbol_greater = codes ">"
fixed TokenType.symbol_less_equal = codes "<="
fixed TokenType.symbol_greater_equal = codes ">="
fixed TokenType.symbol_equal_equal = codes "=="
fixed TokenType.symbol_not_equal = codes "!="
fixed TokenType.symbol_logical_and = codes "&&"
fixed TokenType.symbol_logical_or = codes "||"
fixed TokenType.symbol_bang = codes "!"
fixed TokenType.symbol_assign = codes "="
fixed TokenType.symbol_decrement = codes "--"
fixed _ = []

-- The text of a token: its lexeme if it has one, else the text that its type fixes.
abbrev pub spelling : Token → Text
spelling t = elim t.lexeme [ some w ↦ w | none ↦ fixed t.type ]

abbrev IsIdentifier : Text → Type 0
IsIdentifier [] = ⊥
IsIdentifier (c ∷ cs) =
    (is_word_start c ≡ true) × All (λ d. is_word d ≡ true) cs × (is_keyword (c ∷ cs) ≡ none)

abbrev IsConstant : Text → Type 0
IsConstant [] = ⊥
IsConstant (c ∷ cs) = (is_digit c ≡ true) × All (λ d. is_digit d ≡ true) cs

-- A token of the language: an identifier that is no keyword, a run of digits, or a keyword or symbol
-- without a lexeme.
abbrev pub IsSpelled : TokenType → Option Text → Type 0
IsSpelled TokenType.identifier none = ⊥
IsSpelled TokenType.identifier (some w) = IsIdentifier w
IsSpelled TokenType.constant none = ⊥
IsSpelled TokenType.constant (some w) = IsConstant w
IsSpelled TokenType.eof _ = ⊥
IsSpelled TokenType.unknown _ = ⊥
IsSpelled _ none = Unit
IsSpelled _ (some w) = ⊥

-- A prefix that passes the test, in front of a byte that does not, is what is counted.
count_while-append :
    (p : ℕ → Bool) (cs : Text) (d : ℕ) (rest : Text)
    → All (λ c. p c ≡ true) cs
    → p d ≡ false
    → count_while p (cs ++ d ∷ rest) ≡ length cs
unfolding count_while
count_while-append p [] d rest h e = rw e
count_while-append p (c ∷ cs) d rest h e = rw (h.0) (ap suc (count_while-append p cs d rest h.1 e))

take-append : (cs ds : Text) → take (length cs) (cs ++ ds) ≡ cs
take-append [] ds = refl
take-append (c ∷ cs) ds = ap (λ r. c ∷ r) (take-append cs ds)

drop-append : (cs ds : Text) → drop (length cs) (cs ++ ds) ≡ ds
drop-append [] ds = refl
drop-append (c ∷ cs) ds = drop-append cs ds

scan_word-spelled :
    (c : ℕ) (cs rest : Text)
    → All (λ d. is_word d ≡ true) cs
    → is_keyword (c ∷ cs) ≡ none
    → scan_word c (cs ++ 32 ∷ rest) ≡ record {
      type = TokenType.identifier;
      lexeme = some (c ∷ cs);
      offset = 0;
      used = length (c ∷ cs);
    }
unfolding scan_word
scan_word-spelled c cs rest h k =
    let len = count_while-append is_word cs 32 rest h refl in
    let front : take (count_while is_word (cs ++ 32 ∷ rest)) (cs ++ 32 ∷ rest) ≡ cs =
      rw len (take-append cs (32 ∷ rest)) in
    rw (scan_word, front, k, front, len)

scan_number-spelled :
    (c : ℕ) (cs rest : Text)
    → All (λ d. is_digit d ≡ true) cs
    → scan_number c (cs ++ 32 ∷ rest) ≡ record {
      type = TokenType.constant;
      lexeme = some (c ∷ cs);
      offset = 0;
      used = length (c ∷ cs);
    }
unfolding scan_number bad_suffix
scan_number-spelled c cs rest h =
    let len = count_while-append is_digit cs 32 rest h refl in
    let front : take (count_while is_digit (cs ++ 32 ∷ rest)) (cs ++ 32 ∷ rest) ≡ cs =
      rw len (take-append cs (32 ∷ rest)) in
    let back : drop (count_while is_digit (cs ++ 32 ∷ rest)) (cs ++ 32 ∷ rest) ≡ 32 ∷ rest =
      rw len (drop-append cs (32 ∷ rest)) in
    rw (scan_number, back, front, len)

digit-no_word : (c : ℕ) → is_digit c ≡ true → is_word_start c ≡ false
unfolding is_digit is_word_start is_alpha
digit-no_word c h = ground arith

scan-fixed :
    (type : TokenType) (rest : Text)
    → IsSpelled type none
    → scan (fixed type ++ 32 ∷ rest) ≡ plain type (length (fixed type))
unfolding scan is_word_start is_digit is_alpha scan_word count_while is_word is_keyword text_eq
    scan_symbol symbol_type next_is
scan-fixed TokenType.identifier rest h = absurd h
scan-fixed TokenType.constant rest h = absurd h
scan-fixed TokenType.eof rest h = absurd h
scan-fixed TokenType.unknown rest h = absurd h
scan-fixed _ rest h = refl

pub scan-spelled :
    (type : TokenType) (lexeme : Option Text) (position : ℕ) (rest : Text)
    → IsSpelled type lexeme
    → let t : Token = record { type = type; lexeme = lexeme; position = position } in
      scan (spelling t ++ 32 ∷ rest)
      ≡ record { type = type; lexeme = lexeme; offset = 0; used = length (spelling t) }
unfolding scan
scan-spelled TokenType.identifier none position rest h = absurd h
scan-spelled TokenType.identifier (some []) position rest h = absurd h
scan-spelled TokenType.identifier (some (c ∷ cs)) position rest (start, word, other) =
    rw start (scan_word-spelled c cs rest word other)
scan-spelled TokenType.constant none position rest h = absurd h
scan-spelled TokenType.constant (some []) position rest h = absurd h
scan-spelled TokenType.constant (some (c ∷ cs)) position rest (start, digits) =
    rw (digit-no_word c start, start) (scan_number-spelled c cs rest digits)
scan-spelled TokenType.eof _ position rest h = absurd h
scan-spelled TokenType.unknown _ position rest h = absurd h
scan-spelled type none position rest h = scan-fixed type rest h
scan-spelled _ (some w) position rest h = absurd h

-- The texts of tokens, a blank behind each.
abbrev pub spaced : List Token → Text
spaced [] = []
spaced (t ∷ ts) = spelling t ++ 32 ∷ spaced ts

start-no_space : (c : ℕ) → is_word_start c ≡ true → is_space c ≡ false
unfolding is_word_start is_alpha is_space
start-no_space c h = ground arith

digit-no_space : (c : ℕ) → is_digit c ≡ true → is_space c ≡ false
unfolding is_digit is_space
digit-no_space c h = ground arith

-- No spelling begins with a blank.
fixed-no_space :
    (type : TokenType) (rest : Text)
    → IsSpelled type none
    → count_while is_space (fixed type ++ 32 ∷ rest) ≡ 0
unfolding count_while is_space
fixed-no_space TokenType.identifier rest h = absurd h
fixed-no_space TokenType.constant rest h = absurd h
fixed-no_space TokenType.eof rest h = absurd h
fixed-no_space TokenType.unknown rest h = absurd h
fixed-no_space _ rest h = refl

spelled-no_space :
    (type : TokenType) (lexeme : Option Text) (position : ℕ) (rest : Text)
    → IsSpelled type lexeme
    → let t : Token = record { type = type; lexeme = lexeme; position = position } in
      count_while is_space (spelling t ++ 32 ∷ rest) ≡ 0
unfolding count_while
spelled-no_space TokenType.identifier (some []) position rest h = absurd h
spelled-no_space TokenType.identifier (some (c ∷ cs)) position rest h = rw (start-no_space c h.0)
spelled-no_space TokenType.constant (some []) position rest h = absurd h
spelled-no_space TokenType.constant (some (c ∷ cs)) position rest h = rw (digit-no_space c h.0)
spelled-no_space TokenType.eof _ position rest h = absurd h
spelled-no_space TokenType.unknown _ position rest h = absurd h
spelled-no_space type none position rest h = fixed-no_space type rest h
spelled-no_space _ (some w) position rest h = absurd h

-- The lexer in front of a blank and a spelled token reads that token and stops at the blank behind.
module _ (l : Lexer) (t : Token) (rest : Text) (h : IsSpelled t.type t.lexeme)
    (front : drop l.pos l.src ≡ 32 ∷ (spelling t ++ 32 ∷ rest)) where
  blank : count_while is_space (drop l.pos l.src) ≡ 1
  unfolding count_while is_space
  blank = rw front (ap suc (spelled-no_space t.type t.lexeme t.position rest h))

  behind : drop (l.pos + 1) l.src ≡ spelling t ++ 32 ∷ rest
  behind = sym (drop-drop l.pos 1 l.src) ∙ ap (drop 1) front

  pub next_token-spelled :
      let (t', l') = lexer_next_token l in
      (t'.type ≡ t.type) × (t'.lexeme ≡ t.lexeme) × (drop l'.pos l'.src ≡ 32 ∷ rest)
  unfolding lexer_next_token skip_whitespace
  next_token-spelled =
      let found = scan-spelled t.type t.lexeme t.position rest h in
      rw (blank, behind, found)
        (
          refl,
          refl,
          sym (drop-drop (l.pos + 1) (length (spelling t)) l.src)
              ∙ ap (drop (length (spelling t))) behind
              ∙ drop-append (spelling t) (32 ∷ rest),
        )

-- In front of a last blank the lexer finds the end.
pub next_token-blank :
    (l : Lexer) → drop l.pos l.src ≡ 32 ∷ [] → (lexer_next_token l).0.type ≡ TokenType.eof
unfolding lexer_next_token skip_whitespace scan count_while is_space
next_token-blank l front =
    let one : count_while is_space (drop l.pos l.src) ≡ 1 = rw front in
    let end : drop (l.pos + 1) l.src ≡ [] = sym (drop-drop l.pos 1 l.src) ∙ ap (drop 1) front in
    rw (one, end)
