-- ===== src/Parser/Measure.antt =====
-- Every token that the parser of src/parser/parser.c takes brings it nearer to the end: a measure
-- of what is left, and how the helpers of the grammar's functions act on it.
use mathlib.Core.Bool.{true≢false}
use cleric.Common.{
  ℕ, ◌+◌, ◌-◌, ◌≤◌, ◌<◌, ◌≡◌, refl, ap, sym, ◌∙◌, Bool, true, false, not, ◌||◌, arith,
  if◌then◌else◌, Bool-cases, inl, inr, ◌⊎◌, length, ◌==◌, ==_iff,
}
use cleric.Token.{TokenType, Token}
use cleric.Lexer.{lexer_next_token}
use cleric.Lexer.Progress.{is_eof, next_token-advances}
use cleric.Parser.{
  Parser, Parsed, out_of_fuel, null_result, parsed, type_number, same_type, parser_error,
  parser_advance, parser_consume,
}
use cleric.Parser.Grammar.{
  go_if, at_type, unless_error, advance, consume, with_node, with_node_or_error,
}

abbrev unread : Token → ℕ
unread t = if is_eof t.type then 0 else 1

-- The bytes that are left, and the tokens in the parser's hand.
abbrev pub left : Parser → ℕ
left p = length p.lexer.src - p.lexer.pos + unread p.current_token + unread p.peek_token

abbrev pub IsFine : Parser → Type 0
IsFine p = p.lexer.pos ≤ length p.lexer.src

-- The function answered, and left less than `m`, unless with an error.
abbrev pub Ends : {A : Type 0} → ℕ → Parsed A → Type 0
Ends m out_of_fuel = ⊥
Ends m (null_result p) = IsFine p × ((p.error_flag ≡ true) ⊎ (left p < m))
Ends m (parsed n p) = IsFine p × (left p < m)

eof-number : (t : TokenType) → is_eof t ≡ (type_number t == 27)
unfolding type_number
eof-number TokenType.eof = refl
eof-number _ = refl

same_type-eof : (a b : TokenType) → same_type a b ≡ true → is_eof a ≡ is_eof b
unfolding same_type
same_type-eof a b h =
    let e : type_number a ≡ type_number b = (==_iff (type_number a) (type_number b)).0 h in
    eof-number a ∙ ap (λ n. n == 27) e ∙ sym (eof-number b)

-- Taking a token type that is not the end's.
pub at_type-real :
    (p : Parser) (type : TokenType)
    → at_type p type ≡ true
    → is_eof type ≡ false
    → is_eof p.current_token.type ≡ false
at_type-real p type h real = same_type-eof p.current_token.type type h ∙ real

-- The parser behind a token.
abbrev advanced : Parser → Parser
advanced p =
    let (peek, lexer) = lexer_next_token p.lexer in
    record {
      lexer = lexer;
      current_token = p.peek_token;
      peek_token = peek;
      error_flag = p.error_flag || same_type peek.type TokenType.unknown;
    }

parser_advance-advanced :
    (p : Parser) → is_eof p.current_token.type ≡ false → parser_advance p ≡ advanced p
unfolding parser_advance same_type type_number
parser_advance-advanced p real =
    let other : (type_number p.current_token.type == 27) ≡ false =
      sym (eof-number p.current_token.type) ∙ real in
    rw other refl

unread_eof : (t : Token) → is_eof t.type ≡ true → unread t ≡ 0
unread_eof t e = rw e refl

unread_real : (t : Token) → is_eof t.type ≡ false → unread t ≡ 1
unread_real t e = rw e refl

advanced-left :
    (p : Parser)
    → IsFine p
    → is_eof p.current_token.type ≡ false
    → IsFine (advanced p) × (left (advanced p) < left p)
advanced-left p h real =
    let (same, within, ends) = next_token-advances p.lexer h in
    let t' = (lexer_next_token p.lexer).0 in
    let len = ap length same in
    let one = unread_real p.current_token real in
    elim ends [
      | inl (e, at, end) ↦ let u = unread_eof t' e in (omega arith, omega arith)
      | inr (e, at, grows) ↦ let u = unread_real t' e in (omega arith, omega arith)
    ]

pub advance-left :
    (p : Parser)
    → IsFine p
    → is_eof p.current_token.type ≡ false
    → IsFine (parser_advance p) × (left (parser_advance p) < left p)
advance-left p h real = rw (parser_advance-advanced p real) (advanced-left p h real)

pub parser_error-Ends :
    (A : Type 0) (m : ℕ) (p : Parser)
    → IsFine p
    → let r : Parsed A = null_result (parser_error p) in Ends m r
unfolding parser_error
parser_error-Ends A m p h = (h, inl refl)

go_if-Ends :
    {A : Type 0} (m : ℕ) (b : Bool) (p : Parser) (next : Parser → Parsed A)
    → IsFine p
    → (b ≡ false → p.error_flag ≡ true)
    → (b ≡ true → Ends m (next p))
    → Ends m (go_if b p next)
go_if-Ends m true p next h stop go = go refl
go_if-Ends m false p next h stop go = (h, inl (stop refl))

not-false : (b : Bool) → not b ≡ false → b ≡ true
not-false true h = refl
not-false false h = cc

not-true : (b : Bool) → not b ≡ true → b ≡ false
not-true true h = cc
not-true false h = refl

pub unless_error-Ends :
    {A : Type 0} (m : ℕ) (p : Parser) (next : Parser → Parsed A)
    → IsFine p
    → (p.error_flag ≡ false → Ends m (next p))
    → Ends m (unless_error p next)
unless_error-Ends m p next h go =
    go_if-Ends m (not p.error_flag) p next h (not-false p.error_flag)
      (λ e. go (not-true p.error_flag e))

pub advance-Ends :
    {A : Type 0} (m : ℕ) (p : Parser) (next : Parser → Parsed A)
    → IsFine p
    → is_eof p.current_token.type ≡ false
    → ((q : Parser) → IsFine q → left q < left p → Ends m (next q))
    → Ends m (advance p next)
advance-Ends m p next h real go =
    let (fine, less) = advance-left p h real in
    unless_error-Ends m (parser_advance p) next fine (λ e. go (parser_advance p) fine less)

consume-cases :
    (p : Parser) (type : TokenType)
    → IsFine p
    → is_eof type ≡ false
    → let (done, q) = parser_consume p type in
      IsFine q × (((done ≡ true) × (left q < left p)) ⊎ ((done ≡ false) × (q.error_flag ≡ true)))
unfolding parser_consume parser_error
consume-cases p type h real = elim (Bool-cases (same_type p.current_token.type type)) [
  | inr e ↦ rw e (h, inr (refl, refl))
  | inl e ↦
      let (fine, less) = advance-left p h (same_type-eof p.current_token.type type e ∙ real) in
      elim (Bool-cases (parser_advance p).error_flag) [
        | inl f ↦ rw e (fine, inr (ap not f, f))
        | inr f ↦ rw e (fine, inl (ap not f, less))
      ]
]

pub consume-Ends :
    {A : Type 0} (m : ℕ) (p : Parser) (type : TokenType) (next : Parser → Parsed A)
    → IsFine p
    → is_eof type ≡ false
    → ((q : Parser) → IsFine q → left q < left p → Ends m (next q))
    → Ends m (consume p type next)
consume-Ends m p type next h real go =
    let (fine, ends) = consume-cases p type h real in
    let (done, q) = parser_consume p type in
    elim ends [
      | inl (e, less) ↦
          go_if-Ends m done q next fine (λ f. absurd (true≢false (sym e ∙ f))) (λ f. go q fine less)
      | inr (e, error) ↦
          go_if-Ends m done q next fine (λ f. error) (λ f. absurd (true≢false (sym f ∙ e)))
    ]

pub with_node-Ends :
    {A B : Type 0} (k m : ℕ) (r : Parsed A) (next : A → Parser → Parsed B)
    → k ≤ m
    → Ends k r
    → ((n : A) (q : Parser) → IsFine q → left q < k → Ends m (next n q))
    → Ends m (with_node r next)
with_node-Ends k m out_of_fuel next le h go = absurd h
with_node-Ends k m (null_result p) next le (fine, inl e) go = (fine, inl e)
with_node-Ends k m (null_result p) next le (fine, inr less) go = (fine, inr (omega arith))
with_node-Ends k m (parsed n p) next le (fine, less) go = go n p fine less

pub with_node_or_error-Ends :
    {A B : Type 0} (k m : ℕ) (r : Parsed A) (next : A → Parser → Parsed B)
    → Ends k r
    → ((n : A) (q : Parser) → IsFine q → left q < k → Ends m (next n q))
    → Ends m (with_node_or_error r next)
unfolding parser_error
with_node_or_error-Ends k m out_of_fuel next h go = absurd h
with_node_or_error-Ends k m (null_result p) next (fine, e) go = (fine, inl refl)
with_node_or_error-Ends k m (parsed n p) next (fine, less) go = go n p fine less

pub unread_small : (t : Token) → unread t ≤ 1
unread_small t = elim (Bool-cases (is_eof t.type)) [
  | inl e ↦ rw (unread_eof t e) (omega arith)
  | inr e ↦ rw (unread_real t e) (omega arith)
]
