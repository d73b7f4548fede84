-- ===== src/Compiler/Repeats.antt =====
-- What run_lexer of src/compiler/compiler.c leaves for the parser, whether it prints or not.
use cleric.Common.{
  ℕ, zero, suc, ◌≤◌, ◌≡◌, refl, ◌∙◌, sym, ap, Bool, true, false, Option, none, some, length, arith,
}
use cleric.Common.Text.{Text}
use cleric.Token.{TokenType, Token}
use cleric.Lexer.{Lexer, lexer_init, lexer_reset, lexer_next_token}
use cleric.Lexer.Progress.{next_token-advances}
use cleric.Compiler.{Lexed, run_lexer, after_token, print_before, print_line}

-- What does not depend on the printing of tokens.
abbrev pub SameRun : Option Lexed → Option Lexed → Type 0
SameRun none none = Unit
SameRun (some r) (some q) = (r.success ≡ q.success) × (r.lexer ≡ q.lexer)
SameRun _ _ = ⊥

print_line-same :
    (p : Bool) (t : Token) (r : Lexed)
    → ((print_line p t r).success ≡ r.success) × ((print_line p t r).lexer ≡ r.lexer)
print_line-same true t r = (refl, refl)
print_line-same false t r = (refl, refl)

before-SameRun :
    (p q : Bool) (t : Token) (a b : Option Lexed)
    → SameRun a b
    → SameRun (print_before p t a) (print_before q t b)
before-SameRun p q t none none h = tt
before-SameRun p q t (some a) (some b) (e, f) =
    let x = print_line-same p t a in
    let y = print_line-same q t b in (x.0 ∙ e ∙ sym y.0, x.1 ∙ f ∙ sym y.1)
before-SameRun p q t none (some b) h = absurd h
before-SameRun p q t (some a) none h = absurd h

after-SameRun :
    (k : TokenType) (p q : Bool) (t : Token) (l : Lexer) (a b : Option Lexed)
    → SameRun a b
    → SameRun (after_token k p t l a) (after_token k q t l b)
after-SameRun TokenType.eof p q t l a b h = (refl, refl)
after-SameRun TokenType.unknown p q t l a b h = (refl, refl)
after-SameRun _ p q t l a b h = before-SameRun p q t a b h

pub run_lexer-SameRun :
    (fuel : ℕ) (p q : Bool) (l : Lexer) → SameRun (run_lexer fuel p l) (run_lexer fuel q l)
unfolding run_lexer
run_lexer-SameRun zero p q l = tt
run_lexer-SameRun (suc fuel) p q l =
    let (t, l') = lexer_next_token l in
    after-SameRun t.type p q t l' (run_lexer fuel p l') (run_lexer fuel q l')
      (run_lexer-SameRun fuel p q l')

-- The source is the same behind the loop.
abbrev Keeps : Text → Option Lexed → Type 0
Keeps src none = Unit
Keeps src (some r) = r.lexer.src ≡ src

after-Keeps :
    (k : TokenType) (p : Bool) (t : Token) (l : Lexer) (a : Option Lexed) (src : Text)
    → l.src ≡ src
    → Keeps src a
    → Keeps src (after_token k p t l a)
after-Keeps TokenType.eof p t l a src e h = e
after-Keeps TokenType.unknown p t l a src e h = e
after-Keeps _ p t l none src e h = tt
after-Keeps _ p t l (some a) src e h = ap (λ l. l.src) (print_line-same p t a).1 ∙ h

run_lexer-Keeps :
    (fuel : ℕ) (p : Bool) (l : Lexer) → l.pos ≤ length l.src → Keeps l.src (run_lexer fuel p l)
unfolding run_lexer
run_lexer-Keeps zero p l h = tt
run_lexer-Keeps (suc fuel) p l h =
    let (same, within, ends) = next_token-advances l h in
    let (t, l') = lexer_next_token l in
    after-Keeps t.type p t l' (run_lexer fuel p l') l.src same
      ((rw same at (run_lexer-Keeps fuel p l')) (rw same within))

pub run_lexer-reset :
    (fuel : ℕ) (p : Bool) (src : Text) (r : Lexed)
    → run_lexer fuel p (lexer_init src) ≡ some r
    → lexer_reset r.lexer ≡ lexer_init src
unfolding lexer_reset lexer_init
run_lexer-reset fuel p src r e =
    let same : r.lexer.src ≡ src =
      rw e at (run_lexer-Keeps fuel p (lexer_init src) (omega arith)) in
    ap lexer_init same
