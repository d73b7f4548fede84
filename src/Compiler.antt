-- ===== src/Compiler.antt =====
-- src/compiler/compiler.c: the stages of the compiler, one after the other.
pub mod Correct
pub mod EndToEnd
pub mod Answers
pub mod Legal
pub mod Modes
pub mod Repeats
pub mod Stages
pub mod Translation
pub mod Lexing
mod Tests
use cleric.Common.{
  ℕ, zero, suc, ◌≡◌, Bool, true, false, Option, none, some, List, [], ◌∷◌, ◌++◌, if◌then◌else◌,
  length,
}
use cleric.Common.Text.{Text, codes}
use cleric.Token.{TokenType, Token, token_to_string}
use cleric.Lexer.{Lexer, lexer_next_token}

-- The line that run_lexer prints for a token, from a buffer of 128 bytes.
unfoldable pub token_line : Token → Text
unfolding token_to_string
token_line tok = codes "Token: " ++ token_to_string tok 128 ++ 10 ∷ []

-- Whether lexing succeeds, the lines printed for the tokens, and the lexer that is left.
pub record Lexed : Type 0 where
  pub success : Bool
  pub lines : List Text
  pub lexer : Lexer

abbrev pub print_line : Bool → Token → Lexed → Lexed
print_line false tok r = r
print_line true tok r = record r { lines = token_line tok ∷ r.lines }

abbrev pub print_before : Bool → Token → Option Lexed → Option Lexed
print_before print_tokens tok none = none
print_before print_tokens tok (some r) = some (print_line print_tokens tok r)

-- One pass of run_lexer's loop at a token of the given type: the loop ends at an eof or unknown
-- token, and otherwise goes on with what the passes behind it answer.
abbrev pub after_token : TokenType → Bool → Token → Lexer → Option Lexed → Option Lexed
after_token TokenType.eof print_tokens tok lexer rest =
    some (record { success = true; lines = []; lexer = lexer })
after_token TokenType.unknown print_tokens tok lexer rest =
    some (record { success = false; lines = []; lexer = lexer })
after_token _ print_tokens tok lexer rest = print_before print_tokens tok rest

-- run_lexer with fuel for its loop; `none` where the fuel runs out.
unfoldable pub run_lexer : ℕ → Bool → Lexer → Option Lexed
unfolding lexer_next_token
run_lexer zero print_tokens lexer = none
run_lexer (suc fuel) print_tokens lexer =
    let (tok, lexer') = lexer_next_token lexer in
    let rest = run_lexer fuel print_tokens lexer' in
    after_token tok.type print_tokens tok lexer' rest
