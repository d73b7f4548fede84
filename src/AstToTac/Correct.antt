-- ===== src/AstToTac/Correct.antt =====
-- The translation of a whole function keeps its meaning.
use cleric.Common.{ℕ, ◌≡◌, refl, true, some, List, [], ◌∷◌, ◌+◌, arith, append-nil}
use cleric.Common.Text.{Text}
use cleric.Ast.{AstNode, program, func_def}
use cleric.Source.{Ending, no_value, falls_through, run_statement}
use cleric.Tac.{
  TacInstruction, TacFunction, TacProgram, create_tac_function, create_tac_program,
  add_instruction_to_function, add_function_to_program,
}
use cleric.Tac.Machine.{State, at, Outcome, fault, fell_off, step, Runs, halts, run, no_temps}
use cleric.Tac.Runs.{Runs-run}
use cleric.AstToTac.{start_context, visit_statement, ast_to_tac}
use cleric.AstToTac.Gen.{add_all, instructions-add_all}
use cleric.AstToTac.Body.{
  body_of, is_supported_statement, visit_statement-extends, Continues, body_of-Plays,
}

-- How a run of the code of a function ends where its body ends so.
abbrev pub outcome : Ending → Outcome
outcome (Ending.returned v) = Outcome.returned v
outcome no_value = fault
outcome falls_through = fell_off

module _ (code : List TacInstruction) where
  Runs-out : (s : State) (r : Ending) → Continues code [] s r → Runs code (outcome r) s
  unfolding step
  Runs-out s (Ending.returned v) h = h
  Runs-out s no_value h = h
  Runs-out s falls_through (σ, go) = go fell_off (halts refl)

-- The body's code, run from its start.
pub body-Runs :
    (n : AstNode)
    → is_supported_statement n ≡ true
    → Runs (body_of n 0 0).code (outcome (run_statement n)) (at (body_of n 0 0).code no_temps)
body-Runs n s =
    let c = (body_of n 0 0).code in
    Runs-out c (at c no_temps) (run_statement n)
      (rw (append-nil c) at (body_of-Plays c n s 0 0 [] [] (rw (append-nil c)) tt no_temps))

-- The function that the translation makes.
abbrev pub function_of : Text → AstNode → TacFunction
function_of name n = add_all (create_tac_function name) (body_of n 0 0).code

pub translated :
    (name : Text) (n : AstNode)
    → is_supported_statement n ≡ true
    → (visit_statement n (start_context name)).current_function ≡ function_of name n
unfolding start_context
translated name n s = rw (visit_statement-extends n (start_context name) s)

pub instructions-function_of :
    (name : Text) (n : AstNode) → (function_of name n).instructions ≡ (body_of n 0 0).code
unfolding create_tac_function
instructions-function_of name n = instructions-add_all (create_tac_function name) _

name-add_all : (f : TacFunction) (xs : List TacInstruction) → (add_all f xs).name ≡ f.name
unfolding add_all add_instruction_to_function
name-add_all f [] = refl
name-add_all f (x ∷ xs) = name-add_all (add_instruction_to_function f x) xs

-- For a function whose body consists of returns of supported expressions and nested blocks of such
-- statements, ast_to_tac gives a program of exactly one function, with the name of the source
-- function. Run from its first instruction with no temporary set, with some fuel and with any more,
-- its code returns the value that the body returns, faults where the body meets a division that
-- has no value first, and runs past its end where the body falls through.
pub ast_to_tac_correct :
    (name : Text) (body : AstNode)
    → is_supported_statement body ≡ true
    → (f : TacFunction) × (prog : TacProgram) × (ast_to_tac (program (func_def name body))
        ≡ some prog)
      × (prog.functions ≡ f ∷ [])
      × (f.name ≡ name)
      × ((n : ℕ) × ((more : ℕ)
            → run (n + more) f.instructions (at f.instructions no_temps)
              ≡ some (outcome (run_statement body))))
unfolding ast_to_tac add_function_to_program create_tac_program create_tac_function
ast_to_tac_correct name body s =
    let f = function_of name body in
    let (n, go) = Runs-run _ _ (body-Runs body s) in
    (
      f,
      add_function_to_program create_tac_program f,
      rw (translated name body s),
      refl,
      name-add_all (create_tac_function name) (body_of body 0 0).code,
      (n, rw (instructions-function_of name body) (λ more. go (n + more) (omega arith))),
    )
