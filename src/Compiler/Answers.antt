-- ===== src/Compiler/Answers.antt =====
-- What compile of src/compiler/compiler.c answers, apart from the text that it prints.
use cleric.Common.{
  ℕ, ◌+◌, ◌*◌, ◌≤◌, ◌≡◌, refl, sym, Bool, true, false, ◌||◌, Option, none, some, [], if◌then◌else◌,
  length, arith, Option-cases, inl, inr,
}
use cleric.Common.Text.{Text}
use cleric.Lexer.{lexer_init, lexer_reset}
use cleric.Ast.{AstNode, null}
use cleric.Parser.{Parsed, out_of_fuel, null_result, parsed, parser_init}
use cleric.Parser.Measure.{left, Ends}
use cleric.Parser.Endings.{parse_program-Ends}
use cleric.Parser.Program.{parse_program}
use cleric.Validator.{validate_program}
use cleric.Tac.{TacProgram}
use cleric.AstToTac.{ast_to_tac}
use cleric.Codegen.{Buffer, codegen_generate_program}
use cleric.Compiler.{Lexed, run_lexer}
use cleric.Compiler.Lexing.{run_lexer-ends}
use cleric.Compiler.Stages.{
  Flags, Compiled, parse_result, parse_outcome, run_parser, run_validator, run_irgen, run_codegen,
  finish, after_parser, after_lexer, codegen_stage, irgen_stage, validator_stage, parser_stage,
  compile,
}
use cleric.Compiler.Repeats.{SameRun, run_lexer-SameRun, run_lexer-reset}

-- The answer and the buffer that the stages give, apart from what they print.
abbrev pub Answer : Type 0
Answer = Bool × Option Buffer

abbrev pub Answers : Option Compiled → Answer → Type 0
Answers c a = (r : Compiled) × (c ≡ some r) × (r.success ≡ a.0) × (r.buffer ≡ a.1)

finish-Answers : (b : Bool) (out : Text) (sb : Option Buffer) → Answers (finish b out sb) (b, sb)
finish-Answers b out sb = (_, refl, refl, refl)

if-Answers :
    (b : Bool) (c d : Option Compiled) (x y : Answer)
    → Answers c x
    → Answers d y
    → Answers (if b then c else d) (if b then x else y)
if-Answers true c d x y p q = p
if-Answers false c d x y p q = q

abbrev pub of_code : Option Buffer → TacProgram → Answer
of_code none prog = (false, none)
of_code (some sb) prog =
    ((codegen_generate_program prog []).0, some (codegen_generate_program prog []).1)

codegen-Answers :
    (flags : Flags) (prog : TacProgram) (out : Text) (sb : Option Buffer)
    → Answers (codegen_stage flags prog out sb) (of_code sb prog)
unfolding codegen_stage run_codegen
codegen-Answers flags prog out none = (_, refl, refl, refl)
codegen-Answers flags prog out (some sb) = (_, refl, refl, refl)

abbrev pub of_tac : Flags → Option Buffer → Option TacProgram → Answer
of_tac flags sb none = (false, sb)
of_tac flags sb (some prog) = if flags.tac_only then (true, sb) else of_code sb prog

irgen-Answers :
    (flags : Flags) (n : AstNode) (out : Text) (sb : Option Buffer)
    → Answers (irgen_stage flags n out sb) (of_tac flags sb (ast_to_tac n))
unfolding irgen_stage run_irgen
irgen-Answers flags n out sb = elim (Option-cases (ast_to_tac n)) [
  | inl e ↦ rw (e, irgen_stage) (finish-Answers false _ sb)
  | inr (prog, e) ↦
      rw (e, irgen_stage)
        (if-Answers flags.tac_only _ _ _ _ (finish-Answers true _ sb)
          (codegen-Answers flags prog _ sb))
]

abbrev pub of_tree : Flags → Option Buffer → AstNode → Answer
of_tree flags sb n =
    if validate_program n
    then (if flags.validate_only then (true, sb) else of_tac flags sb (ast_to_tac n))
    else (false, sb)

validator-Answers :
    (flags : Flags) (n : AstNode) (out : Text) (sb : Option Buffer)
    → Answers (validator_stage flags n out sb) (of_tree flags sb n)
unfolding validator_stage run_validator
validator-Answers flags n out sb =
    if-Answers (validate_program n) _ _ _ _
      (if-Answers flags.validate_only _ _ _ _ (finish-Answers true _ sb)
        (irgen-Answers flags n _ sb))
      (finish-Answers false _ sb)

-- The tree that run_parser goes on with.
abbrev pub tree_unless : Bool → AstNode → Option AstNode
tree_unless true n = none
tree_unless false n = some n

abbrev pub tree_of : Parsed AstNode → Option AstNode
tree_of out_of_fuel = none
tree_of (null_result p) = tree_unless p.error_flag null
tree_of (parsed n p) = tree_unless p.error_flag n

abbrev pub of_parse : Flags → Option Buffer → Option AstNode → Answer
of_parse flags sb none = (false, sb)
of_parse flags sb (some n) = if flags.parse_only then (true, sb) else of_tree flags sb n

result-Answers :
    (b : Bool) (flags : Flags) (n : AstNode) (print : Bool) (out : Text) (sb : Option Buffer)
    → Answers
        (after_parser flags out sb (some (parse_result b n print)))
        (of_parse flags sb (tree_unless b n))
result-Answers true flags n print out sb = finish-Answers false _ sb
result-Answers false flags n print out sb =
    if-Answers flags.parse_only _ _ _ _ (finish-Answers true _ sb) (validator-Answers flags n _ sb)

parsed-Answers :
    (m : ℕ) (r : Parsed AstNode) (flags : Flags) (print : Bool) (out : Text) (sb : Option Buffer)
    → Ends m r
    → Answers (after_parser flags out sb (parse_outcome r print)) (of_parse flags sb (tree_of r))
parsed-Answers m out_of_fuel flags print out sb h = absurd h
parsed-Answers m (null_result p) flags print out sb h =
    result-Answers p.error_flag flags null print out sb
parsed-Answers m (parsed n p) flags print out sb h =
    result-Answers p.error_flag flags n print out sb

-- Whether the lexer accepts the source, and the tree that the parser makes of it.
abbrev pub accepted : Option Lexed → Bool
accepted none = false
accepted (some r) = r.success

unfoldable pub accepts : ℕ → Text → Bool
accepts fuel src = accepted (run_lexer fuel false (lexer_init src))

unfoldable pub tree : ℕ → Text → Option AstNode
tree fuel src = tree_of (parse_program fuel (parser_init (lexer_init src)))

abbrev pub answer_of : ℕ → Text → Flags → Option Buffer → Answer
answer_of fuel src flags sb =
    if accepts fuel src
    then (if flags.lex_only then (true, sb) else of_parse flags sb (tree fuel src))
    else (false, sb)

lexed-Answers :
    (fuel : ℕ) (src : Text) (flags : Flags) (sb : Option Buffer) (r q : Lexed)
    → length src * 3 + 10 ≤ fuel
    → r.success ≡ q.success
    → lexer_reset r.lexer ≡ lexer_init src
    → Answers (after_lexer fuel flags sb (some r)) (
        if q.success
        then (if flags.lex_only then (true, sb) else of_parse flags sb (tree fuel src))
        else (false, sb))
unfolding parser_stage run_parser tree
lexed-Answers fuel src flags sb r q enough same reset = rw (sym same) (
    if-Answers r.success _ _ _ _
      (if-Answers flags.lex_only _ _ _ _ (finish-Answers true _ sb) (
        rw reset (
          parsed-Answers (left (parser_init (lexer_init src)))
            (parse_program fuel (parser_init (lexer_init src))) flags _ _ sb
            (parse_program-Ends src fuel enough))))
      (finish-Answers false _ sb))

run-Answers :
    (fuel : ℕ) (src : Text) (flags : Flags) (sb : Option Buffer) (b : Bool) (o p : Option Lexed)
    → length src * 3 + 10 ≤ fuel
    → run_lexer fuel b (lexer_init src) ≡ o
    → (r : Lexed) × (run_lexer fuel b (lexer_init src) ≡ some r)
    → SameRun o p
    → Answers (after_lexer fuel flags sb o) (
        if accepted p
        then (if flags.lex_only then (true, sb) else of_parse flags sb (tree fuel src))
        else (false, sb))
run-Answers fuel src flags sb b none p enough e (r, f) same = cc
run-Answers fuel src flags sb b (some r) none enough e t same = absurd same
run-Answers fuel src flags sb b (some r) (some q) enough e t same =
    lexed-Answers fuel src flags sb r q enough same.0 (run_lexer-reset fuel b src r e)

pub compile-Answers :
    (fuel : ℕ) (src : Text) (flags : Flags) (sb : Option Buffer)
    → length src * 3 + 10 ≤ fuel
    → Answers (compile fuel src flags sb) (answer_of fuel src flags sb)
unfolding compile accepts lexer_init
compile-Answers fuel src flags sb enough =
    let b = flags.lex_only || (flags.parse_only || flags.codegen_only) in
    let l = lexer_init src in
    run-Answers fuel src flags sb b (run_lexer fuel b l) (run_lexer fuel false l) enough refl
      (run_lexer-ends fuel b l (omega arith) (omega arith)) (run_lexer-SameRun fuel b false l)
