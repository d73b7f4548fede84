-- ===== src/Compiler/Stages.antt =====
-- src/compiler/compiler.c: compile and its stages behind the lexer. A stage gives its result and the
-- text that it prints on stdout. The parser's recursion and the lexer's loop have fuel. The
-- printing of three-address code finds room in its string buffer.
use cleric.Common.{
  ℕ, Bool, true, false, ◌||◌, Option, none, some, List, [], ◌∷◌, ◌++◌, if◌then◌else◌,
}
use cleric.Common.Text.{Text, codes}
use cleric.Lexer.{Lexer, lexer_init, lexer_reset}
use cleric.Ast.{AstNode, null}
use cleric.Ast.Print.{ast_pretty_print}
use cleric.Parser.{Parser, Parsed, out_of_fuel, null_result, parsed, parser_init}
use cleric.Parser.Program.{parse_program}
use cleric.Validator.{validate_program}
use cleric.Tac.{TacProgram}
use cleric.Tac.Print.{tac_print_program}
use cleric.AstToTac.{ast_to_tac}
use cleric.Codegen.{Buffer, codegen_generate_program}
use cleric.Codegen.Asm.{buffer_text}
use cleric.Compiler.{Lexed, run_lexer}

pub record Flags : Type 0 where
  pub lex_only : Bool
  pub parse_only : Bool
  pub validate_only : Bool
  pub tac_only : Bool
  pub codegen_only : Bool

-- What compile leaves: its answer, its text on stdout and the caller's buffer, where there is one.
pub record Compiled : Type 0 where
  pub success : Bool
  pub stdout : Text
  pub buffer : Option Buffer

abbrev pub dashes : Text
dashes = codes "------------------------------------\n"

abbrev pub when : Bool → Text → Text
when b text = if b then text else []

unfoldable pub concat : List Text → Text
concat [] = []
concat (line ∷ lines) = line ++ concat lines

-- `none` is the answer false. Success is decided by the error flag alone: with the flag clear the
-- program may be NULL.
abbrev pub parse_result : Bool → AstNode → Bool → Option AstNode × Text
parse_result true n print_ast = (none, codes "Parsing...\n")
parse_result false n print_ast = (
  some n,
  codes "Parsing...\n"
      ++ (codes "Parsing successful.\n"
          ++ when print_ast (codes "AST:\n" ++ (dashes ++ (ast_pretty_print n 0 ++ dashes)))),
)

abbrev pub parse_outcome : Parsed AstNode → Bool → Option (Option AstNode × Text)
parse_outcome out_of_fuel print_ast = none
parse_outcome (null_result p) print_ast = some (parse_result p.error_flag null print_ast)
parse_outcome (parsed n p) print_ast = some (parse_result p.error_flag n print_ast)

unfoldable pub run_parser : ℕ → Parser → Bool → Option (Option AstNode × Text)
run_parser fuel parser print_ast = parse_outcome (parse_program fuel parser) print_ast

unfoldable pub run_validator : AstNode → Bool × Text
run_validator root = (
  validate_program root,
  codes "Validating program...\n"
      ++ when (validate_program root) (codes "Semantic validation successful.\n"),
)

unfoldable pub run_irgen : AstNode → Bool → Option TacProgram × Text
run_irgen ast_root print_tac = elim (ast_to_tac ast_root) [
  | none ↦ (none, codes "Generating IR (TAC)...\n")
  | some tac_program ↦ (
    some tac_program,
    codes "Generating IR (TAC)...\n"
        ++ (codes "IR generation successful.\n"
            ++ when print_tac
                (codes "TAC:\n" ++ (dashes ++ (tac_print_program tac_program ++ dashes)))),
  )
]

-- The answer, the buffer and the text.
unfoldable pub run_codegen : TacProgram → Buffer → Bool → Bool × Buffer × Text
run_codegen tac_program output_assembly_sb print_assembly =
    let (done, sb) = codegen_generate_program tac_program [] in
    (
      done,
      sb,
      codes "Generating code...\n"
          ++ when done (
              codes "Code generation successful.\n"
              ++ when print_assembly
                  (codes "Assembly:\n" ++ (dashes ++ (buffer_text sb ++ (codes "\n" ++ dashes))))),
    )

abbrev pub finish : Bool → Text → Option Buffer → Option Compiled
finish success stdout buffer = some (record { success = success; stdout = stdout; buffer = buffer })

-- The stages from code generation on, behind the text that is printed already.
unfoldable pub codegen_stage : Flags → TacProgram → Text → Option Buffer → Option Compiled
unfolding run_codegen
codegen_stage flags tac_program out none = finish false out none
codegen_stage flags tac_program out (some sb) =
    let (done, sb', text) = run_codegen tac_program sb flags.codegen_only in
    finish done (out ++ text) (some sb')

unfoldable pub irgen_stage : Flags → AstNode → Text → Option Buffer → Option Compiled
unfolding run_irgen codegen_stage
irgen_stage flags root out sb =
    let (result, text) = run_irgen root (flags.codegen_only || flags.tac_only) in
    elim result [
      | none ↦ finish false (out ++ text) sb
      | some tac_program ↦
          if flags.tac_only
          then finish true (out ++ text) sb
          else codegen_stage flags tac_program (out ++ text) sb
    ]

unfoldable pub validator_stage : Flags → AstNode → Text → Option Buffer → Option Compiled
unfolding run_validator irgen_stage
validator_stage flags root out sb =
    let (validation_succeeded, text) = run_validator root in
    if validation_succeeded
    then (if flags.validate_only
        then finish true (out ++ text) sb
        else irgen_stage flags root (out ++ text) sb)
    else finish false (out ++ text) sb

-- compile from the parser's answer on.
abbrev pub after_parser :
    Flags → Text → Option Buffer → Option (Option AstNode × Text) → Option Compiled
after_parser flags out sb none = none
after_parser flags out sb (some (none, text)) = finish false (out ++ text) sb
after_parser flags out sb (some (some root, text)) =
    if flags.parse_only
    then finish true (out ++ text) sb
    else validator_stage flags root (out ++ text) sb

unfoldable pub parser_stage : ℕ → Flags → Lexer → Text → Option Buffer → Option Compiled
unfolding run_parser validator_stage
parser_stage fuel flags lexer out sb = after_parser flags out sb (
    run_parser fuel (parser_init (lexer_reset lexer))
      (flags.parse_only || (flags.codegen_only || (flags.tac_only || flags.validate_only))))

-- The text that run_lexer prints.
unfoldable pub lexer_text : Lexed → Text
unfolding concat
lexer_text lexed =
    codes "Lexing...\n" ++ (concat lexed.lines ++ when lexed.success (codes "Lexing finished.\n"))

-- compile from the lexer's answer on.
abbrev pub after_lexer : ℕ → Flags → Option Buffer → Option Lexed → Option Compiled
after_lexer fuel flags sb none = none
after_lexer fuel flags sb (some lexed) =
    if lexed.success
    then (if flags.lex_only
        then finish true (lexer_text lexed) sb
        else parser_stage fuel flags lexed.lexer (lexer_text lexed) sb)
    else finish false (lexer_text lexed) sb

-- `none` where the fuel runs out.
unfoldable pub compile : ℕ → Text → Flags → Option Buffer → Option Compiled
unfolding lexer_text parser_stage
compile fuel source_code flags output_assembly_sb = after_lexer fuel flags output_assembly_sb (
    run_lexer fuel (flags.lex_only || (flags.parse_only || flags.codegen_only))
      (lexer_init source_code))
