-- ===== src/Lib.antt =====
-- cleric: a small C compiler. A source text is read by the lexer (src/lexer), parsed into a syntax
-- tree (src/parser), checked for the scoping of its variables (src/validator), translated to
-- three-address code (src/ir) and from there to assembly (src/codegen); src/compiler runs the stages
-- in this order and stops at the first that fails. src/cleric.c takes the command line (src/args) and
-- has src/compiler/driver.c run the preprocessor, the compiler, and the assembler and linker, on
-- files (src/files). The stages allocate in an arena (src/memory), and the
-- assembly goes to a string buffer in it (src/strings).
--
-- Files, with the code that each models:
--   Common        shared names; native numbers, C integers (Int), texts as byte lists (Text)
--   Token, Lexer  src/lexer/lexer.h and lexer.c: token types, token_to_string, lexer_next_token.
--                 Lexer/Progress has the lexer's bounds, Lexer/Spelling how tokens are spelled
--   Compiler      src/compiler/compiler.c: run_lexer, the loop over the tokens (Compiler/Lexing);
--                 Compiler/Stages has compile and the other stages, Repeats, Answers, Modes and
--                 Correct are about it. Compiler/Legal, Translation and EndToEnd put translation and code
--                 generation together
--   Ast           src/parser/ast.h: the node types; src/parser/ast.c: Ast/Create has the functions that
--                 create nodes (Ast/Blocks is about a block's array), Ast/Print the printing, with
--                 Ast/Brackets and Nesting about the printed parentheses
--   Parser        src/parser/parser.c: the parser's state and tokens; Parser/Grammar has expressions and
--                 declarations, Parser/Program statements, blocks and the program. Measure,
--                 Expressions, Statements and Endings under Parser are about its fuel
--   Source        what expressions and function bodies mean, described apart from the code
--   SymbolTable   src/validator/symbol_table.c: the stack of scopes (SymbolTable/Lookup)
--   Validator     src/validator/validator.c. Validator/Scoping states the scoping rules as relations,
--                 Validator/Correct compares, Validator/Depth is about the table that is left
--   Tac           src/ir/tac.h and tac.c: operands, instructions, functions, programs. Tac/Machine
--                 gives instructions a meaning as steps on a state, Tac/Runs relates steps to fuel,
--                 Tac/Create has the functions that create instructions, Tac/Print those that print
--                 (Tac/Listing says what the lines are, Tac/Feeds and Rows compare)
--   AstToTac      src/ir/ast_to_tac.c. Gen is the code that a visit emits, Labels the numbering,
--                 Arrival, Operators, Join, Simulation and Body the comparison of runs, Correct its
--                 end; Support and Returns are about what the translation has no case for
--   Codegen       src/codegen/codegen.c, with the emitted lines in Codegen/Asm; Codegen/Frame is
--                 about the stack frame, Codegen/Output about the string buffer. Codegen/Machine
--                 gives the lines a meaning on the target. Encoding and Lines say what is emitted,
--                 Values, Steps, Simulation and Operations what the lines of an instruction do,
--                 Targets, Refinement, Staying and Correct compare whole functions, and
--                 Returns is about the code behind a return
--   Arena         src/memory/arena.c: the allocator (Arena/Blocks is about the blocks it hands out)
--   StringBuffer  src/strings/strings.c: the buffer; StringBuffer/Doubling and Growth are about it
--   Args, Files   src/args/args.c (Args/Modes) and src/files/files.c (Files/Extensions)
--   Driver        src/compiler/driver.c and src/cleric.c, on a directory of files (Driver/Outputs)
-- A component's Tests module applies its theorems at concrete inputs.
--
-- Correspondence. Functions keep the names of the source. State that the source passes by pointer is
-- a record that each function returns: the function under construction and the two counters are
-- AstToTac.Context, the lexer is Lexer.Lexer, the scopes are SymbolTable.SymbolTable (innermost first),
-- the string buffer is the list of appended lines. A counted array is a list, its count the length,
-- and its capacity a field. NULL and -1 are `none`; an error result is `false` or the invalid operand.
-- The values of `int` in a program are integers with their wrap-around written out (Common/Int), as
-- are the place of a temporary, which wraps around from the id 2^28 - 1 on, and the size of a frame.
-- The ids of temporaries and labels and the capacities of arrays are natural numbers without a bound;
-- in the source they are an `int`, or double in a size_t.
--
-- Bounds and fuel. A size_t has 64 bits and MAX_ALIGNMENT is 16. The loop that doubles a buffer's
-- capacity has 65 passes, which are enough for every capacity that an arena can hold. The loop of
-- run_lexer has fuel: one pass more than there are bytes left is enough. The parser has fuel for
-- its recursion, and three units for each byte of the source and ten more are enough. The machine
-- for three-address code runs on fuel as well; the theorem on it gives the fuel. All other
-- functions recurse on their input.
--
-- The machine for assembly lines keeps 32 bits in a register and eight bytes in a cell of memory; it
-- has no fuel, a run of it is a finite derivation. run_compiler gives compile the fuel that is proved
-- enough.
--
-- Not modelled: the text of the parser's error message, the bytes that an arena holds, and the C
-- library's calls on files. The parser and the translation use the constructors where the source
-- calls a function that creates one node or instruction. What the external commands of the driver do
-- is a parameter, and a directory says which names can be written and removed. Outside of Arena,
-- StringBuffer, Ast/Create and Tac/Create memory allocation succeeds. Messages on stderr are left
-- out. Characters are those of the C locale, and a source has no NUL byte.
pub mod Common
pub mod Ast
pub mod Source
pub mod Tac
pub mod AstToTac
pub mod Codegen
pub mod Token
pub mod SymbolTable
pub mod Validator
pub mod Lexer
pub mod Files
pub mod Args
pub mod Driver
pub mod Parser
pub mod StringBuffer
pub mod Arena
pub mod Compiler
