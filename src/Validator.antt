-- ===== src/Validator.antt =====
-- src/validator/validator.c: every used variable is declared in an enclosing scope, none is
-- declared twice in one scope, and an assignment has a variable on its left. A visitor returns its
-- verdict and the symbol table; the messages on stderr are left out.
pub mod Scoping
pub mod Names
pub mod Correct
pub mod Depth
mod Tests
use cleric.Common.{
  ℕ, ◌≡◌, refl, Bool, true, false, Option, none, some, List, [], ◌∷◌, if◌then◌else◌,
}
use cleric.Common.Int.{ℤ}
use cleric.Common.Text.{Text}
use cleric.Token.{Token, TokenType}
use cleric.Ast.{
  UnaryOperatorType, BinaryOperatorType, AstNode, Nodes, null, program, func_def, return_stmt,
  int_literal, unary_op, binary_op, var_decl, identifier, block, nil, cons,
}
use cleric.SymbolTable.{
  SymbolTable, symbol_table_init, symbol_table_enter_scope, symbol_table_exit_scope,
  symbol_table_lookup_symbol, symbol_table_add_symbol,
}

abbrev pub Check : Type 0
Check = SymbolTable → Bool × SymbolTable

-- `second` runs where `first` succeeds.
abbrev pub both : Check → Check → Check
both first second st = let (done, st') = first st in if done then second st' else (false, st')

abbrev pub dummy_decl_token : Text → Token
dummy_decl_token name = record { type = TokenType.identifier; lexeme = some name; position = 0 }

unfoldable pub validate_var_decl_node : Text → Check → Check
validate_var_decl_node var_name initializer =
    both (λ st. symbol_table_add_symbol st var_name (dummy_decl_token var_name)) initializer

unfoldable pub validate_identifier_node : Text → Check
validate_identifier_node name st = elim (symbol_table_lookup_symbol st name) [
  | none ↦ (false, st)
  | some _ ↦ (true, st)
]

unfoldable pub is_identifier : AstNode → Bool
is_identifier (identifier x) = true
is_identifier _ = false

-- The check of an assignment's left-hand side; all other operators pass.
unfoldable pub has_lvalue : BinaryOperatorType → AstNode → Bool
unfolding is_identifier
has_lvalue BinaryOperatorType.assign left = is_identifier left
has_lvalue _ left = true

unfoldable pub validate_binary_op_node : Bool → Check → Check → Check
validate_binary_op_node lvalue left right st =
    let checked = both left right st in if lvalue then checked else (false, st)

unfoldable pub validate_block_node : Check → Check
validate_block_node items st =
    let (done, st') = items (symbol_table_enter_scope st) in (done, symbol_table_exit_scope st')

unfoldable mutual
  pub validate_node : AstNode → Check
  validate_node null st = (true, st)
  validate_node (program function) st = validate_node function st
  validate_node (func_def name body) st = validate_node body st
  validate_node (return_stmt expression) st = validate_node expression st
  validate_node (int_literal value) st = (true, st)
  validate_node (unary_op op operand) st = validate_node operand st
  validate_node (binary_op op left right) st =
      validate_binary_op_node (has_lvalue op left) (validate_node left) (validate_node right) st
  validate_node (var_decl type_name var_name initializer) st =
      validate_var_decl_node var_name (validate_node initializer) st
  validate_node (identifier name) st = validate_identifier_node name st
  validate_node (block items) st = validate_block_node (validate_items items) st

  -- The loop over the items of a block, which stops at the first failure.
  pub validate_items : Nodes → Check
  validate_items nil st = (true, st)
  validate_items (cons item items) st = both (validate_node item) (validate_items items) st

unfoldable pub validate_program : AstNode → Bool
validate_program (program function) = (validate_node (program function) symbol_table_init).0
validate_program _ = false
