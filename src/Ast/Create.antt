-- ===== src/Ast/Create.antt =====
-- The functions of src/parser/ast.c that create nodes in an arena, and the growing array of a block.
-- `size` is the sizeof of the node's struct, `pointer_size` that of a pointer. No name is NULL.
use cleric.Common.{
  ℕ, ◌+◌, ◌*◌, ◌%◌, ◌^◌, Bool, true, false, Option, none, some, List, [], ◌∷◌, ◌++◌, leb, ◌==◌,
  if◌then◌else◌, length,
}
use cleric.Common.Int.{ℤ}
use cleric.Common.Text.{Text}
use cleric.Arena.{Arena, arena_alloc}
use cleric.Ast.{
  UnaryOperatorType, BinaryOperatorType, AstNode, null, program, func_def, return_stmt, int_literal,
  unary_op, binary_op, var_decl, identifier,
}

-- The node, or `none` for NULL, and the arena.
abbrev pub Created : Type 0
Created = Arena → Option AstNode × Arena

-- What is behind an allocation, where it succeeds.
abbrev pub allocated : Option ℕ → Created → Created
allocated none next arena = (none, arena)
allocated (some address) next arena = next arena

abbrev pub in_arena : ℕ → Created → Created
in_arena size next arena =
    let (address, arena') = arena_alloc arena size in allocated address next arena'

abbrev pub node : AstNode → Created
node n arena = (some n, arena)

-- A copy of the name, with its NUL.
abbrev pub with_copy : Text → Created → Created
with_copy name next = in_arena (length name + 1) next

unfoldable pub create_int_literal_node : ℕ → ℤ → Created
create_int_literal_node size value = in_arena size (node (int_literal value))

unfoldable pub create_return_stmt_node : ℕ → AstNode → Created
create_return_stmt_node size expression = in_arena size (node (return_stmt expression))

unfoldable pub create_func_def_node : ℕ → Text → AstNode → Created
create_func_def_node size name body = in_arena size (with_copy name (node (func_def name body)))

unfoldable pub create_program_node : ℕ → AstNode → Created
create_program_node size function = in_arena size (node (program function))

unfoldable pub create_unary_op_node : ℕ → UnaryOperatorType → AstNode → Created
create_unary_op_node size op operand = in_arena size (node (unary_op op operand))

unfoldable pub create_binary_op_node : ℕ → BinaryOperatorType → AstNode → AstNode → Created
create_binary_op_node size op left right = in_arena size (node (binary_op op left right))

unfoldable pub create_var_decl_node : ℕ → Text → Text → AstNode → Created
create_var_decl_node size type_name var_name initializer =
    in_arena size
      (with_copy type_name (with_copy var_name (node (var_decl type_name var_name initializer))))

unfoldable pub create_identifier_node : ℕ → Text → Created
create_identifier_node size name = in_arena size (with_copy name (node (identifier name)))

-- `num_items` is the length of the items.
pub record BlockNode : Type 0 where
  pub items : List AstNode
  pub capacity : ℕ

unfoldable pub create_block_node : ℕ → Arena → Option BlockNode × Arena
create_block_node size arena =
    let (address, arena') = arena_alloc arena size in
    elim address [
      | none ↦ (none, arena')
      | some _ ↦ (some (record { items = []; capacity = 0 }), arena')
    ]

abbrev pub initial_block_capacity : ℕ
initial_block_capacity = 8

abbrev pub is_null : AstNode → Bool
is_null null = true
is_null _ = false

abbrev pub grown_capacity : BlockNode → ℕ
grown_capacity block = if block.capacity == 0 then initial_block_capacity else block.capacity * 2

-- The item behind the others, in the array with the new capacity.
abbrev pub append_item : BlockNode → AstNode → ℕ → BlockNode
append_item block item capacity = record { items = block.items ++ item ∷ []; capacity = capacity }

-- The growth of the array, and the item in it.
abbrev pub after_growth : Option ℕ → BlockNode → AstNode → ℕ → Arena → (Bool × BlockNode) × Arena
after_growth none block item capacity arena = ((false, block), arena)
after_growth (some new_items) block item capacity arena =
    ((true, append_item block item capacity), arena)

unfoldable pub block_node_add_item : ℕ → BlockNode → AstNode → Arena → (Bool × BlockNode) × Arena
block_node_add_item pointer_size block item arena =
    let new_capacity = grown_capacity block in
    let (new_items, arena') = arena_alloc arena (new_capacity * pointer_size % 2 ^ 64) in
    if is_null item
    then ((false, block), arena)
    else (if leb block.capacity (length block.items)
        then after_growth new_items block item new_capacity arena'
        else ((true, append_item block item block.capacity), arena))
