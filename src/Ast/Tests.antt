-- ===== src/Ast/Tests.antt =====
-- ast_pretty_print and block_node_add_item of src/parser/ast.c at concrete trees.
use cleric.Common.{◌≡◌, refl, some, All, [], ◌∷◌, arith}
use cleric.Arena.{Arena}
use cleric.Ast.Create.{BlockNode, block_node_add_item}
use cleric.Ast.Blocks.{Adds, can_add, block_node_add_item-Adds}
use cleric.Common.Int.{pos, int_text}
use cleric.Common.Text.{codes, decimal, decimal_loop}
use cleric.Ast.{AstNode, UnaryOperatorType, var_decl, unary_op, int_literal, block, nil, cons, null}
use cleric.Ast.Brackets.{IsPlainByte, nesting}
use cleric.Ast.Nesting.{ast_pretty_print-nesting}
use cleric.Ast.Print.{ast_pretty_print, print_indent, print_initializer, unary_name}

-- { int x = !4; int y; }
abbrev a_block : AstNode
a_block = block (
    cons
      (var_decl (codes "int") (codes "x")
        (unary_op UnaryOperatorType.logical_not (int_literal (pos 4))))
      (cons (var_decl (codes "int") (codes "y") null) nil))

printed :
    ast_pretty_print a_block 0
    ≡ codes
        "Block(\n  VarDecl(type=int, name=x,\n    initializer=\n      UnaryOp(op=LogicalNot,\n        Constant(4)\n      )\n  )\n  VarDecl(type=int, name=y)\n)\n"
unfolding ast_pretty_print print_indent print_initializer unary_name int_text decimal decimal_loop
printed = refl

plain : All IsPlainByte (codes "int")
plain = ((refl, refl), ((refl, refl), ((refl, refl), tt)))

ast_pretty_print-nesting_example : nesting (ast_pretty_print a_block 3) 0 ≡ some 0
ast_pretty_print-nesting_example =
    ast_pretty_print-nesting a_block 3
      ((plain, ((refl, refl), tt), tt), ((plain, ((refl, refl), tt), tt), tt))

-- A block that is full with one declaration, in an arena with 100 bytes.
abbrev one_item : BlockNode
one_item = record { items = var_decl (codes "int") (codes "y") null ∷ []; capacity = 1 }

abbrev an_arena : Arena
an_arena = record { start = some 4096; total_size = 100; offset = 0 }

block_node_add_item-Adds_example :
    Adds one_item
      (int_literal (pos 4))
      (can_add 8 one_item (int_literal (pos 4)) an_arena)
      (block_node_add_item 8 one_item (int_literal (pos 4)) an_arena).0
block_node_add_item-Adds_example =
    block_node_add_item-Adds 8 one_item (int_literal (pos 4)) an_arena (omega arith)
