-- ===== src/Ast.antt =====
-- The syntax tree of src/parser/ast.h. A node is its type with the fields of its struct; `null` is
-- the NULL pointer, which every visitor tests for. The arrays of a block are `Nodes`.
pub mod Blocks
pub mod Brackets
pub mod Create
pub mod Print
pub mod Nesting
mod Tests
use cleric.Common.Int.{ℤ}
use cleric.Common.Text.{Text}

pub data UnaryOperatorType : Type 0 where
  negate complement logical_not : UnaryOperatorType

pub data BinaryOperatorType : Type 0 where
  add subtract multiply divide modulo : BinaryOperatorType
  less greater less_equal greater_equal equal_equal not_equal : BinaryOperatorType
  logical_and logical_or assign comma : BinaryOperatorType

mutual
  pub data AstNode : Type 0 where
    null : AstNode
    program : AstNode → AstNode
    func_def : Text → AstNode → AstNode
    return_stmt : AstNode → AstNode
    int_literal : ℤ → AstNode
    unary_op : UnaryOperatorType → AstNode → AstNode
    binary_op : BinaryOperatorType → AstNode → AstNode → AstNode
    var_decl : Text → Text → AstNode → AstNode
    identifier : Text → AstNode
    block : Nodes → AstNode

  pub data Nodes : Type 0 where
    nil : Nodes
    cons : AstNode → Nodes → Nodes
