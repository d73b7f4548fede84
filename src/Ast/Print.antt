-- ===== src/Ast/Print.antt =====
-- ast_pretty_print of src/parser/ast.c: the text that it prints for a tree.
use cleric.Common.{ℕ, zero, suc, [], ◌++◌}
use cleric.Common.Int.{int_text}
use cleric.Common.Text.{Text, codes}
use cleric.Ast.{
  UnaryOperatorType, BinaryOperatorType, AstNode, Nodes, null, program, func_def, return_stmt,
  int_literal, unary_op, binary_op, var_decl, identifier, block, nil, cons,
}

unfoldable pub print_indent : ℕ → Text
print_indent zero = []
print_indent (suc level) = codes "  " ++ print_indent level

unfoldable pub unary_name : UnaryOperatorType → Text
unary_name UnaryOperatorType.negate = codes "Negate"
unary_name UnaryOperatorType.complement = codes "Complement"
unary_name UnaryOperatorType.logical_not = codes "LogicalNot"

unfoldable pub binary_name : BinaryOperatorType → Text
binary_name BinaryOperatorType.add = codes "Add"
binary_name BinaryOperatorType.subtract = codes "Subtract"
binary_name BinaryOperatorType.multiply = codes "Multiply"
binary_name BinaryOperatorType.divide = codes "Divide"
binary_name BinaryOperatorType.modulo = codes "Modulo"
binary_name BinaryOperatorType.less = codes "Less"
binary_name BinaryOperatorType.greater = codes "Greater"
binary_name BinaryOperatorType.less_equal = codes "LessEqual"
binary_name BinaryOperatorType.greater_equal = codes "GreaterEqual"
binary_name BinaryOperatorType.equal_equal = codes "EqualEqual"
binary_name BinaryOperatorType.not_equal = codes "NotEqual"
binary_name BinaryOperatorType.logical_and = codes "LogicalAnd"
binary_name BinaryOperatorType.logical_or = codes "LogicalOr"
binary_name BinaryOperatorType.assign = codes "Assign"
binary_name BinaryOperatorType.comma = codes "Comma"

-- The line that closes a node.
abbrev pub close : ℕ → Text
close level = print_indent level ++ codes ")\n"

abbrev pub labelled : ℕ → Text → Text → Text
labelled level name value = print_indent level ++ (name ++ value)

-- The initializer of a declaration, and the end of its line where there is none.
unfoldable pub print_initializer : AstNode → ℕ → Text → Text
unfolding print_indent
print_initializer null level value = codes ")\n"
print_initializer _ level value =
    codes ",\n" ++ (labelled (suc level) (codes "initializer=\n") value ++ close level)

unfoldable mutual
  unfolding print_indent unary_name binary_name print_initializer

  pub ast_pretty_print : AstNode → ℕ → Text
  ast_pretty_print null level = print_indent level ++ codes "NULL_NODE\n"
  ast_pretty_print (program f) level =
      print_indent level ++ (codes "Program(\n" ++ (ast_pretty_print f (suc level) ++ close level))
  ast_pretty_print (func_def name body) level =
      print_indent level
      ++ (codes "Function(name=\""
          ++ (name
              ++ (codes "\",\n"
                  ++ (labelled (suc level) (codes "body=\n")
                        (ast_pretty_print body (suc (suc level)))
                      ++ close level))))
  ast_pretty_print (return_stmt e) level =
      print_indent level ++ (codes "Return(\n" ++ (ast_pretty_print e (suc level) ++ close level))
  ast_pretty_print (unary_op op e) level =
      print_indent level
      ++ (codes "UnaryOp(op="
          ++ (unary_name op ++ (codes ",\n" ++ (ast_pretty_print e (suc level) ++ close level))))
  ast_pretty_print (binary_op op l r) level =
      print_indent level
      ++ (codes "BinaryOp(op="
          ++ (binary_name op
              ++ (codes ",\n"
                  ++ (labelled (suc level) (codes "left=\n") (ast_pretty_print l (suc (suc level)))
                      ++ (labelled (suc level) (codes "right=\n")
                            (ast_pretty_print r (suc (suc level)))
                          ++ close level)))))
  ast_pretty_print (int_literal v) level =
      print_indent level ++ (codes "Constant(" ++ (int_text v ++ codes ")\n"))
  ast_pretty_print (block items) level =
      print_indent level ++ (codes "Block(\n" ++ (print_items items (suc level) ++ close level))
  ast_pretty_print (var_decl type name initializer) level =
      print_indent level
      ++ (codes "VarDecl(type="
          ++ (type
              ++ (codes ", name="
                  ++ (name
                      ++ print_initializer initializer level
                          (ast_pretty_print initializer (suc (suc level)))))))
  ast_pretty_print (identifier name) level =
      print_indent level ++ (codes "Identifier(name=" ++ (name ++ codes ")\n"))

  pub print_items : Nodes → ℕ → Text
  print_items nil level = []
  print_items (cons item items) level = ast_pretty_print item level ++ print_items items level
