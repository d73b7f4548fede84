-- ===== src/Ast/Nesting.antt =====
-- The parentheses that ast_pretty_print of src/parser/ast.c prints.
use cleric.Common.{ℕ, suc, ◌≡◌, refl, some, [], ◌++◌, append-nil, All}
use cleric.Common.Int.{int_text}
use cleric.Common.Text.{codes}
use cleric.Ast.{
  AstNode, Nodes, null, program, func_def, return_stmt, int_literal, unary_op, binary_op, var_decl,
  identifier, block, nil, cons,
}
use cleric.Ast.Print.{
  print_indent, close, labelled, unary_name, binary_name, print_initializer, ast_pretty_print,
  print_items,
}
use cleric.Ast.Brackets.{
  nesting, IsPlainByte, Closed, append-Closed, plain-Closed, indent-Closed, int-Closed, rest-Closes,
  close-Closes, labelled-Closed, node-Closed, unary_name-Closed, binary_name-Closed,
  initializer-Closes,
}

-- The names in the tree have no parentheses.
abbrev mutual
  pub HasPlainNames : AstNode → Type 0
  HasPlainNames (program f) = HasPlainNames f
  HasPlainNames (func_def name body) = All IsPlainByte name × HasPlainNames body
  HasPlainNames (return_stmt e) = HasPlainNames e
  HasPlainNames (unary_op op e) = HasPlainNames e
  HasPlainNames (binary_op op l r) = HasPlainNames l × HasPlainNames r
  HasPlainNames (var_decl type name e) =
      All IsPlainByte type × All IsPlainByte name × HasPlainNames e
  HasPlainNames (identifier name) = All IsPlainByte name
  HasPlainNames (block items) = HavePlainNames items
  HasPlainNames _ = Unit

  pub HavePlainNames : Nodes → Type 0
  HavePlainNames nil = Unit
  HavePlainNames (cons item items) = HasPlainNames item × HavePlainNames items

mutual
  unfolding ast_pretty_print nesting

  print-Closed : (n : AstNode) (level : ℕ) → HasPlainNames n → Closed (ast_pretty_print n level)
  print-Closed null level h =
      append-Closed (print_indent level) (codes "NULL_NODE\n") (indent-Closed level) (λ r d. refl)
  print-Closed (program f) level h =
      let inner = ast_pretty_print f (suc level) in
      node-Closed level (codes "Program(\n") (inner ++ close level) (λ r d. refl)
        (rest-Closes inner (close level) (print-Closed f (suc level) h) (close-Closes level))
  print-Closed (func_def name body) level (h, hs) =
      let inner =
        labelled (suc level) (codes "body=\n") (ast_pretty_print body (suc (suc level))) in
      let rest = codes "\",\n" ++ (inner ++ close level) in
      node-Closed level (codes "Function(name=\"") (name ++ rest) (λ r d. refl)
        (rest-Closes name rest (plain-Closed name h) (
          rest-Closes (codes "\",\n") (inner ++ close level) (λ r d. refl)
            (rest-Closes inner (close level)
              (labelled-Closed (suc level) (codes "body=\n") _ (λ r d. refl)
                (print-Closed body (suc (suc level)) hs))
              (close-Closes level))))
  print-Closed (return_stmt e) level h =
      let inner = ast_pretty_print e (suc level) in
      node-Closed level (codes "Return(\n") (inner ++ close level) (λ r d. refl)
        (rest-Closes inner (close level) (print-Closed e (suc level) h) (close-Closes level))
  print-Closed (unary_op op e) level h =
      let inner = ast_pretty_print e (suc level) in
      let rest = codes ",\n" ++ (inner ++ close level) in
      node-Closed level (codes "UnaryOp(op=") (unary_name op ++ rest) (λ r d. refl)
        (rest-Closes (unary_name op) rest (unary_name-Closed op) (
          rest-Closes (codes ",\n") (inner ++ close level) (λ r d. refl)
            (rest-Closes inner (close level) (print-Closed e (suc level) h) (close-Closes level))))
  print-Closed (binary_op op l r) level (h, hs) =
      let left = labelled (suc level) (codes "left=\n") (ast_pretty_print l (suc (suc level))) in
      let right = labelled (suc level) (codes "right=\n") (ast_pretty_print r (suc (suc level))) in
      let rest = left ++ (right ++ close level) in
      node-Closed level (codes "BinaryOp(op=") (binary_name op ++ (codes ",\n" ++ rest))
        (λ r d. refl)
        (rest-Closes (binary_name op) (codes ",\n" ++ rest) (binary_name-Closed op) (
          rest-Closes (codes ",\n") rest (λ r d. refl)
            (rest-Closes left (right ++ close level)
              (labelled-Closed (suc level) (codes "left=\n") _ (λ r d. refl)
                (print-Closed l (suc (suc level)) h))
              (rest-Closes right (close level)
                (labelled-Closed (suc level) (codes "right=\n") _ (λ r d. refl)
                  (print-Closed r (suc (suc level)) hs))
                (close-Closes level)))))
  print-Closed (int_literal v) level h =
      node-Closed level (codes "Constant(") (int_text v ++ codes ")\n") (λ r d. refl)
        (rest-Closes (int_text v) (codes ")\n") (int-Closed v) (λ r d. refl))
  print-Closed (block items) level h =
      let inner = print_items items (suc level) in
      node-Closed level (codes "Block(\n") (inner ++ close level) (λ r d. refl)
        (rest-Closes inner (close level) (items-Closed items (suc level) h) (close-Closes level))
  print-Closed (var_decl type name e) level (h, hs, hss) =
      let value = print_initializer e level (ast_pretty_print e (suc (suc level))) in
      let rest = codes ", name=" ++ (name ++ value) in
      node-Closed level (codes "VarDecl(type=") (type ++ rest) (λ r d. refl)
        (rest-Closes type rest (plain-Closed type h) (
          rest-Closes (codes ", name=") (name ++ value) (λ r d. refl)
            (rest-Closes name value (plain-Closed name hs)
              (initializer-Closes e level _ (print-Closed e (suc (suc level)) hss)))))
  print-Closed (identifier name) level h =
      node-Closed level (codes "Identifier(name=") (name ++ codes ")\n") (λ r d. refl)
        (rest-Closes name (codes ")\n") (plain-Closed name h) (λ r d. refl))

  items-Closed : (ns : Nodes) (level : ℕ) → HavePlainNames ns → Closed (print_items ns level)
  items-Closed nil level h = λ r d. refl
  items-Closed (cons n ns) level (h, hs) =
      append-Closed (ast_pretty_print n level) (print_items ns level) (print-Closed n level h)
        (items-Closed ns level hs)

-- Where no name of the tree has a parenthesis, every parenthesis that ast_pretty_print closes is one
-- that it opened before, and at the end none is open.
pub ast_pretty_print-nesting :
    (n : AstNode) (level : ℕ) → HasPlainNames n → nesting (ast_pretty_print n level) 0 ≡ some 0
unfolding nesting
ast_pretty_print-nesting n level h =
    let t = ast_pretty_print n level in rw (append-nil t) at (print-Closed n level h [] 0)
