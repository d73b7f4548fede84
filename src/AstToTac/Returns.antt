-- ===== src/AstToTac/Returns.antt =====
-- How many return instructions src/ir/ast_to_tac.c emits for a tree of any kind.
use cleric.Common.{
  ℕ, suc, ◌+◌, ◌≡◌, refl, ◌∙◌, sym, ap, Bool, true, false, none, some, List, [], ◌∷◌, ◌++◌, arith,
  if◌then◌else◌, Bool-cases, inl, inr,
}
use cleric.Common.Text.{Text}
use cleric.Ast.{
  UnaryOperatorType, BinaryOperatorType, AstNode, Nodes, program, func_def, return_stmt,
  int_literal, block, nil, cons,
}
use cleric.Tac.{
  TacOperand, TacInstruction, ret, TacFunction, TacProgram, create_tac_function, create_tac_program,
  add_function_to_program, add_instruction_to_function,
}
use cleric.AstToTac.{
  Context, Visit, fresh_temp, emit, binary_instruction, unary_instruction, generate_label_name,
  visit_unary_op_expression, visit_logical_and_expression, visit_logical_or_expression,
  visit_standard_binary_op, visit_binary_op_expression, visit_expression, visit_statement,
  visit_items, ast_to_tac, start_context,
}
use cleric.AstToTac.Gen.{standard_instruction, is_supported}
use cleric.AstToTac.Support.{visit_expression-valid}

abbrev pub ret_count : List TacInstruction → ℕ
ret_count [] = 0
ret_count (ret src ∷ is) = suc (ret_count is)
ret_count (i ∷ is) = ret_count is

abbrev rets : Context → ℕ
rets c = ret_count c.current_function.instructions

ret_count-append :
    (is js : List TacInstruction) → ret_count (is ++ js) ≡ ret_count is + ret_count js
ret_count-append [] js = omega arith
ret_count-append (ret src ∷ is) js = omega (arith, ret_count-append is js)
ret_count-append (_ ∷ is) js = ret_count-append is js

rets-emit : (i : TacInstruction) (c : Context) → rets (emit i c) ≡ rets c + ret_count (i ∷ [])
unfolding emit add_instruction_to_function
rets-emit i c = ret_count-append c.current_function.instructions (i ∷ [])

-- The visit adds no return instruction.
abbrev AddsNone : Visit → Type 0
AddsNone v = (c : Context) → rets (v c).1 ≡ rets c

unary-none :
    (op : UnaryOperatorType) (d a : TacOperand) → ret_count (unary_instruction op d a ∷ []) ≡ 0
unfolding unary_instruction
unary-none UnaryOperatorType.negate d a = refl
unary-none UnaryOperatorType.complement d a = refl
unary-none UnaryOperatorType.logical_not d a = refl

zero_add : (n : ℕ) → 0 + n ≡ n
zero_add n = omega arith

add_zero : (n : ℕ) → n + 0 ≡ n
add_zero n = omega arith

if_rets :
    (b : Bool) (x y : TacOperand × Context)
    → rets (if b then x else y).1 ≡ (if b then rets x.1 else rets y.1)
if_rets true x y = refl
if_rets false x y = refl

if_same : (b : Bool) (n : ℕ) → (if b then n else n) ≡ n
if_same true n = refl
if_same false n = refl

ruleset counting = (if_rets, if_same, rets-emit, unary-none, add_zero)

visit_unary-rets :
    (op : UnaryOperatorType) (v : Visit) → AddsNone v → AddsNone (visit_unary_op_expression op v)
unfolding visit_unary_op_expression fresh_temp
visit_unary-rets op v p c = simp (counting, p)

module _ (v w : Visit) (p : AddsNone v) (q : AddsNone w) where
  visit_and-rets : AddsNone (visit_logical_and_expression v w)
  unfolding visit_logical_and_expression fresh_temp generate_label_name
  visit_and-rets c = simp (counting, p, q)

  visit_or-rets : AddsNone (visit_logical_or_expression v w)
  unfolding visit_logical_or_expression fresh_temp generate_label_name
  visit_or-rets c = simp (counting, p, q)

  known-rets :
      (op : BinaryOperatorType) (i : TacOperand → TacOperand → TacOperand → TacInstruction)
      → ((d x y : TacOperand) → binary_instruction op d x y ≡ some (i d x y))
      → ((d x y : TacOperand) → ret_count (i d x y ∷ []) ≡ 0)
      → AddsNone (visit_standard_binary_op op v w)
  unfolding visit_standard_binary_op fresh_temp
  known-rets op i e z c = simp (counting, e, z, p, q)

  unknown-rets :
      (op : BinaryOperatorType)
      → ((d x y : TacOperand) → binary_instruction op d x y ≡ none)
      → AddsNone (visit_standard_binary_op op v w)
  unfolding visit_standard_binary_op fresh_temp
  unknown-rets op e c = simp (counting, e, p, q)

  visit_binary-rets : (op : BinaryOperatorType) → AddsNone (visit_binary_op_expression op v w)
  unfolding visit_binary_op_expression binary_instruction
  visit_binary-rets BinaryOperatorType.logical_and = visit_and-rets
  visit_binary-rets BinaryOperatorType.logical_or = visit_or-rets
  visit_binary-rets BinaryOperatorType.assign =
      unknown-rets BinaryOperatorType.assign (λ d x y. refl)
  visit_binary-rets BinaryOperatorType.comma = unknown-rets BinaryOperatorType.comma (λ d x y. refl)
  visit_binary-rets op = known-rets op (standard_instruction op) (λ d x y. refl) (λ d x y. refl)

visit_expression-rets : (e : AstNode) → AddsNone (visit_expression e)
unfolding visit_expression
visit_expression-rets (int_literal v) c = refl
visit_expression-rets (AstNode.unary_op op e) c =
    visit_unary-rets op (visit_expression e) (visit_expression-rets e) c
visit_expression-rets (AstNode.binary_op op l r) c =
    visit_binary-rets (visit_expression l) (visit_expression r) (visit_expression-rets l)
      (visit_expression-rets r) op c
visit_expression-rets _ c = refl

-- The return statements of a body whose expression is supported.
abbrev mutual
  pub returns_in : AstNode → ℕ
  returns_in (return_stmt e) = if is_supported e then 1 else 0
  returns_in (block items) = returns_among items
  returns_in _ = 0

  returns_among : Nodes → ℕ
  returns_among nil = 0
  returns_among (cons item items) = returns_in item + returns_among items

return-rets :
    (e : AstNode) (c : Context)
    → rets (visit_statement (return_stmt e) c) ≡ rets c + (if is_supported e then 1 else 0)
unfolding visit_statement
return-rets e c = elim (Bool-cases (is_supported e)) [
  | inl h ↦
      rw (visit_expression-valid e c, h)
        (rets-emit (ret (visit_expression e c).0) (visit_expression e c).1
          ∙ ap (λ n. n + 1) (visit_expression-rets e c))
  | inr h ↦ rw (visit_expression-valid e c, h) (visit_expression-rets e c ∙ sym (add_zero (rets c)))
]

mutual
  unfolding visit_statement

  visit_statement-rets :
      (n : AstNode) (c : Context) → rets (visit_statement n c) ≡ rets c + returns_in n
  visit_statement-rets (return_stmt e) c = return-rets e c
  visit_statement-rets (block items) c = visit_items-rets items c
  visit_statement-rets _ c = sym (add_zero (rets c))

  visit_items-rets :
      (ns : Nodes) (c : Context) → rets (visit_items ns c) ≡ rets c + returns_among ns
  visit_items-rets nil c = sym (add_zero (rets c))
  visit_items-rets (cons n ns) c =
      omega (arith, visit_statement-rets n c, visit_items-rets ns (visit_statement n c))

-- For every function body, ast_to_tac gives a program of one function, which has as many return
-- instructions as the body has return statements whose expression is supported: a return of an
-- expression that visit_expression has no case for is dropped, and the translation succeeds.
pub ast_to_tac-returns :
    (name : Text) (body : AstNode)
    → (f : TacFunction) × (prog : TacProgram) × (ast_to_tac (program (func_def name body))
        ≡ some prog)
      × (prog.functions ≡ f ∷ [])
      × (ret_count f.instructions ≡ returns_in body)
unfolding ast_to_tac add_function_to_program create_tac_program start_context create_tac_function
ast_to_tac-returns name body =
    let f = (visit_statement body (start_context name)).current_function in
    (
      f,
      add_function_to_program create_tac_program f,
      refl,
      refl,
      visit_statement-rets body (start_context name) ∙ zero_add (returns_in body),
    )
