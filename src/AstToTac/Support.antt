-- ===== src/AstToTac/Support.antt =====
-- What src/ir/ast_to_tac.c does with an expression that it has no case for.
use cleric.Common.{◌≡◌, refl, Bool, true, false, ◌&&◌, none, some, Bool-cases, inl, inr}
use cleric.Ast.{UnaryOperatorType, BinaryOperatorType, AstNode, int_literal}
use cleric.Tac.{TacOperand, TacInstruction}
use cleric.AstToTac.{
  Context, Visit, fresh_temp, is_valid_operand, binary_instruction, visit_unary_op_expression,
  visit_logical_and_expression, visit_logical_or_expression, visit_standard_binary_op,
  visit_binary_op_expression, visit_expression,
}
use cleric.AstToTac.Gen.{standard_instruction, is_supported, is_supported_op}

abbrev valid : Visit → Context → Bool
valid v c = is_valid_operand (v c).0

unary-valid :
    (op : UnaryOperatorType) (v : Visit) (b : Bool)
    → ((c : Context) → valid v c ≡ b)
    → (c : Context) → valid (visit_unary_op_expression op v) c ≡ b
unfolding visit_unary_op_expression fresh_temp is_valid_operand
unary-valid op v true p c = rw (p c)
unary-valid op v false p c = rw (p c)

and-valid :
    (v w : Visit) (a b : Bool)
    → ((c : Context) → valid v c ≡ a)
    → ((c : Context) → valid w c ≡ b)
    → (c : Context) → valid (visit_logical_and_expression v w) c ≡ (a && b)
unfolding visit_logical_and_expression fresh_temp is_valid_operand
and-valid v w true true p q c = simp (p, q)
and-valid v w true false p q c = simp (p, q)
and-valid v w false b p q c = simp (p, q)

or-valid :
    (v w : Visit) (a b : Bool)
    → ((c : Context) → valid v c ≡ a)
    → ((c : Context) → valid w c ≡ b)
    → (c : Context) → valid (visit_logical_or_expression v w) c ≡ (a && b)
unfolding visit_logical_or_expression fresh_temp is_valid_operand
or-valid v w true true p q c = simp (p, q)
or-valid v w true false p q c = simp (p, q)
or-valid v w false b p q c = simp (p, q)

known-valid :
    (op : BinaryOperatorType) (i : TacOperand → TacOperand → TacOperand → TacInstruction)
    → ((d x y : TacOperand) → binary_instruction op d x y ≡ some (i d x y))
    → (v w : Visit) (a b : Bool) → ((c : Context) → valid v c ≡ a)
    → ((c : Context) → valid w c ≡ b)
    → (c : Context) → valid (visit_standard_binary_op op v w) c ≡ (a && b)
unfolding visit_standard_binary_op fresh_temp is_valid_operand
known-valid op i e v w true true p q c = simp (p, q, e)
known-valid op i e v w true false p q c = simp (p, q)
known-valid op i e v w false b p q c = simp (p, q)

unknown-valid :
    (op : BinaryOperatorType)
    → ((d x y : TacOperand) → binary_instruction op d x y ≡ none)
    → (v w : Visit) (c : Context) → valid (visit_standard_binary_op op v w) c ≡ false
unfolding visit_standard_binary_op fresh_temp is_valid_operand
unknown-valid op e v w c = elim (Bool-cases (valid v c)) [
  | inr h ↦ rw h
  | inl h ↦ elim (Bool-cases (valid w (v c).1)) [ inr k ↦ rw (h, k) | inl k ↦ simp (h, k, e) ]
]

binary-valid :
    (op : BinaryOperatorType) (v w : Visit) (a b : Bool)
    → ((c : Context) → valid v c ≡ a)
    → ((c : Context) → valid w c ≡ b)
    → (c : Context) → valid (visit_binary_op_expression op v w) c ≡ (is_supported_op op && (a && b))
unfolding visit_binary_op_expression binary_instruction is_supported_op
binary-valid BinaryOperatorType.logical_and v w a b p q c = and-valid v w a b p q c
binary-valid BinaryOperatorType.logical_or v w a b p q c = or-valid v w a b p q c
binary-valid BinaryOperatorType.assign v w a b p q c =
    unknown-valid BinaryOperatorType.assign (λ d x y. refl) v w c
binary-valid BinaryOperatorType.comma v w a b p q c =
    unknown-valid BinaryOperatorType.comma (λ d x y. refl) v w c
binary-valid op v w a b p q c =
    known-valid op (standard_instruction op) (λ d x y. refl) v w a b p q c

-- A visit of an expression gives a valid operand exactly where the expression and all its operands
-- have a kind that visit_expression has a case for.
pub visit_expression-valid :
    (e : AstNode) (c : Context) → is_valid_operand (visit_expression e c).0 ≡ is_supported e
unfolding visit_expression is_supported is_valid_operand
visit_expression-valid (int_literal v) c = refl
visit_expression-valid (AstNode.unary_op op e) c =
    unary-valid op (visit_expression e) (is_supported e) (visit_expression-valid e) c
visit_expression-valid (AstNode.binary_op op l r) c =
    binary-valid op (visit_expression l) (visit_expression r) (is_supported l) (is_supported r)
      (visit_expression-valid l) (visit_expression-valid r) c
visit_expression-valid _ c = refl
