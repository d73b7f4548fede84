-- ===== src/AstToTac/Gen.antt =====
-- The code that a visit emits, as a function of the two counters alone. A visit of a supported
-- expression appends this code to the function and moves the counters past it.
use cleric.Common.{
  ℕ, ◌+◌, ◌≡◌, refl, ◌∙◌, Bool, true, false, ◌&&◌, some, List, [], ◌∷◌, ◌++◌, append_assoc,
  append-nil,
}
use mathlib.Core.Option
use mathlib.Core.Bool.{and-eq-true_iff}
use cleric.Common.Int.{ℤ, pos}
use cleric.Ast.{UnaryOperatorType, BinaryOperatorType, AstNode, int_literal}
use cleric.Tac.{
  TacOperand, const, temp, label, TacInstruction, copy, relational_op, label_def, go_to,
  conditional_goto, RelationalType, TacFunction, if_false_goto, if_true_goto,
  add_instruction_to_function,
}
use cleric.AstToTac.{
  Context, Visit, label_name, generate_label_name, is_valid_operand, fresh_temp, emit,
  unary_instruction, binary_instruction, visit_unary_op_expression, visit_logical_and_expression,
  visit_logical_or_expression, visit_standard_binary_op, visit_binary_op_expression,
  visit_expression,
}

pub record Gen : Type 0 where
  pub code : List TacInstruction
  pub operand : TacOperand
  pub next_temp : ℕ
  pub next_label : ℕ

abbrev pub Gens : Type 0
Gens = ℕ → ℕ → Gen

abbrev pub const_gen : ℤ → Gens
const_gen v t l = record { code = []; operand = const v; next_temp = t; next_label = l }

abbrev pub unary_gen : UnaryOperatorType → Gens → Gens
unary_gen op operand t l =
    let g = operand t l in
    record {
      code = g.code ++ unary_instruction op (temp g.next_temp) g.operand ∷ [];
      operand = temp g.next_temp;
      next_temp = g.next_temp + 1;
      next_label = g.next_label;
    }

-- The instructions behind the right operand of && and ||.
abbrev pub join_code : ℕ → TacOperand → ℕ → ℕ → ℤ → List TacInstruction
join_code dst rhs exit end_ v =
    relational_op RelationalType.not_equal (temp dst) rhs (const (pos 0))
    ∷ go_to (label (label_name end_))
    ∷ label_def (label (label_name exit))
    ∷ copy (temp dst) (const v)
    ∷ label_def (label (label_name end_))
    ∷ []

abbrev pub and_gen : Gens → Gens → Gens
and_gen left right t l =
    let a = left t l in
    let b = right (a.next_temp + 1) (a.next_label + 1 + 1) in
    record {
      code =
          a.code
          ++ conditional_goto if_false_goto a.operand (label (label_name a.next_label))
            ∷ (b.code ++ join_code a.next_temp b.operand a.next_label (a.next_label + 1) (pos 0));
      operand = temp a.next_temp;
      next_temp = b.next_temp;
      next_label = b.next_label;
    }

abbrev pub or_gen : Gens → Gens → Gens
or_gen left right t l =
    let a = left (t + 1) (l + 1 + 1 + 1) in
    let b = right a.next_temp a.next_label in
    record {
      code =
          a.code
          ++ conditional_goto if_true_goto a.operand (label (label_name (l + 1)))
            ∷ (b.code ++ join_code t b.operand (l + 1) (l + 1 + 1) (pos 1));
      operand = temp t;
      next_temp = b.next_temp;
      next_label = b.next_label;
    }

abbrev pub standard_gen :
    (TacOperand → TacOperand → TacOperand → TacInstruction) → Gens → Gens → Gens
standard_gen instruction left right t l =
    let a = left t l in
    let b = right a.next_temp a.next_label in
    record {
      code = a.code ++ (b.code ++ instruction (temp b.next_temp) a.operand b.operand ∷ []);
      operand = temp b.next_temp;
      next_temp = b.next_temp + 1;
      next_label = b.next_label;
    }

-- The function after its code has grown.
unfoldable pub add_all : TacFunction → List TacInstruction → TacFunction
add_all f [] = f
add_all f (i ∷ is) = add_all (add_instruction_to_function f i) is

abbrev pub extend : Context → Gen → Context
extend c g = record {
  current_function = add_all c.current_function g.code;
  next_temp_id = g.next_temp;
  label_counter = g.next_label;
}

pub add_all-append :
    (f : TacFunction) (xs ys : List TacInstruction)
    → add_all f (xs ++ ys) ≡ add_all (add_all f xs) ys
unfolding add_all
add_all-append f [] ys = refl
add_all-append f (x ∷ xs) ys = add_all-append (add_instruction_to_function f x) xs ys

pub instructions-add_all :
    (f : TacFunction) (xs : List TacInstruction)
    → (add_all f xs).instructions ≡ f.instructions ++ xs
unfolding add_all add_instruction_to_function
instructions-add_all f [] = rw append-nil
instructions-add_all f (x ∷ xs) =
    instructions-add_all (add_instruction_to_function f x) xs
    ∙ append_assoc f.instructions (x ∷ []) xs

-- A visit that emits what `g` says and yields a valid operand.
pub record Follows (v : Visit) (g : Gens) : Type 0 where
  pub emits :
      (c : Context)
      → v c
        ≡ ((g c.next_temp_id c.label_counter).operand, extend c (g c.next_temp_id c.label_counter))
  pub valid : (t l : ℕ) → is_valid_operand (g t l).operand ≡ true

unary-Follows :
    {v : Visit} {g : Gens} (op : UnaryOperatorType)
    → Follows v g
    → Follows (visit_unary_op_expression op v) (unary_gen op g)
unfolding visit_unary_op_expression fresh_temp emit add_all is_valid_operand
unary-Follows op p = record {
  emits = λ c. simp (p.emits, p.valid, add_all-append);
  valid = λ t l. refl;
}

module _ {v w : Visit} {g h : Gens} (p : Follows v g) (q : Follows w h) where
  standard-Follows :
      (op : BinaryOperatorType) (i : TacOperand → TacOperand → TacOperand → TacInstruction)
      → ((d a b : TacOperand) → binary_instruction op d a b ≡ some (i d a b))
      → Follows (visit_standard_binary_op op v w) (standard_gen i g h)
  unfolding visit_standard_binary_op fresh_temp emit add_all is_valid_operand
  standard-Follows op i e = record {
    emits = λ c. simp (p.emits, q.emits, p.valid, q.valid, e, add_all-append);
    valid = λ t l. refl;
  }

  and-Follows : Follows (visit_logical_and_expression v w) (and_gen g h)
  unfolding visit_logical_and_expression fresh_temp generate_label_name emit add_all
      is_valid_operand
  and-Follows = record {
    emits = λ c. simp (p.emits, q.emits, p.valid, q.valid, add_all-append);
    valid = λ t l. refl;
  }

  or-Follows : Follows (visit_logical_or_expression v w) (or_gen g h)
  unfolding visit_logical_or_expression fresh_temp generate_label_name emit add_all is_valid_operand
  or-Follows = record {
    emits = λ c. simp (p.emits, q.emits, p.valid, q.valid, add_all-append);
    valid = λ t l. refl;
  }

-- The instruction of an operator that evaluates both operands.
abbrev pub standard_instruction :
    BinaryOperatorType → TacOperand → TacOperand → TacOperand → TacInstruction
standard_instruction op d a b = Option.get_or (binary_instruction op d a b) (copy d a)

unfoldable pub is_standard : BinaryOperatorType → Bool
is_standard BinaryOperatorType.logical_and = false
is_standard BinaryOperatorType.logical_or = false
is_standard BinaryOperatorType.assign = false
is_standard BinaryOperatorType.comma = false
is_standard _ = true

unfoldable pub is_supported_op : BinaryOperatorType → Bool
is_supported_op BinaryOperatorType.assign = false
is_supported_op BinaryOperatorType.comma = false
is_supported_op _ = true

-- An expression that visit_expression has a case for, with all its operands.
unfoldable pub is_supported : AstNode → Bool
unfolding is_supported_op
is_supported (int_literal v) = true
is_supported (AstNode.unary_op op e) = is_supported e
is_supported (AstNode.binary_op op l r) = is_supported_op op && (is_supported l && is_supported r)
is_supported _ = false

abbrev pub binary_gen : BinaryOperatorType → Gens → Gens → Gens
binary_gen BinaryOperatorType.logical_and = and_gen
binary_gen BinaryOperatorType.logical_or = or_gen
binary_gen op = standard_gen (standard_instruction op)

unfoldable pub gen : AstNode → Gens
gen (int_literal v) = const_gen v
gen (AstNode.unary_op op e) = unary_gen op (gen e)
gen (AstNode.binary_op op l r) = binary_gen op (gen l) (gen r)
gen _ = const_gen (pos 0)

binary-Follows :
    {v w : Visit} {g h : Gens} (op : BinaryOperatorType)
    → is_supported_op op ≡ true
    → Follows v g
    → Follows w h
    → Follows (visit_binary_op_expression op v w) (binary_gen op g h)
unfolding visit_binary_op_expression binary_instruction is_supported_op
binary-Follows BinaryOperatorType.logical_and s p q = and-Follows p q
binary-Follows BinaryOperatorType.logical_or s p q = or-Follows p q
binary-Follows BinaryOperatorType.assign s p q = cc
binary-Follows BinaryOperatorType.comma s p q = cc
binary-Follows op s p q = standard-Follows p q op (standard_instruction op) (λ d a b. refl)

pub gen-Follows : (e : AstNode) → is_supported e ≡ true → Follows (visit_expression e) (gen e)
unfolding visit_expression gen is_supported add_all is_valid_operand
gen-Follows (int_literal v) s = record { emits = λ c. refl; valid = λ t l. refl }
gen-Follows (AstNode.unary_op op e) s = unary-Follows op (gen-Follows e s)
gen-Follows (AstNode.binary_op op l r) s =
    let (so, slr) = (and-eq-true_iff _ _).0 s in
    let (sl, sr) = (and-eq-true_iff _ _).0 slr in
    binary-Follows op so (gen-Follows l sl) (gen-Follows r sr)
gen-Follows _ s = cc
