-- ===== src/Source.antt =====
-- What a program of the compiled language means: an independent description in the terms of C.
-- An expression has a value unless a division in it has none; `&&` and `||` evaluate their right
-- operand only where it is needed. A function body stops at its first return.
use cleric.Common.{not, Option, none, some, if◌then◌else◌}
use cleric.Common.Int.{
  ℤ, pos, ◌+ℤ◌, ◌-ℤ◌, ◌*ℤ◌, ltb_ℤ, ◌==ℤ◌, complement_ℤ, wrap, truth, is_zero, quotient, remainder,
  divides_well,
}
use cleric.Ast.{
  UnaryOperatorType, BinaryOperatorType, AstNode, Nodes, int_literal, return_stmt, block, nil, cons,
}

infixl 5 ◌>>=◌
abbrev pub ◌>>=◌ : {A B : Type 0} → Option A → (A → Option B) → Option B
none >>= f = none
some a >>= f = f a

unfoldable pub unary : UnaryOperatorType → ℤ → ℤ
unary UnaryOperatorType.negate a = wrap (pos 0 -ℤ a)
unary UnaryOperatorType.complement a = complement_ℤ a
unary UnaryOperatorType.logical_not a = truth (is_zero a)

unfoldable pub binary : BinaryOperatorType → ℤ → ℤ → Option ℤ
binary BinaryOperatorType.add a b = some (wrap (a +ℤ b))
binary BinaryOperatorType.subtract a b = some (wrap (a -ℤ b))
binary BinaryOperatorType.multiply a b = some (wrap (a *ℤ b))
binary BinaryOperatorType.divide a b = if divides_well a b then some (quotient a b) else none
binary BinaryOperatorType.modulo a b = if divides_well a b then some (remainder a b) else none
binary BinaryOperatorType.less a b = some (truth (ltb_ℤ a b))
binary BinaryOperatorType.greater a b = some (truth (ltb_ℤ b a))
binary BinaryOperatorType.less_equal a b = some (truth (not (ltb_ℤ b a)))
binary BinaryOperatorType.greater_equal a b = some (truth (not (ltb_ℤ a b)))
binary BinaryOperatorType.equal_equal a b = some (truth (a ==ℤ b))
binary BinaryOperatorType.not_equal a b = some (truth (not (a ==ℤ b)))
binary _ a b = none

-- `x && y` and `x || y` from the value of `x` and the meaning of `y`.
abbrev pub and_also : ℤ → Option ℤ → Option ℤ
and_also a y = if is_zero a then some (pos 0) else y >>= λ b. some (truth (not (is_zero b)))

abbrev pub or_otherwise : ℤ → Option ℤ → Option ℤ
or_otherwise a y = if is_zero a then (y >>= λ b. some (truth (not (is_zero b)))) else some (pos 1)

abbrev pub combine : BinaryOperatorType → ℤ → Option ℤ → Option ℤ
combine BinaryOperatorType.logical_and a y = and_also a y
combine BinaryOperatorType.logical_or a y = or_otherwise a y
combine op a y = y >>= λ b. binary op a b

unfoldable pub eval : AstNode → Option ℤ
eval (int_literal v) = some v
eval (AstNode.unary_op op e) = eval e >>= λ a. some (unary op a)
eval (AstNode.binary_op op l r) = let y = eval r in eval l >>= λ a. combine op a y
eval _ = none

-- How a statement ends: with the function's result, at an expression that has no value, or so
-- that the next statement runs.
pub data Ending : Type 0 where
  returned : ℤ → Ending
  no_value falls_through : Ending

abbrev pub ending : Option ℤ → Ending
ending none = no_value
ending (some v) = returned v

abbrev pub and_then : Ending → Ending → Ending
and_then falls_through next = next
and_then r next = r

unfoldable mutual
  pub run_statement : AstNode → Ending
  run_statement (return_stmt e) = ending (eval e)
  run_statement (block items) = run_items items
  run_statement _ = falls_through

  pub run_items : Nodes → Ending
  run_items nil = falls_through
  run_items (cons item items) = and_then (run_statement item) (run_items items)
