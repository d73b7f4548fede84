-- ===== src/Compiler/Legal.antt =====
-- What src/ir/ast_to_tac.c emits for an expression is what src/codegen/codegen.c can translate.
use cleric.Common.{ℕ, ◌+◌, ◌^◌, ◌<◌, ◌≤◌, refl, List, [], ◌∷◌, ◌++◌, All, All-append, length, arith}
use cleric.Common.Int.{ℤ, pos, IsInt32}
use cleric.Ast.{UnaryOperatorType, BinaryOperatorType, AstNode, int_literal, unary_op, binary_op}
use cleric.Tac.{TacOperand, temp, TacInstruction, ret}
use cleric.AstToTac.{label_name, unary_instruction, binary_instruction}
use cleric.AstToTac.Gen.{
  Gens, const_gen, unary_gen, and_gen, or_gen, standard_gen, standard_instruction, binary_gen, gen,
  join_code,
}
use cleric.AstToTac.Labels.{IsWithin, gen-IsWithin}
use cleric.Codegen.Encoding.{IsValue, IsLegal, length-decimal}
use cleric.Codegen.Targets.{EndsInReturn}

-- The literals of the expression are values of `int`.
abbrev pub HasInts : AstNode → Type 0
HasInts (int_literal v) = IsInt32 v
HasInts (unary_op op e) = HasInts e
HasInts (binary_op op l r) = HasInts l × HasInts r
HasInts _ = Unit

-- A legal instruction that is no return.
abbrev pub IsInner : ℕ → TacInstruction → Type 0
IsInner d (ret src) = ⊥
IsInner d i = IsLegal d i

pub inner-EndsInReturn :
    (d : ℕ) (is : List TacInstruction) (src : TacOperand)
    → All (IsInner d) is
    → IsValue d src
    → EndsInReturn d (is ++ ret src ∷ [])
inner-EndsInReturn d [] src h v = (v, refl)
inner-EndsInReturn d (ret op ∷ is) src (h, hs) v = absurd h
inner-EndsInReturn d (i ∷ is) src (h, hs) v = (h, inner-EndsInReturn d is src hs v)

-- At most 2 ^ 31 labels: the counter is an `int`.
abbrev pub max_labels : ℕ
max_labels = 2 ^ 31

length-label_name : (n : ℕ) → n < max_labels → length (label_name n) < 64
unfolding label_name
length-label_name n h = omega (arith, length-decimal n)

-- In a frame for the temporaries of the code.
pub record Legal (d : ℕ) (t l : ℕ) (g : Gens) : Type 0 where
  pub code : All (IsInner d) (g t l).code
  pub operand : IsValue d (g t l).operand

abbrev pub IsLegalGens : Gens → Type 0
IsLegalGens g =
    (d t l : ℕ) → (g t l).next_temp ≤ d → (g t l).next_label ≤ max_labels → Legal d t l g

unary-IsInner :
    (op : UnaryOperatorType) (d n : ℕ) (a : TacOperand)
    → n < d
    → IsValue d a
    → IsInner d (unary_instruction op (temp n) a)
unfolding unary_instruction
unary-IsInner UnaryOperatorType.negate d n a h v = (h, v)
unary-IsInner _ d n a h v = (h, v)

standard-IsInner :
    (op : BinaryOperatorType) (d n : ℕ) (a b : TacOperand)
    → n < d
    → IsValue d a
    → IsValue d b
    → IsInner d (standard_instruction op (temp n) a b)
unfolding binary_instruction
standard-IsInner BinaryOperatorType.add d n a b h v w = (h, v, w)
standard-IsInner BinaryOperatorType.logical_and d n a b h v w = (h, v)
standard-IsInner BinaryOperatorType.logical_or d n a b h v w = (h, v)
standard-IsInner BinaryOperatorType.assign d n a b h v w = (h, v)
standard-IsInner BinaryOperatorType.comma d n a b h v w = (h, v)
standard-IsInner _ d n a b h v w = (h, v, w)

join-IsInner :
    (d n x e : ℕ) (rhs : TacOperand) (v : ℤ)
    → n < d
    → x < max_labels
    → e < max_labels
    → IsValue d rhs
    → IsInt32 v
    → All (IsInner d) (join_code n rhs x e v)
join-IsInner d n x e rhs v h p q r s = (
  (h, r, omega arith),
  (length-label_name e q, (length-label_name x p, ((h, s), (length-label_name e q, tt)))),
)

unary-Legal : (op : UnaryOperatorType) (g : Gens) → IsLegalGens g → IsLegalGens (unary_gen op g)
unary-Legal op g lg d t l ht hl =
    let p = lg d t l (omega arith) hl in
    record {
      code = All-append _ _ _ p.code (unary-IsInner op d _ _ (omega arith) p.operand, tt);
      operand = omega arith;
    }

module _ (g h : Gens) (lg : IsLegalGens g) (lh : IsLegalGens h) (wg : IsWithin g)
    (wh : IsWithin h) where
  standard-Legal :
      (op : BinaryOperatorType) → IsLegalGens (standard_gen (standard_instruction op) g h)
  standard-Legal op d t l ht hl =
      let a = g t l in
      let p = wg t l in
      let q = wh a.next_temp a.next_label in
      let x = lg d t l (omega arith) (omega arith) in
      let y = lh d a.next_temp a.next_label (omega arith) (omega arith) in
      record {
        code = All-append _ _ _ x.code (
            All-append _ _ _ y.code
              (standard-IsInner op d _ _ _ (omega arith) x.operand y.operand, tt));
        operand = omega arith;
      }

  and-Legal : IsLegalGens (and_gen g h)
  and-Legal d t l ht hl =
      let a = g t l in
      let p = wg t l in
      let q = wh (a.next_temp + 1) (a.next_label + 1 + 1) in
      let x = lg d t l (omega arith) (omega arith) in
      let y = lh d (a.next_temp + 1) (a.next_label + 1 + 1) (omega arith) (omega arith) in
      record {
        code = All-append _ _ _ x.code (
          (x.operand, length-label_name a.next_label (omega arith)),
          All-append _ _ _ y.code (
              join-IsInner d a.next_temp _ _ _ (pos 0) (omega arith) (omega arith) (omega arith)
                y.operand (omega arith)),
        );
        operand = omega arith;
      }

  or-Legal : IsLegalGens (or_gen g h)
  or-Legal d t l ht hl =
      let a = g (t + 1) (l + 1 + 1 + 1) in
      let p = wg (t + 1) (l + 1 + 1 + 1) in
      let q = wh a.next_temp a.next_label in
      let x = lg d (t + 1) (l + 1 + 1 + 1) (omega arith) (omega arith) in
      let y = lh d a.next_temp a.next_label (omega arith) (omega arith) in
      record {
        code = All-append _ _ _ x.code (
          (x.operand, length-label_name (l + 1) (omega arith)),
          All-append _ _ _ y.code (
              join-IsInner d t _ _ _ (pos 1) (omega arith) (omega arith) (omega arith) y.operand
                (omega arith)),
        );
        operand = omega arith;
      }

binary-Legal :
    (op : BinaryOperatorType) (g h : Gens)
    → IsLegalGens g
    → IsLegalGens h
    → IsWithin g
    → IsWithin h
    → IsLegalGens (binary_gen op g h)
binary-Legal BinaryOperatorType.logical_and g h lg lh wg wh = and-Legal g h lg lh wg wh
binary-Legal BinaryOperatorType.logical_or g h lg lh wg wh = or-Legal g h lg lh wg wh
binary-Legal op g h lg lh wg wh = standard-Legal g h lg lh wg wh op

const-Legal : (v : ℤ) → IsInt32 v → IsLegalGens (const_gen v)
const-Legal v i d t l ht hl = record { code = tt; operand = i }

pub gen-Legal : (e : AstNode) → HasInts e → IsLegalGens (gen e)
unfolding gen
gen-Legal (int_literal v) i = const-Legal v i
gen-Legal (unary_op op e) i = unary-Legal op (gen e) (gen-Legal e i)
gen-Legal (binary_op op l r) (i, j) =
    binary-Legal op (gen l) (gen r) (gen-Legal l i) (gen-Legal r j) (gen-IsWithin l)
      (gen-IsWithin r)
gen-Legal _ i = const-Legal (pos 0) (omega arith)
