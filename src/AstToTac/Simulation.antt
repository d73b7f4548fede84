-- ===== src/AstToTac/Simulation.antt =====
-- The emitted code of a supported expression, run in any function that contains it behind code
-- with smaller labels, leaves the value of the expression in its operand and the older temporaries
-- as they were, and goes on behind itself; where the expression has no value, it ends in a fault.
use mathlib.Core.Bool.{and-eq-true_iff}
use cleric.Common.{
  ℕ, ◌+◌, ◌<◌, ◌≤◌, ◌≡◌, refl, ◌∙◌, true, not, Option, some, List, [], ◌∷◌, ◌++◌, append_assoc, All,
  All-append, if◌then◌else◌, arith, Bool-cases, inl, inr,
}
use cleric.Common.Int.{ℤ, pos, truth, is_zero}
use cleric.Ast.{BinaryOperatorType, AstNode, int_literal}
use cleric.Tac.{
  TacOperand, temp, label, TacInstruction, conditional_goto, if_false_goto, if_true_goto,
}
use cleric.Tac.Machine.{Temps, at, read, assign_or_fault, execute, binary_value, relational_value}
use cleric.Source.{◌>>=◌, binary, and_also, or_otherwise, combine, eval}
use cleric.AstToTac.{label_name, binary_instruction}
use cleric.AstToTac.Gen.{
  Gens, and_gen, or_gen, standard_instruction, binary_gen, gen, join_code, is_standard,
  is_supported, is_supported_op,
}
use cleric.AstToTac.Labels.{
  LabelIn, Avoids, avoid_below, avoid_above, IsWithin, gen-IsWithin, widen,
}
use cleric.AstToTac.Arrival.{Simulates, Arrives-bind}
use cleric.AstToTac.Operators.{const-Simulates, unary-Simulates, standard-Simulates}
use cleric.AstToTac.Join.{short_circuit}

module _ (code : List TacInstruction) where
  module _ (g h : Gens) (m n : Option ℤ) (wg : IsWithin g) (wh : IsWithin h)
      (sg : Simulates code g m) (sh : Simulates code h n) where
    and-Simulates : Simulates code (and_gen g h) (m >>= λ y. and_also y n)
    and-Simulates t l pre k e hp σ =
        let p = wg t l in
        let a = g t l in
        let d = a.next_temp in
        let x = a.next_label in
        let z = x + 1 in
        let q = wh (d + 1) (x + 1 + 1) in
        let b = h (d + 1) (x + 1 + 1) in
        let cond = conditional_goto if_false_goto a.operand (label (label_name x)) in
        let join = join_code d b.operand x z (pos 0) in
        let after = pre ++ a.code in
        let whole = cond ∷ (b.code ++ (join ++ k)) in
        let here : code ≡ pre ++ (a.code ++ whole) = e ∙ simp append_assoc in
        let behind : code ≡ (after ++ cond ∷ b.code) ++ (join ++ k) = here ∙ simp append_assoc in
        let below : All (LabelIn 0 x) after =
          All-append _ pre a.code (widen 0 l 0 x pre hp (omega arith) p.labels)
            (widen l x 0 x a.code p.defs (omega arith) (omega arith)) in
        let avoids : (i : ℕ) → x ≤ i → i < x + 1 + 1 → All (Avoids i) (after ++ cond ∷ b.code) =
          λ i lo hi.
            All-append _ after (cond ∷ b.code) (avoid_below 0 x i after below lo)
              (tt, avoid_above (x + 1 + 1) b.next_label i b.code q.defs hi) in
        rw (append_assoc a.code (cond ∷ (b.code ++ join)) k, append_assoc b.code join k)
          (Arrives-bind code t t (temp d) a.operand k whole σ (at (a.code ++ whole) σ) m _
            (sg t l pre whole here hp σ)
            λ y σ₁ ry ag.
              let right =
                sh (d + 1) (x + 1 + 1) (after ++ cond ∷ []) (join ++ k) (behind ∙ simp append_assoc)
                  (All-append _ after (cond ∷ [])
                    (widen 0 x 0 (x + 1 + 1) after below (omega arith) (omega arith)) (tt, tt))
                  σ₁ in
              short_circuit code if_false_goto x z d a.operand b (pos 0) after k t (d + 1) σ σ₁ y n
                ry ag p.temps (omega arith) behind (avoids x (omega arith) (omega arith))
                (avoids z (omega arith) (omega arith)) (omega arith) right)

    or_otherwise-eq :
        (y : ℤ)
        → (if not (is_zero y) then some (pos 1) else (n >>= λ b. some (truth (not (is_zero b)))))
          ≡ or_otherwise y n
    or_otherwise-eq y = elim (Bool-cases (is_zero y)) [ inl e ↦ rw e | inr e ↦ rw e ]

    or-Simulates : Simulates code (or_gen g h) (m >>= λ y. or_otherwise y n)
    or-Simulates t l pre k e hp σ =
        let p = wg (t + 1) (l + 1 + 1 + 1) in
        let a = g (t + 1) (l + 1 + 1 + 1) in
        let x = l + 1 in
        let z = l + 1 + 1 in
        let q = wh a.next_temp a.next_label in
        let b = h a.next_temp a.next_label in
        let cond = conditional_goto if_true_goto a.operand (label (label_name x)) in
        let join = join_code t b.operand x z (pos 1) in
        let after = pre ++ a.code in
        let whole = cond ∷ (b.code ++ (join ++ k)) in
        let here : code ≡ pre ++ (a.code ++ whole) = e ∙ simp append_assoc in
        let behind : code ≡ (after ++ cond ∷ b.code) ++ (join ++ k) = here ∙ simp append_assoc in
        let older : All (LabelIn 0 (z + 1)) pre =
          widen 0 l 0 (z + 1) pre hp (omega arith) (omega arith) in
        let avoids : (i : ℕ) → l ≤ i → i < z + 1 → All (Avoids i) (after ++ cond ∷ b.code) =
          λ i lo hi.
            All-append _ after (cond ∷ b.code)
              (All-append _ pre a.code (avoid_below 0 l i pre hp lo)
                (avoid_above (z + 1) a.next_label i a.code p.defs hi))
              (tt, avoid_above a.next_label b.next_label i b.code q.defs (omega arith)) in
        rw (append_assoc a.code (cond ∷ (b.code ++ join)) k, append_assoc b.code join k)
          (Arrives-bind code t (t + 1) (temp t) a.operand k whole σ (at (a.code ++ whole) σ) m _
            (sg (t + 1) (z + 1) pre whole here older σ)
            λ y σ₁ ry ag.
              let right =
                sh a.next_temp a.next_label (after ++ cond ∷ []) (join ++ k)
                  (behind ∙ simp append_assoc)
                  (All-append _ after (cond ∷ [])
                    (All-append _ pre a.code
                      (widen 0 l 0 a.next_label pre hp (omega arith) (omega arith))
                      (widen (z + 1) a.next_label 0 a.next_label a.code p.defs (omega arith)
                        (omega arith)))
                    (tt, tt))
                  σ₁ in
              rw (← or_otherwise-eq y) (
                short_circuit code if_true_goto x z t a.operand b (pos 1) after k t a.next_temp σ σ₁
                  y n ry (λ i r. ag i (omega arith)) (omega arith) (omega arith) behind
                  (avoids x (omega arith) (omega arith)) (avoids z (omega arith) (omega arith))
                  (omega arith) right))

  standard-executes :
      (op : BinaryOperatorType) (d : ℕ) (a b : TacOperand) (k : List TacInstruction) (σ : Temps)
      (x y : ℤ)
      → is_standard op ≡ true
      → read σ a ≡ some x
      → read σ b ≡ some y
      → execute code (standard_instruction op (temp d) a b) (at k σ)
        ≡ assign_or_fault (temp d) (binary op x y) (at k σ)
  unfolding execute is_standard binary_instruction binary_value relational_value binary
  standard-executes BinaryOperatorType.logical_and d a b k σ x y s ea eb = cc
  standard-executes BinaryOperatorType.logical_or d a b k σ x y s ea eb = cc
  standard-executes BinaryOperatorType.assign d a b k σ x y s ea eb = cc
  standard-executes BinaryOperatorType.comma d a b k σ x y s ea eb = cc
  standard-executes _ d a b k σ x y s ea eb = rw (ea, eb)

  binary-Simulates :
      (op : BinaryOperatorType) (g h : Gens) (m n : Option ℤ)
      → is_supported_op op ≡ true
      → IsWithin g
      → IsWithin h
      → Simulates code g m
      → Simulates code h n
      → Simulates code (binary_gen op g h) (m >>= λ a. combine op a n)
  unfolding is_supported_op is_standard
  binary-Simulates BinaryOperatorType.logical_and g h m n s wg wh sg sh =
      and-Simulates g h m n wg wh sg sh
  binary-Simulates BinaryOperatorType.logical_or g h m n s wg wh sg sh =
      or-Simulates g h m n wg wh sg sh
  binary-Simulates BinaryOperatorType.assign g h m n s wg wh sg sh = cc
  binary-Simulates BinaryOperatorType.comma g h m n s wg wh sg sh = cc
  binary-Simulates op g h m n s wg wh sg sh =
      standard-Simulates code g h m n wg wh sg sh (standard_instruction op) (binary op)
        (λ d a b k σ x y. standard-executes op d a b k σ x y refl)

  pub gen-Simulates : (e : AstNode) → is_supported e ≡ true → Simulates code (gen e) (eval e)
  unfolding gen eval is_supported
  gen-Simulates (int_literal v) s = const-Simulates code v
  gen-Simulates (AstNode.unary_op op e) s =
      unary-Simulates code op (gen e) (eval e) (gen-IsWithin e) (gen-Simulates e s)
  gen-Simulates (AstNode.binary_op op l r) s =
      let (so, slr) = (and-eq-true_iff _ _).0 s in
      let (sl, sr) = (and-eq-true_iff _ _).0 slr in
      binary-Simulates op (gen l) (gen r) (eval l) (eval r) so (gen-IsWithin l) (gen-IsWithin r)
        (gen-Simulates l sl) (gen-Simulates r sr)
  gen-Simulates _ s = cc
