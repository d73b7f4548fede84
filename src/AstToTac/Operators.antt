-- ===== src/AstToTac/Operators.antt =====
-- The emitted code of constants and of the operators that evaluate all their operands.
use cleric.Common.{
  ℕ, ◌≡◌, refl, ◌∙◌, sym, Option, some, List, [], ◌∷◌, ◌++◌, append_assoc, All-append, arith,
}
use cleric.Common.Int.{ℤ}
use cleric.Ast.{UnaryOperatorType}
use cleric.Tac.{TacOperand, temp, TacInstruction}
use cleric.Tac.Machine.{Temps, at, read, assign_or_fault, execute, unary_value}
use cleric.Source.{◌>>=◌, unary}
use cleric.AstToTac.{unary_instruction}
use cleric.AstToTac.Gen.{Gens, const_gen, unary_gen, standard_gen}
use cleric.AstToTac.Labels.{IsWithin, widen}
use cleric.AstToTac.Arrival.{read-Agree, Arrives-bind, Arrives-since, Simulates, store}

module _ (code : List TacInstruction) where
  pub const-Simulates : (v : ℤ) → Simulates code (const_gen v) (some v)
  const-Simulates v t l pre k e h σ = (σ, refl, λ i q. refl, λ r run. run)

  unary-executes :
      (op : UnaryOperatorType) (d : ℕ) (a : TacOperand) (k : List TacInstruction) (σ : Temps)
      (v : ℤ)
      → read σ a ≡ some v
      → execute code (unary_instruction op (temp d) a) (at k σ)
        ≡ assign_or_fault (temp d) (some (unary op v)) (at k σ)
  unfolding unary_instruction execute unary_value unary
  unary-executes UnaryOperatorType.negate d a k σ v e = rw e
  unary-executes _ d a k σ v e = rw e

  pub unary-Simulates :
      (op : UnaryOperatorType) (g : Gens) (m : Option ℤ)
      → IsWithin g
      → Simulates code g m
      → Simulates code (unary_gen op g) (m >>= λ a. some (unary op a))
  unary-Simulates op g m w sim t l pre k e h σ =
      let p = w t l in
      let d = (g t l).next_temp in
      let i = unary_instruction op (temp d) (g t l).operand in
      rw (append_assoc (g t l).code (i ∷ []) k) (
        Arrives-bind code t t (temp d) (g t l).operand k (i ∷ k) σ (at ((g t l).code ++ i ∷ k) σ) m
          _ (sim t l pre (i ∷ k) (e ∙ rw append_assoc) h σ)
          λ a σ₁ ra ag.
            store code t d i k σ σ₁ (some (unary op a)) (omega arith) ag
              (unary-executes op d (g t l).operand k σ₁ a ra))

  module _ (g h : Gens) (m n : Option ℤ) (wg : IsWithin g) (wh : IsWithin h)
      (sg : Simulates code g m) (sh : Simulates code h n) where
    pub standard-Simulates :
        (i : TacOperand → TacOperand → TacOperand → TacInstruction) (f : ℤ → ℤ → Option ℤ)
        → ((d : ℕ) (a b : TacOperand) (k : List TacInstruction) (σ : Temps) (x y : ℤ)
            → read σ a ≡ some x
            → read σ b ≡ some y
            → execute code (i (temp d) a b) (at k σ) ≡ assign_or_fault (temp d) (f x y) (at k σ))
        → Simulates code (standard_gen i g h) (m >>= λ a. n >>= λ b. f a b)
    standard-Simulates i f ex t l pre k e hp σ =
        let p = wg t l in
        let a = g t l in
        let q = wh a.next_temp a.next_label in
        let b = h a.next_temp a.next_label in
        let d = b.next_temp in
        let last = i (temp d) a.operand b.operand in
        let e' : code ≡ pre ++ (a.code ++ (b.code ++ last ∷ k)) = e ∙ simp append_assoc in
        rw (append_assoc a.code (b.code ++ last ∷ []) k, append_assoc b.code (last ∷ []) k)
          (Arrives-bind code t t (temp d) a.operand k (b.code ++ last ∷ k) σ
            (at (a.code ++ (b.code ++ last ∷ k)) σ) m _ (sg t l pre (b.code ++ last ∷ k) e' hp σ)
            λ x σ₁ rx ag₁.
              Arrives-since code t t (temp d) k σ σ₁ (at (b.code ++ last ∷ k) σ₁) (n >>= λ y. f x y)
                (omega arith) ag₁
                (Arrives-bind code t a.next_temp (temp d) b.operand k (last ∷ k) σ₁
                  (at (b.code ++ last ∷ k) σ₁) n _
                  (sh a.next_temp a.next_label (pre ++ a.code) (last ∷ k)
                    (e' ∙ sym (append_assoc pre a.code (b.code ++ last ∷ k)))
                    (All-append _ pre a.code
                      (widen 0 l 0 a.next_label pre hp (omega arith) p.labels)
                      (widen l a.next_label 0 a.next_label a.code p.defs (omega arith)
                        (omega arith)))
                    σ₁)
                  λ y σ₂ ry ag₂.
                    store code t d last k σ₁ σ₂ (f x y) (omega arith) (λ j r. ag₂ j (omega arith))
                      (ex d a.operand b.operand k σ₂ x y
                        (read-Agree a.next_temp a.operand σ₂ σ₁ p.operand ag₂ ∙ rx) ry)))
