-- ===== src/Codegen/Targets.antt =====
-- The labels of a function's lines in src/codegen/codegen.c: a jump finds the lines of the
-- instructions that it jumps to. And functions that end in their only return.
use mathlib.Core.Option
use cleric.Common.{
  ℕ, ◌≡◌, refl, ap, Bool, true, false, Option, none, some, List, [], ◌∷◌, ◌++◌, append_assoc,
  Bool-cases, inl, inr,
}
use cleric.Common.Text.{Text, text_eq}
use cleric.Tac.{
  TacOperand, const, temp, label, invalid, UnaryType, BinaryType, if_false_goto, if_true_goto,
  TacInstruction, copy, unary_op, ret, binary_op, relational_op, label_def, go_to, conditional_goto,
}
use cleric.Tac.Machine.{find_label}
use cleric.Codegen.{unary_line, arith_line, divisor_lines, jump_line, logical_lines, same_temp}
use cleric.Codegen.Asm.{AsmLine}
use cleric.Codegen.Encoding.{IsValue, IsLegal}
use cleric.Codegen.Lines.{lines_of, unary_lines, binary_lines, all_lines}
use cleric.Codegen.Machine.{find_line}

-- Legal instructions, of which the last is the only return.
abbrev pub EndsInReturn : ℕ → List TacInstruction → Type 0
EndsInReturn d [] = ⊥
EndsInReturn d (ret src ∷ k) = IsValue d src × (k ≡ [])
EndsInReturn d (i ∷ k) = IsLegal d i × EndsInReturn d k

-- The lines define no label.
abbrev pub Skips : List AsmLine → Type 0
Skips ls = (x : Text) (k : List AsmLine) → find_line x (ls ++ k) ≡ find_line x k

unary-Skips : (op : UnaryType) (dst src : TacOperand) → Skips (unary_lines op dst src)
unfolding find_line unary_line
unary-Skips UnaryType.logical_not dst src x k = refl
unary-Skips UnaryType.negate dst src x k = elim (Bool-cases (same_temp src dst)) [
  | inl e ↦ rw e refl
  | inr e ↦ rw e refl
]
unary-Skips UnaryType.complement dst src x k = elim (Bool-cases (same_temp src dst)) [
  | inl e ↦ rw e refl
  | inr e ↦ rw e refl
]

binary-Skips :
    (op : BinaryType) (dst src₁ src₂ : TacOperand) → Skips (binary_lines op dst src₁ src₂)
unfolding find_line arith_line divisor_lines logical_lines
binary-Skips BinaryType.div dst src₁ (const v) x k = refl
binary-Skips BinaryType.mod_ dst src₁ (const v) x k = refl
binary-Skips _ dst src₁ _ x k = refl

abbrev pub is_label_def : TacInstruction → Bool
is_label_def (label_def l) = true
is_label_def _ = false

pub lines_of-Skips : (i : TacInstruction) → is_label_def i ≡ false → Skips (lines_of i)
unfolding find_line jump_line
lines_of-Skips (copy dst (const v)) h x k = refl
lines_of-Skips (copy dst (temp n)) h x k = refl
lines_of-Skips (copy dst (label n)) h x k = refl
lines_of-Skips (copy dst invalid) h x k = refl
lines_of-Skips (unary_op op dst src) h x k = unary-Skips op dst src x k
lines_of-Skips (ret src) h x k = refl
lines_of-Skips (binary_op op dst src₁ src₂) h x k = binary-Skips op dst src₁ src₂ x k
lines_of-Skips (relational_op op dst src₁ src₂) h x k = refl
lines_of-Skips (label_def l) h x k = cc
lines_of-Skips (go_to l) h x k = refl
lines_of-Skips (conditional_goto if_false_goto condition l) h x k = refl
lines_of-Skips (conditional_goto if_true_goto condition l) h x k = refl

module _ (d : ℕ) (x : Text) (post : List AsmLine) where
  -- A label that the code has.
  abbrev Finds : List TacInstruction → List TacInstruction → Type 0
  Finds c k = (find_line x (all_lines c ++ post) ≡ some (all_lines k ++ post)) × EndsInReturn d k

  behind-Finds :
      (i : TacInstruction) (c k : List TacInstruction)
      → is_label_def i ≡ false
      → Finds c k
      → Finds (i ∷ c) k
  behind-Finds i c k h (e, p) = (
    rw (append_assoc (lines_of i) (all_lines c) post, lines_of-Skips i h x (all_lines c ++ post)) e,
    p,
  )

  pub find_line-all_lines :
      (c k : List TacInstruction) → EndsInReturn d c → find_label x c ≡ some k → Finds c k
  unfolding find_label find_line
  find_line-all_lines [] k p e = absurd p
  find_line-all_lines (ret src ∷ c) k (p, q) e =
      let n : ◌≡◌ {A = Option (List TacInstruction)} none (some k) = rw q at e in absurd (cc)
  find_line-all_lines (label_def (label y) ∷ c) k (p, ps) e = elim (Bool-cases (text_eq y x)) [
    | inl t ↦
        (let same : c ≡ k = ap (λ o. Option.get_or o c) (rw t at e) in
          (rw t (ap (λ c. some (all_lines c ++ post)) same), rw same at ps))
    | inr t ↦ let (f, q) = find_line-all_lines c k ps (rw t at e) in (rw t f, q)
  ]
  find_line-all_lines (label_def _ ∷ c) k (p, ps) e = absurd p
  find_line-all_lines (i ∷ c) k (p, ps) e = behind-Finds i c k refl (find_line-all_lines c k ps e)
