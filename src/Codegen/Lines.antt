-- ===== src/Codegen/Lines.antt =====
-- The lines that src/codegen/codegen.c appends for each legal instruction, in one list.
use cleric.Common.{
  ℕ, ◌≤◌, ◌≡◌, refl, true, List, [], ◌∷◌, ◌++◌, append_assoc, append-nil, if◌then◌else◌, All,
  Bool-cases, inl, inr,
}
use cleric.Common.Int.{pos}
use cleric.Tac.{
  TacOperand, const, temp, label, invalid, UnaryType, BinaryType, TacInstruction, copy, unary_op,
  ret, binary_op, relational_op, label_def, go_to, conditional_goto,
}
use cleric.Codegen.{
  Buffer, with_operand, same_temp, unary_line, arith_line, divisor_lines, result_register,
  set_instruction, jump_line, logical_lines, emit_return_instruction, emit_copy_instruction,
  emit_unary_op_instruction, emit_binary_arith_instruction, emit_division_instruction,
  emit_label_instruction, emit_goto_instruction, emit_relational_op_instruction,
  emit_conditional_jump_instruction, emit_logical_and_instruction, emit_logical_or_instruction,
  emit_logical_not_instruction, generate_tac_instruction, generate_instructions,
}
use cleric.Codegen.Asm.{
  imm, reg, eax, r10d, AsmLine, movl, cmpl, set_al, Condition, movzbl, testl_eax, cltd, andb, orb,
  jump_label, jmp, operand_text, starts_with, first_is,
}
use cleric.Codegen.Encoding.{
  encode, IsValue, IsPlace, IsLegal, max_places, value-Encodes, place-Encodes, target-Encodes,
}

abbrev pub copy_lines : (dst src : TacOperand) → List AsmLine
copy_lines dst (const v) = movl (imm v) (encode dst) ∷ []
copy_lines dst src = movl (encode src) (reg r10d) ∷ movl (reg r10d) (encode dst) ∷ []

abbrev pub unary_lines : UnaryType → (dst src : TacOperand) → List AsmLine
unary_lines UnaryType.logical_not dst src =
    movl (encode src) (reg eax)
    ∷ cmpl (imm (pos 0))
    ∷ set_al Condition.e
    ∷ movzbl
    ∷ movl (reg eax) (encode dst)
    ∷ []
unary_lines op dst src =
    if same_temp src dst
    then unary_line op (encode dst) ∷ []
    else (movl (encode src) (reg eax) ∷ unary_line op (reg eax) ∷ movl (reg eax) (encode dst) ∷ [])

abbrev pub division_lines : BinaryType → (dst src₁ src₂ : TacOperand) → List AsmLine
division_lines op dst src₁ src₂ =
    movl (encode src₁) (reg eax)
    ∷ cltd
    ∷ (divisor_lines src₂ (encode src₂) ++ movl (reg (result_register op)) (encode dst) ∷ [])

abbrev pub binary_lines : BinaryType → (dst src₁ src₂ : TacOperand) → List AsmLine
binary_lines BinaryType.logical_and dst src₁ src₂ =
    logical_lines andb (encode src₁) (encode src₂) (encode dst)
binary_lines BinaryType.logical_or dst src₁ src₂ =
    logical_lines orb (encode src₁) (encode src₂) (encode dst)
binary_lines BinaryType.div dst src₁ src₂ = division_lines BinaryType.div dst src₁ src₂
binary_lines BinaryType.mod_ dst src₁ src₂ = division_lines BinaryType.mod_ dst src₁ src₂
binary_lines op dst src₁ src₂ =
    movl (encode src₁) (reg eax) ∷ arith_line op (encode src₂) ∷ movl (reg eax) (encode dst) ∷ []

abbrev pub lines_of : TacInstruction → List AsmLine
lines_of (copy dst src) = copy_lines dst src
lines_of (unary_op op dst src) = unary_lines op dst src
lines_of (ret src) = movl (encode src) (reg eax) ∷ []
lines_of (binary_op op dst src₁ src₂) = binary_lines op dst src₁ src₂
lines_of (relational_op op dst src₁ src₂) =
    movl (encode src₁) (reg eax)
    ∷ cmpl (encode src₂)
    ∷ set_al (set_instruction op)
    ∷ movzbl
    ∷ movl (reg eax) (encode dst)
    ∷ []
lines_of (label_def l) = jump_label (encode l) ∷ []
lines_of (go_to l) = jmp (encode l) ∷ []
lines_of (conditional_goto op condition l) =
    movl (encode condition) (reg eax) ∷ testl_eax ∷ jump_line op (encode l) ∷ []

abbrev pub all_lines : List TacInstruction → List AsmLine
all_lines [] = []
all_lines (i ∷ is) = lines_of i ++ all_lines is

module _ (d : ℕ) (small : d ≤ max_places) (sb : Buffer) where
  copy_emits :
      (dst src : TacOperand)
      → IsPlace d dst
      → IsValue d src
      → emit_copy_instruction dst src sb ≡ (true, sb ++ copy_lines dst src)
  unfolding emit_copy_instruction first_is starts_with operand_text
  copy_emits (temp n) (const v) p q =
      rw (value-Encodes d (const v) small q, place-Encodes d (temp n) small p, with_operand) refl
  copy_emits (temp n) (temp k) p q =
      rw (value-Encodes d (temp k) small q, place-Encodes d (temp n) small p, with_operand) refl
  copy_emits (temp n) (label x) p q = absurd q
  copy_emits (temp n) invalid p q = absurd q
  copy_emits (const v) src p q = absurd p
  copy_emits (label x) src p q = absurd p
  copy_emits invalid src p q = absurd p

  unary_emits :
      (op : UnaryType) (dst src : TacOperand)
      → IsPlace d dst
      → IsValue d src
      → generate_tac_instruction (unary_op op dst src) sb ≡ (true, sb ++ unary_lines op dst src)
  unfolding generate_tac_instruction emit_unary_op_instruction emit_logical_not_instruction
  unary_emits UnaryType.logical_not dst src p q =
      rw (value-Encodes d src small q, place-Encodes d dst small p, with_operand) refl
  unary_emits _ dst src p q = elim (Bool-cases (same_temp src dst)) [
    | inl e ↦ rw (value-Encodes d src small q, place-Encodes d dst small p, with_operand, e) refl
    | inr e ↦ rw (value-Encodes d src small q, place-Encodes d dst small p, with_operand, e) refl
  ]

  binary_emits :
      (op : BinaryType) (dst src₁ src₂ : TacOperand)
      → IsPlace d dst
      → IsValue d src₁
      → IsValue d src₂
      → generate_tac_instruction (binary_op op dst src₁ src₂) sb
        ≡ (true, sb ++ binary_lines op dst src₁ src₂)
  unfolding generate_tac_instruction emit_binary_arith_instruction emit_division_instruction
      emit_logical_and_instruction emit_logical_or_instruction
  binary_emits BinaryType.logical_and dst src₁ src₂ p q r =
      rw
        (
          value-Encodes d src₁ small q,
          value-Encodes d src₂ small r,
          place-Encodes d dst small p,
          with_operand,
        )
        refl
  binary_emits _ dst src₁ src₂ p q r =
      rw
        (
          value-Encodes d src₁ small q,
          value-Encodes d src₂ small r,
          place-Encodes d dst small p,
          with_operand,
        )
        refl

  instruction_emits :
      (i : TacInstruction) → IsLegal d i → generate_tac_instruction i sb ≡ (true, sb ++ lines_of i)
  unfolding generate_tac_instruction emit_return_instruction emit_label_instruction
      emit_goto_instruction emit_relational_op_instruction emit_conditional_jump_instruction
  instruction_emits (copy dst src) (p, q) = copy_emits dst src p q
  instruction_emits (unary_op op dst src) (p, q) = unary_emits op dst src p q
  instruction_emits (ret src) p = rw (value-Encodes d src small p, with_operand) refl
  instruction_emits (binary_op op dst src₁ src₂) (p, q, r) = binary_emits op dst src₁ src₂ p q r
  instruction_emits (relational_op op dst src₁ src₂) (p, q, r) =
      rw
        (
          value-Encodes d src₁ small q,
          value-Encodes d src₂ small r,
          place-Encodes d dst small p,
          with_operand,
        )
        refl
  instruction_emits (label_def l) p = rw (target-Encodes l p, with_operand) refl
  instruction_emits (go_to l) p = rw (target-Encodes l p, with_operand) refl
  instruction_emits (conditional_goto op condition l) (p, q) =
      rw (value-Encodes d condition small p, target-Encodes l q, with_operand) refl

pub generate_instructions-all_lines :
    (d : ℕ) (small : d ≤ max_places) (is : List TacInstruction) (sb : Buffer)
    → All (IsLegal d) is
    → generate_instructions is sb ≡ (true, sb ++ all_lines is)
unfolding generate_instructions
generate_instructions-all_lines d small [] sb h = rw append-nil refl
generate_instructions-all_lines d small (i ∷ is) sb (p, ps) =
    rw
      (
        instruction_emits d small sb i p,
        generate_instructions-all_lines d small is (sb ++ lines_of i) ps,
        append_assoc sb (lines_of i) (all_lines is),
      )
      refl
