-- ===== src/Codegen/Output.antt =====
-- What src/codegen/codegen.c does to its string buffer.
use cleric.Common.{
  ◌≡◌, refl, sym, ap, Bool, true, false, ◌&&◌, List, [], ◌∷◌, ◌++◌, append_assoc, append-nil,
  if◌then◌else◌, Bool-cases, Option-cases, inl, inr,
}
use cleric.Tac.{
  TacOperand, UnaryType, BinaryType, TacInstruction, copy, unary_op, ret, binary_op, relational_op,
  label_def, go_to, conditional_goto, TacFunction, TacProgram,
}
use cleric.Codegen.{
  Buffer, Emit, fail, append, with_operand, operand_to_assembly_string, emit_return_instruction,
  emit_copy_instruction, emit_unary_op_instruction, emit_binary_arith_instruction,
  emit_division_instruction, emit_label_instruction, emit_goto_instruction,
  emit_relational_op_instruction, emit_conditional_jump_instruction, emit_logical_and_instruction,
  emit_logical_or_instruction, emit_logical_not_instruction, generate_tac_instruction,
  generate_instructions, prologue, epilogue, generate_tac_function, generate_functions,
  codegen_generate_program,
}
use cleric.Codegen.Asm.{AsmOperand, AsmLine, first_is, movl, reg, r10d}

-- The same answer whatever the buffer holds, and the same lines at its end.
abbrev Appends : Emit → Type 0
Appends e = (sb : Buffer) → e sb ≡ ((e []).0, sb ++ (e []).1)

fail-Appends : Appends fail
fail-Appends sb = ap (λ r. (false, r)) (sym (append-nil sb))

append-Appends : (lines : List AsmLine) → Appends (append lines)
append-Appends lines sb = refl

if-Appends : (b : Bool) (d e : Emit) → Appends d → Appends e → Appends (if b then d else e)
if-Appends true d e p q = p
if-Appends false d e p q = q

with_operand-Appends :
    (op : TacOperand) (f : AsmOperand → Emit)
    → ((o : AsmOperand) → Appends (f o))
    → Appends (with_operand op f)
with_operand-Appends op f p sb = elim (Option-cases (operand_to_assembly_string op 64)) [
  | inl e ↦ rw (e, with_operand) (fail-Appends sb)
  | inr (o, e) ↦ rw (e, with_operand) (p o sb)
]

with_two :
    (a b : TacOperand) (f : AsmOperand → AsmOperand → Emit)
    → ((x y : AsmOperand) → Appends (f x y))
    → Appends (with_operand a λ x. with_operand b λ y. f x y)
with_two a b f p =
    with_operand-Appends a (λ x. with_operand b λ y. f x y)
      (λ x. with_operand-Appends b (f x) (p x))

with_three :
    (a b c : TacOperand) (f : AsmOperand → AsmOperand → AsmOperand → List AsmLine)
    → Appends (with_operand a λ x. with_operand b λ y. with_operand c λ z. append (f x y z))
with_three a b c f =
    with_two a b (λ x y. with_operand c λ z. append (f x y z))
      (λ x y. with_operand-Appends c (λ z. append (f x y z)) (λ z. append-Appends (f x y z)))

copy-Appends : (dst src : TacOperand) → Appends (emit_copy_instruction dst src)
unfolding emit_copy_instruction
copy-Appends dst src = with_two src dst _ (λ x y.
    let through = movl x (reg r10d) ∷ movl (reg r10d) y ∷ [] in
    if-Appends (first_is b'-' x && first_is b'-' y) (append through) _ (append-Appends through) (
      if-Appends (first_is b'$' x && first_is b'-' y) (append (movl x y ∷ [])) (append through)
        (append-Appends (movl x y ∷ [])) (append-Appends through)))

unary-Appends :
    (op : UnaryType) (dst src : TacOperand) → Appends (emit_unary_op_instruction op dst src)
unfolding emit_unary_op_instruction
unary-Appends op dst src =
    with_two src dst _ (λ x y. if-Appends _ _ _ (append-Appends _) (append-Appends _))

instruction-Appends : (i : TacInstruction) → Appends (generate_tac_instruction i)
unfolding generate_tac_instruction emit_return_instruction emit_binary_arith_instruction
    emit_division_instruction emit_label_instruction emit_goto_instruction
    emit_relational_op_instruction emit_conditional_jump_instruction emit_logical_and_instruction
    emit_logical_or_instruction emit_logical_not_instruction
instruction-Appends (ret src) = with_operand-Appends src _ (λ o. λ sb. refl)
instruction-Appends (copy dst src) = copy-Appends dst src
instruction-Appends (unary_op UnaryType.logical_not dst src) =
    with_two src dst _ (λ x y. λ sb. refl)
instruction-Appends (unary_op op dst src) = unary-Appends op dst src
instruction-Appends (binary_op BinaryType.logical_and dst src₁ src₂) = with_three src₁ src₂ dst _
instruction-Appends (binary_op BinaryType.logical_or dst src₁ src₂) = with_three src₁ src₂ dst _
instruction-Appends (binary_op BinaryType.div dst src₁ src₂) = with_three src₁ src₂ dst _
instruction-Appends (binary_op BinaryType.mod_ dst src₁ src₂) = with_three src₁ src₂ dst _
instruction-Appends (binary_op op dst src₁ src₂) = with_three src₁ src₂ dst _
instruction-Appends (label_def l) = with_operand-Appends l _ (λ o. λ sb. refl)
instruction-Appends (go_to l) = with_operand-Appends l _ (λ o. λ sb. refl)
instruction-Appends (relational_op op dst src₁ src₂) = with_three src₁ src₂ dst _
instruction-Appends (conditional_goto op condition l) = with_two condition l _ (λ x y. λ sb. refl)

-- Running one after the other, the second only after a success.
abbrev and_then : Emit → Emit → Emit
and_then d e sb = if (d sb).0 then e (d sb).1 else (false, (d sb).1)

then-Appends : (d e : Emit) → Appends d → Appends e → Appends (and_then d e)
then-Appends d e p q sb = elim (Bool-cases (d []).0) [
  | inl h ↦ rw (p sb, h, q (sb ++ (d []).1), q (d []).1, append_assoc sb (d []).1 (e []).1)
  | inr h ↦ rw (p sb, h)
]

instructions-Appends : (is : List TacInstruction) → Appends (generate_instructions is)
unfolding generate_instructions
instructions-Appends [] sb = ap (λ r. (true, r)) (sym (append-nil sb))
instructions-Appends (i ∷ is) sb =
    then-Appends (generate_tac_instruction i) (generate_instructions is) (instruction-Appends i)
      (instructions-Appends is) sb

function-Appends : (f : TacFunction) → Appends (generate_tac_function f)
unfolding generate_tac_function
function-Appends f =
    then-Appends (append (prologue f))
      (and_then (generate_instructions f.instructions) (append (epilogue f)))
      (append-Appends (prologue f))
      (then-Appends (generate_instructions f.instructions) (append (epilogue f))
        (instructions-Appends f.instructions) (append-Appends (epilogue f)))

functions-Appends : (fs : List TacFunction) → Appends (generate_functions fs)
unfolding generate_functions
functions-Appends [] sb = ap (λ r. (true, r)) (sym (append-nil sb))
functions-Appends (f ∷ fs) sb =
    then-Appends (generate_tac_function f) (generate_functions fs) (function-Appends f)
      (functions-Appends fs) sb

-- codegen_generate_program only appends to the buffer: the buffer that it is given is a prefix of
-- the one that it leaves, also where it fails, and neither its answer nor the lines that it appends
-- depend on what the buffer holds.
pub codegen-appends :
    (p : TacProgram) (sb : Buffer)
    → codegen_generate_program p sb
      ≡ ((codegen_generate_program p []).0, sb ++ (codegen_generate_program p []).1)
unfolding codegen_generate_program
codegen-appends p sb = functions-Appends p.functions sb
