-- ===== src/Codegen.antt =====
-- src/codegen/codegen.c: from three-address code to assembly. The string buffer is the list of the
-- lines appended to it; `Asm` has their texts. A conversion that fails leaves the buffer as it is
-- and ends the generation with `false`, as the source does.
pub mod Asm
pub mod Correct
pub mod Encoding
pub mod Frame
pub mod Ids
pub mod Lines
pub mod Machine
pub mod Operations
pub mod Refinement
pub mod Returns
pub mod Simulation
pub mod Staying
pub mod Steps
pub mod Targets
pub mod Values
pub mod Output
mod Tests
use cleric.Common.{
  ℕ, suc, ◌+◌, ◌-◌, ◌*◌, ◌/◌, ◌%◌, ◌^◌, ◌≡◌, Bool, true, false, ◌&&◌, ◌||◌, Option, none, some,
  List, [], ◌∷◌, ◌++◌, ltb, leb, ◌==◌, if◌then◌else◌, length,
}
use cleric.Common.Int.{ℤ, pos, negsuc, wrap}
use cleric.Common.Text.{Text, text_eq}
use cleric.Tac.{
  TacOperand, const, temp, label, invalid, UnaryType, BinaryType, RelationalType, ConditionalType,
  if_false_goto, if_true_goto, TacInstruction, copy, unary_op, ret, binary_op, relational_op,
  label_def, go_to, conditional_goto, TacFunction, TacProgram,
}
use Asm.{
  AsmOperand, imm, slot, symbol, reg, Reg, eax, ecx, edx, r10d, AsmLine, movl, addl, subl, imull,
  cmpl, negl, notl, testl_eax, cltd, idivl, set_al, set_dl, Condition, andb, orb, movzbl,
  jump_label, jmp, jz, jnz, globl, entry, pushq, movq, subq, leave, popq, retq, operand_text,
  first_is,
}

-- The largest of the operands' temporary ids, from `max_id`. `none` is the source's -1.
unfoldable pub larger_id : TacOperand → Option ℕ → Option ℕ
larger_id (temp n) none = some n
larger_id (temp n) (some m) = if ltb m n then some n else some m
larger_id _ m = m

unfoldable pub max_temp_id_of : TacInstruction → Option ℕ → Option ℕ
unfolding larger_id
max_temp_id_of (copy dst src) m = larger_id src (larger_id dst m)
max_temp_id_of (ret src) m = larger_id src m
max_temp_id_of (unary_op op dst src) m = larger_id src (larger_id dst m)
max_temp_id_of (binary_op BinaryType.logical_and dst src₁ src₂) m = m
max_temp_id_of (binary_op BinaryType.logical_or dst src₁ src₂) m = m
max_temp_id_of (binary_op op dst src₁ src₂) m = larger_id src₂ (larger_id src₁ (larger_id dst m))
max_temp_id_of _ m = m

unfoldable pub max_temp_id_loop : List TacInstruction → Option ℕ → Option ℕ
max_temp_id_loop [] m = m
max_temp_id_loop (i ∷ is) m = max_temp_id_loop is (max_temp_id_of i m)

unfoldable pub calculate_max_temp_id : TacFunction → Option ℕ
calculate_max_temp_id func = max_temp_id_loop func.instructions none

-- 8 bytes for each temporary, rounded up to a multiple of 16, and 32 at the least.
-- An `int` as a size_t.
abbrev pub size_of_int : ℤ → ℕ
size_of_int (pos n) = n
size_of_int (negsuc n) = 2 ^ 64 - suc n

unfoldable pub bytes_for_temps : Option ℕ → ℕ
bytes_for_temps none = 0
bytes_for_temps (some m) = size_of_int (wrap (pos (m + 1))) * 8 % 2 ^ 64

unfoldable pub stack_allocation_size : TacFunction → ℕ
unfolding bytes_for_temps
stack_allocation_size func =
    let size = (bytes_for_temps (calculate_max_temp_id func) + 15) % 2 ^ 64 / 16 * 16 in
    if ltb size 32 then 32 else size

-- The operand with the buffer of `buffer_size` bytes that its text has to fit, terminator included.
-- `none` is the result false.
unfoldable pub fits : ℕ → AsmOperand → Option AsmOperand
fits buffer_size o = if ltb (length (operand_text o)) buffer_size then some o else none

unfoldable pub operand_to_assembly_string : TacOperand → ℕ → Option AsmOperand
unfolding fits
operand_to_assembly_string (const v) size = fits size (imm v)
operand_to_assembly_string (temp n) size = fits size (slot (wrap (pos ((n + 1) * 8))))
operand_to_assembly_string (label x) size = fits size (symbol x)
operand_to_assembly_string invalid size = none

abbrev pub Buffer : Type 0
Buffer = List AsmLine

abbrev pub Emit : Type 0
Emit = Buffer → Bool × Buffer

abbrev pub fail : Emit
fail sb = (false, sb)

abbrev pub append : List AsmLine → Emit
append lines sb = (true, sb ++ lines)

-- Converting an operand into the local buffer of 64 bytes.
abbrev pub with_operand : TacOperand → (AsmOperand → Emit) → Emit
with_operand op f = elim (operand_to_assembly_string op 64) [ none ↦ fail | some o ↦ f o ]

unfoldable pub emit_return_instruction : TacOperand → Emit
emit_return_instruction src = with_operand src λ op₁. append (movl op₁ (reg eax) ∷ [])

unfoldable pub emit_copy_instruction : TacOperand → TacOperand → Emit
emit_copy_instruction dst src = with_operand src λ op₁. with_operand dst λ dest.
    let through = movl op₁ (reg r10d) ∷ movl (reg r10d) dest ∷ [] in
    if first_is b'-' op₁ && first_is b'-' dest
    then append through
    else (if first_is b'$' op₁ && first_is b'-' dest
        then append (movl op₁ dest ∷ [])
        else append through)

-- `src` and `dst` are the same temporary.
unfoldable pub same_temp : TacOperand → TacOperand → Bool
same_temp (temp m) (temp n) = m == n
same_temp _ _ = false

unfoldable pub unary_line : UnaryType → AsmOperand → AsmLine
unary_line UnaryType.negate o = negl o
unary_line _ o = notl o

unfoldable pub emit_unary_op_instruction : UnaryType → TacOperand → TacOperand → Emit
unfolding unary_line
emit_unary_op_instruction op dst src = with_operand src λ op₁. with_operand dst λ dest.
    if same_temp src dst
    then append (unary_line op dest ∷ [])
    else append (movl op₁ (reg eax) ∷ unary_line op (reg eax) ∷ movl (reg eax) dest ∷ [])

unfoldable pub arith_line : BinaryType → AsmOperand → AsmLine
arith_line BinaryType.add o = addl o
arith_line BinaryType.sub o = subl o
arith_line _ o = imull o

unfoldable pub emit_binary_arith_instruction :
    BinaryType → TacOperand → TacOperand → TacOperand → Emit
unfolding arith_line
emit_binary_arith_instruction op dst src₁ src₂ = with_operand src₁ λ op₁. with_operand src₂ λ op₂.
    with_operand dst
      λ dest. append (movl op₁ (reg eax) ∷ arith_line op op₂ ∷ movl (reg eax) dest ∷ [])

unfoldable pub divisor_lines : TacOperand → AsmOperand → List AsmLine
divisor_lines (const v) o = movl o (reg ecx) ∷ idivl (reg ecx) ∷ []
divisor_lines _ o = idivl o ∷ []

unfoldable pub result_register : BinaryType → Reg
result_register BinaryType.div = eax
result_register _ = edx

unfoldable pub emit_division_instruction : BinaryType → TacOperand → TacOperand → TacOperand → Emit
unfolding divisor_lines result_register
emit_division_instruction op dst src₁ src₂ = with_operand src₁ λ op₁. with_operand src₂ λ op₂.
    with_operand dst λ dest. append (
      movl op₁ (reg eax)
      ∷ cltd
      ∷ (divisor_lines src₂ op₂ ++ movl (reg (result_register op)) dest ∷ []))

unfoldable pub emit_label_instruction : TacOperand → Emit
emit_label_instruction l = with_operand l λ o. append (jump_label o ∷ [])

unfoldable pub emit_goto_instruction : TacOperand → Emit
emit_goto_instruction l = with_operand l λ o. append (jmp o ∷ [])

unfoldable pub set_instruction : RelationalType → Condition
set_instruction RelationalType.equal = Condition.e
set_instruction RelationalType.not_equal = Condition.ne
set_instruction RelationalType.less = Condition.l
set_instruction RelationalType.less_equal = Condition.le
set_instruction RelationalType.greater = Condition.g
set_instruction RelationalType.greater_equal = Condition.ge

unfoldable pub emit_relational_op_instruction :
    RelationalType → TacOperand → TacOperand → TacOperand → Emit
unfolding set_instruction
emit_relational_op_instruction op dst src₁ src₂ = with_operand src₁ λ op₁. with_operand src₂ λ op₂.
    with_operand dst λ dest. append (
      movl op₁ (reg eax)
      ∷ cmpl op₂
      ∷ set_al (set_instruction op)
      ∷ movzbl
      ∷ movl (reg eax) dest
      ∷ [])

unfoldable pub jump_line : ConditionalType → AsmOperand → AsmLine
jump_line if_false_goto o = jz o
jump_line if_true_goto o = jnz o

unfoldable pub emit_conditional_jump_instruction : ConditionalType → TacOperand → TacOperand → Emit
unfolding jump_line
emit_conditional_jump_instruction op condition_src target_label = with_operand condition_src λ cond.
    with_operand target_label
      λ target. append (movl cond (reg eax) ∷ testl_eax ∷ jump_line op target ∷ [])

-- The bodies of emit_logical_and_instruction and emit_logical_or_instruction, which differ in one
-- line.
unfoldable pub logical_lines : AsmLine → AsmOperand → AsmOperand → AsmOperand → List AsmLine
logical_lines combine src₁ src₂ dest =
    movl src₁ (reg eax)
    ∷ testl_eax
    ∷ set_dl Condition.ne
    ∷ movl src₂ (reg eax)
    ∷ testl_eax
    ∷ set_al Condition.ne
    ∷ combine
    ∷ movzbl
    ∷ movl (reg eax) dest
    ∷ []

unfoldable pub emit_logical_and_instruction : TacOperand → TacOperand → TacOperand → Emit
unfolding logical_lines
emit_logical_and_instruction dst src₁ src₂ = with_operand src₁ λ op₁.
    with_operand src₂ λ op₂. with_operand dst λ dest. append (logical_lines andb op₁ op₂ dest)

unfoldable pub emit_logical_or_instruction : TacOperand → TacOperand → TacOperand → Emit
unfolding logical_lines
emit_logical_or_instruction dst src₁ src₂ =
    with_operand src₁ λ op₁.
      with_operand src₂ λ op₂. with_operand dst λ dest. append (logical_lines orb op₁ op₂ dest)

unfoldable pub emit_logical_not_instruction : TacOperand → TacOperand → Emit
emit_logical_not_instruction dst src = with_operand src λ op₁. with_operand dst λ dest. append (
    movl op₁ (reg eax)
    ∷ cmpl (imm (pos 0))
    ∷ set_al Condition.e
    ∷ movzbl
    ∷ movl (reg eax) dest
    ∷ [])

unfoldable pub generate_tac_instruction : TacInstruction → Emit
generate_tac_instruction (ret src) = emit_return_instruction src
generate_tac_instruction (copy dst src) = emit_copy_instruction dst src
generate_tac_instruction (unary_op UnaryType.logical_not dst src) =
    emit_logical_not_instruction dst src
generate_tac_instruction (unary_op op dst src) = emit_unary_op_instruction op dst src
generate_tac_instruction (binary_op BinaryType.logical_and dst src₁ src₂) =
    emit_logical_and_instruction dst src₁ src₂
generate_tac_instruction (binary_op BinaryType.logical_or dst src₁ src₂) =
    emit_logical_or_instruction dst src₁ src₂
generate_tac_instruction (binary_op BinaryType.div dst src₁ src₂) =
    emit_division_instruction BinaryType.div dst src₁ src₂
generate_tac_instruction (binary_op BinaryType.mod_ dst src₁ src₂) =
    emit_division_instruction BinaryType.mod_ dst src₁ src₂
generate_tac_instruction (binary_op op dst src₁ src₂) =
    emit_binary_arith_instruction op dst src₁ src₂
generate_tac_instruction (label_def l) = emit_label_instruction l
generate_tac_instruction (go_to l) = emit_goto_instruction l
generate_tac_instruction (relational_op op dst src₁ src₂) =
    emit_relational_op_instruction op dst src₁ src₂
generate_tac_instruction (conditional_goto op condition l) =
    emit_conditional_jump_instruction op condition l

-- The loop over the instructions, which stops at the first failure.
unfoldable pub generate_instructions : List TacInstruction → Emit
generate_instructions [] sb = (true, sb)
generate_instructions (i ∷ is) sb =
    let (done, sb') = generate_tac_instruction i sb in
    let rest = generate_instructions is sb' in if done then rest else (false, sb')

unfoldable pub prologue : TacFunction → List AsmLine
prologue func =
    globl func.name ∷ entry func.name ∷ pushq ∷ movq ∷ subq (stack_allocation_size func) ∷ []

unfoldable pub epilogue : TacFunction → List AsmLine
epilogue func = (if ltb 0 (stack_allocation_size func) then leave else popq) ∷ retq ∷ []

unfoldable pub generate_tac_function : TacFunction → Emit
unfolding prologue epilogue
generate_tac_function func sb =
    let (done, sb') = generate_instructions func.instructions (sb ++ prologue func) in
    if done then (true, sb' ++ epilogue func) else (false, sb')

unfoldable pub generate_functions : List TacFunction → Emit
generate_functions [] sb = (true, sb)
generate_functions (f ∷ fs) sb =
    let (done, sb') = generate_tac_function f sb in
    let rest = generate_functions fs sb' in if done then rest else (false, sb')

unfoldable pub codegen_generate_program : TacProgram → Emit
unfolding generate_functions
codegen_generate_program tac_program = generate_functions tac_program.functions
