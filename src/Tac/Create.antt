-- ===== src/Tac/Create.antt =====
-- The functions of src/ir/tac.c that create operands, and instructions in an arena. `size` is the
-- sizeof of TacInstruction. The source ends the process where the arena gives no memory, which is
-- `none` here.
use cleric.Common.{ℕ, Option, none, some}
use cleric.Common.Int.{ℤ}
use cleric.Common.Text.{Text}
use cleric.Arena.{Arena, arena_alloc}
use cleric.Tac.{
  TacOperand, const, temp, label, UnaryType, BinaryType, RelationalType, ConditionalType,
  TacInstruction, copy, unary_op, ret, binary_op, relational_op, label_def, go_to, conditional_goto,
}

abbrev pub create_tac_operand_const : ℤ → TacOperand
create_tac_operand_const value = const value

abbrev pub create_tac_operand_temp : ℕ → TacOperand
create_tac_operand_temp temp_id = temp temp_id

abbrev pub create_tac_operand_label : Text → TacOperand
create_tac_operand_label name = label name

-- What an allocation makes of an instruction.
abbrev pub allocated : Option ℕ → TacInstruction → Option TacInstruction
allocated none instr = none
allocated (some address) instr = some instr

-- The instruction with its operands, and the arena.
unfoldable pub create_base_instruction : ℕ → TacInstruction → Arena → Option TacInstruction × Arena
create_base_instruction size instr arena =
    let (address, arena') = arena_alloc arena size in (allocated address instr, arena')

abbrev Created : Type 0
Created = Arena → Option TacInstruction × Arena

abbrev pub create_tac_instruction_copy : ℕ → TacOperand → TacOperand → Created
create_tac_instruction_copy size dst src = create_base_instruction size (copy dst src)

abbrev pub create_tac_instruction_negate : ℕ → TacOperand → TacOperand → Created
create_tac_instruction_negate size dst src =
    create_base_instruction size (unary_op UnaryType.negate dst src)

abbrev pub create_tac_instruction_complement : ℕ → TacOperand → TacOperand → Created
create_tac_instruction_complement size dst src =
    create_base_instruction size (unary_op UnaryType.complement dst src)

abbrev pub create_tac_instruction_logical_not : ℕ → TacOperand → TacOperand → Created
create_tac_instruction_logical_not size dst src =
    create_base_instruction size (unary_op UnaryType.logical_not dst src)

abbrev pub create_tac_instruction_return : ℕ → TacOperand → Created
create_tac_instruction_return size src = create_base_instruction size (ret src)

abbrev pub create_tac_instruction_add : ℕ → TacOperand → TacOperand → TacOperand → Created
create_tac_instruction_add size dst src₁ src₂ =
    create_base_instruction size (binary_op BinaryType.add dst src₁ src₂)

abbrev pub create_tac_instruction_sub : ℕ → TacOperand → TacOperand → TacOperand → Created
create_tac_instruction_sub size dst src₁ src₂ =
    create_base_instruction size (binary_op BinaryType.sub dst src₁ src₂)

abbrev pub create_tac_instruction_mul : ℕ → TacOperand → TacOperand → TacOperand → Created
create_tac_instruction_mul size dst src₁ src₂ =
    create_base_instruction size (binary_op BinaryType.mul dst src₁ src₂)

abbrev pub create_tac_instruction_div : ℕ → TacOperand → TacOperand → TacOperand → Created
create_tac_instruction_div size dst src₁ src₂ =
    create_base_instruction size (binary_op BinaryType.div dst src₁ src₂)

abbrev pub create_tac_instruction_mod : ℕ → TacOperand → TacOperand → TacOperand → Created
create_tac_instruction_mod size dst src₁ src₂ =
    create_base_instruction size (binary_op BinaryType.mod_ dst src₁ src₂)

abbrev pub create_tac_instruction_less : ℕ → TacOperand → TacOperand → TacOperand → Created
create_tac_instruction_less size dst src₁ src₂ =
    create_base_instruction size (relational_op RelationalType.less dst src₁ src₂)

abbrev pub create_tac_instruction_greater : ℕ → TacOperand → TacOperand → TacOperand → Created
create_tac_instruction_greater size dst src₁ src₂ =
    create_base_instruction size (relational_op RelationalType.greater dst src₁ src₂)

abbrev pub create_tac_instruction_less_equal : ℕ → TacOperand → TacOperand → TacOperand → Created
create_tac_instruction_less_equal size dst src₁ src₂ =
    create_base_instruction size (relational_op RelationalType.less_equal dst src₁ src₂)

abbrev pub create_tac_instruction_greater_equal : ℕ → TacOperand → TacOperand → TacOperand → Created
create_tac_instruction_greater_equal size dst src₁ src₂ =
    create_base_instruction size (relational_op RelationalType.greater_equal dst src₁ src₂)

abbrev pub create_tac_instruction_equal : ℕ → TacOperand → TacOperand → TacOperand → Created
create_tac_instruction_equal size dst src₁ src₂ =
    create_base_instruction size (relational_op RelationalType.equal dst src₁ src₂)

abbrev pub create_tac_instruction_not_equal : ℕ → TacOperand → TacOperand → TacOperand → Created
create_tac_instruction_not_equal size dst src₁ src₂ =
    create_base_instruction size (relational_op RelationalType.not_equal dst src₁ src₂)

abbrev pub create_tac_instruction_label : ℕ → TacOperand → Created
create_tac_instruction_label size label_name = create_base_instruction size (label_def label_name)

abbrev pub create_tac_instruction_goto : ℕ → TacOperand → Created
create_tac_instruction_goto size target_label = create_base_instruction size (go_to target_label)

abbrev pub create_tac_instruction_if_false_goto : ℕ → TacOperand → TacOperand → Created
create_tac_instruction_if_false_goto size condition_src target_label =
    create_base_instruction size
      (conditional_goto ConditionalType.if_false_goto condition_src target_label)

abbrev pub create_tac_instruction_if_true_goto : ℕ → TacOperand → TacOperand → Created
create_tac_instruction_if_true_goto size condition_src target_label =
    create_base_instruction size
      (conditional_goto ConditionalType.if_true_goto condition_src target_label)

abbrev pub create_tac_instruction_logical_and : ℕ → TacOperand → TacOperand → TacOperand → Created
create_tac_instruction_logical_and size dst src₁ src₂ =
    create_base_instruction size (binary_op BinaryType.logical_and dst src₁ src₂)

abbrev pub create_tac_instruction_logical_or : ℕ → TacOperand → TacOperand → TacOperand → Created
create_tac_instruction_logical_or size dst src₁ src₂ =
    create_base_instruction size (binary_op BinaryType.logical_or dst src₁ src₂)
