-- ===== src/Tac.antt =====
-- The three-address code of src/ir/tac.h and the functions of src/ir/tac.c that build it. A C
-- union is one constructor for each of its members, with the instruction's type as a field where
-- several types share the member. Allocation succeeds: the source ends the process otherwise.
pub mod Create
pub mod Feeds
pub mod Listing
pub mod Machine
pub mod Print
pub mod Rows
pub mod Runs
mod Tests
use cleric.Common.{
  ℕ, ◌*◌, ◌<◌, ◌≤◌, ◌≡◌, refl, List, [], ◌∷◌, ◌++◌, append_assoc, arith, leb, if◌then◌else◌, length,
  length-append,
}
use cleric.Common.Int.{ℤ}
use cleric.Common.Text.{Text}

-- `invalid` is the operand type -1 of create_invalid_operand in src/ir/ast_to_tac.c.
pub data TacOperand : Type 0 where
  const : ℤ → TacOperand
  temp : ℕ → TacOperand
  label : Text → TacOperand
  invalid : TacOperand

pub data UnaryType : Type 0 where
  negate complement logical_not : UnaryType

pub data BinaryType : Type 0 where
  add sub mul div mod_ logical_and logical_or : BinaryType

pub data RelationalType : Type 0 where
  less greater less_equal greater_equal equal not_equal : RelationalType

pub data ConditionalType : Type 0 where
  if_false_goto if_true_goto : ConditionalType

pub data TacInstruction : Type 0 where
  copy : (dst src : TacOperand) → TacInstruction
  unary_op : UnaryType → (dst src : TacOperand) → TacInstruction
  ret : (src : TacOperand) → TacInstruction
  binary_op : BinaryType → (dst src₁ src₂ : TacOperand) → TacInstruction
  relational_op : RelationalType → (dst src₁ src₂ : TacOperand) → TacInstruction
  label_def : TacOperand → TacInstruction
  go_to : (target_label : TacOperand) → TacInstruction
  conditional_goto : ConditionalType → (condition_src target_label : TacOperand) → TacInstruction

-- The instruction array is a list; `instruction_count` is its length.
pub record TacFunction : Type 0 where
  pub name : Text
  pub instructions : List TacInstruction
  pub instruction_capacity : ℕ

pub record TacProgram : Type 0 where
  pub functions : List TacFunction
  pub function_capacity : ℕ

abbrev pub initial_capacity : ℕ
initial_capacity = 8

unfoldable pub create_tac_function : Text → TacFunction
create_tac_function name = record {
  name = name;
  instructions = [];
  instruction_capacity = initial_capacity;
}

unfoldable pub add_instruction_to_function : TacFunction → TacInstruction → TacFunction
add_instruction_to_function func instr = record func {
  instructions = func.instructions ++ instr ∷ [];
  instruction_capacity =
      if leb func.instruction_capacity (length func.instructions)
      then func.instruction_capacity * 2
      else func.instruction_capacity;
}

unfoldable pub create_tac_program : TacProgram
create_tac_program = record { functions = []; function_capacity = initial_capacity }

unfoldable pub add_function_to_program : TacProgram → TacFunction → TacProgram
add_function_to_program prog func = record prog {
  functions = prog.functions ++ func ∷ [];
  function_capacity =
      if leb prog.function_capacity (length prog.functions)
      then prog.function_capacity * 2
      else prog.function_capacity;
}
