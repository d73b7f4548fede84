-- ===== src/Codegen/Tests.antt =====
-- The theorems on src/codegen/codegen.c at concrete functions.
use cleric.Common.{◌%◌, ◌≤◌, ◌≡◌, refl, true, List, [], ◌∷◌, ◌++◌, All, arith}
use cleric.Common.Int.{pos, wrap, quotient, divides_well}
use cleric.Common.Text.{codes, text_eq}
use cleric.Tac.{
  const, temp, TacFunction, TacProgram, BinaryType, RelationalType, binary_op, relational_op, copy,
  ret, conditional_goto, if_true_goto, label, label_def,
}
use cleric.Tac.Machine
use cleric.Tac.Machine.{
  Outcome, at, no_temps, execute, binary_value, relational_value, find_label, goes, halts,
}
use cleric.Codegen.{stack_allocation_size, codegen_generate_program, generate_tac_function}
use cleric.Codegen.Asm.{AsmLine, pushq}
use cleric.Codegen.Ids.{operands}
use cleric.Codegen.Frame.{InFrame, frame-IsAligned, frame-InFrame, frame-ignored}
use cleric.Codegen.Machine.{Cpu, Runs}
use cleric.Codegen.Correct.{EndsAs, generate_tac_function_refines}
use cleric.Codegen.Returns.{generate_tac_function-continues}
use cleric.Codegen.Output.{codegen-appends}

abbrev a_function : TacFunction
a_function = record {
  name = codes "main";
  instructions =
      copy (temp 0) (const (pos 2))
      ∷ binary_op BinaryType.div (temp 6) (const (pos 9)) (temp 0)
      ∷ ret (temp 6)
      ∷ [];
  instruction_capacity = 8;
}

-- It names the temporary 9.
abbrev a_relation : TacFunction
a_relation = record {
  name = codes "main";
  instructions = relational_op RelationalType.less (temp 9) (const (pos 1)) (const (pos 2)) ∷ [];
  instruction_capacity = 8;
}

abbrev a_program : TacProgram
a_program = record { functions = a_function ∷ a_relation ∷ []; function_capacity = 8 }

frame-IsAligned_example :
    (stack_allocation_size a_function % 16 ≡ 0) × (32 ≤ stack_allocation_size a_function)
frame-IsAligned_example = frame-IsAligned a_function

frame-InFrame_example :
    All (λ i. All (InFrame (stack_allocation_size a_function)) (operands i)) a_function.instructions
frame-InFrame_example =
    frame-InFrame a_function (refl, (refl, (refl, tt)))
      ((omega arith, (tt, tt)), ((omega arith, (tt, (omega arith, tt))), ((omega arith, tt), tt)))

frame-ignored_example : stack_allocation_size a_relation ≡ 32
frame-ignored_example = frame-ignored a_relation (refl, tt)

codegen-appends_example : codegen_generate_program a_program (pushq ∷ []) ≡ (
  (codegen_generate_program a_program []).0,
  pushq ∷ [] ++ (codegen_generate_program a_program []).1,
)
codegen-appends_example = codegen-appends a_program (pushq ∷ [])

-- Jumps, a division by a constant and a comparison: 9 / 2 where it is less than 5, or else 1.
abbrev a_branch : TacFunction
a_branch = record {
  name = codes "main";
  instructions =
      binary_op BinaryType.div (temp 0) (const (pos 9)) (const (pos 2))
      ∷ relational_op RelationalType.less (temp 1) (temp 0) (const (pos 5))
      ∷ conditional_goto if_true_goto (temp 1) (label (codes "L0"))
      ∷ copy (temp 0) (const (pos 1))
      ∷ label_def (label (codes "L0"))
      ∷ ret (temp 0)
      ∷ [];
  instruction_capacity = 8;
}

a_branch-Runs :
    Machine.Runs a_branch.instructions
      (Outcome.returned (pos 4))
      (at a_branch.instructions no_temps)
unfolding Machine.step execute binary_value relational_value divides_well quotient wrap find_label
    text_eq
a_branch-Runs = goes refl (goes refl (goes refl (halts refl)))

abbrev a_cpu : Cpu
a_cpu = record {
  rest = [];
  a = pos 5;
  c = pos 6;
  d = pos 7;
  r10 = pos 8;
  left = pos 0;
  right = pos 1;
  rsp = 64;
  rbp = 96;
  memory = λ x. pos x;
}

generate_tac_function_refines_example :
    (lines : List AsmLine) × (generate_tac_function a_branch [] ≡ (true, lines))
    × Runs lines (EndsAs a_cpu (Outcome.returned (pos 4))) (record a_cpu { rest = lines })
generate_tac_function_refines_example =
    generate_tac_function_refines a_branch 2 (omega arith)
      (
        (omega arith, omega arith, omega arith),
        (
          (omega arith, omega arith, omega arith),
          (
            (omega arith, omega arith),
            ((omega arith, omega arith), (omega arith, (omega arith, refl))),
          ),
        ),
      )
      (Outcome.returned (pos 4)) tt a_branch-Runs a_cpu (omega arith)

-- return 1; return 2;
abbrev two_returns : TacFunction
two_returns = record {
  name = codes "main";
  instructions = ret (const (pos 1)) ∷ copy (temp 0) (const (pos 2)) ∷ ret (temp 0) ∷ [];
  instruction_capacity = 8;
}

generate_tac_function-continues_example :
    (lines : List AsmLine) × (generate_tac_function two_returns [] ≡ (true, lines))
    × Runs lines (EndsAs a_cpu (Outcome.returned (pos 2))) (record a_cpu { rest = lines })
unfolding Machine.step execute find_label
generate_tac_function-continues_example =
    generate_tac_function-continues 1 (ret (const (pos 1)) ∷ [])
      (copy (temp 0) (const (pos 2)) ∷ ret (temp 0) ∷ []) (omega arith, refl)
      ((omega arith, omega arith), (omega arith, refl)) (λ x j e. refl) two_returns refl
      (omega arith) (pos 1) (Outcome.returned (pos 2)) tt (halts refl) (goes refl (halts refl))
      a_cpu (omega arith)
