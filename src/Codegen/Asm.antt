-- ===== src/Codegen/Asm.antt =====
-- The lines of assembly that src/codegen/codegen.c appends to its string buffer, one constructor
-- for each format string, and their texts.
use cleric.Common.{ℕ, Bool, false, List, [], ◌∷◌, ◌++◌, ◌==◌}
use cleric.Common.Int.{ℤ, int_text}
use cleric.Common.Text.{Text, codes, decimal}

pub data Reg : Type 0 where
  eax ecx edx r10d : Reg

-- A constant, a place in the frame below %rbp, a label, or a register.
pub data AsmOperand : Type 0 where
  imm : ℤ → AsmOperand
  slot : ℤ → AsmOperand
  symbol : Text → AsmOperand
  reg : Reg → AsmOperand

pub data Condition : Type 0 where
  e ne l le g ge : Condition

pub data AsmLine : Type 0 where
  movl : (src dst : AsmOperand) → AsmLine
  -- into %eax
  addl subl imull cmpl : AsmOperand → AsmLine
  negl notl idivl : AsmOperand → AsmLine
  testl_eax cltd andb orb movzbl : AsmLine
  set_al set_dl : Condition → AsmLine
  jump_label jmp jz jnz : AsmOperand → AsmLine
  globl entry : Text → AsmLine
  pushq movq leave popq retq : AsmLine
  subq : ℕ → AsmLine

unfoldable pub reg_text : Reg → Text
reg_text eax = codes "%eax"
reg_text ecx = codes "%ecx"
reg_text edx = codes "%edx"
reg_text r10d = codes "%r10d"

unfoldable pub operand_text : AsmOperand → Text
unfolding reg_text
operand_text (imm v) = b'$' ∷ int_text v
operand_text (slot v) = b'-' ∷ (int_text v ++ codes "(%rbp)")
operand_text (symbol x) = x
operand_text (reg r) = reg_text r

-- The operand's text begins with the character.
unfoldable pub starts_with : ℕ → Text → Bool
starts_with c [] = false
starts_with c (x ∷ xs) = x == c

unfoldable pub first_is : ℕ → AsmOperand → Bool
unfolding starts_with operand_text
first_is c o = starts_with c (operand_text o)

unfoldable pub condition_text : Condition → Text
condition_text Condition.e = codes "sete"
condition_text Condition.ne = codes "setne"
condition_text Condition.l = codes "setl"
condition_text Condition.le = codes "setle"
condition_text Condition.g = codes "setg"
condition_text Condition.ge = codes "setge"

unfoldable pub line_text : AsmLine → Text
unfolding operand_text condition_text
line_text (movl src dst) =
    codes "    movl " ++ (operand_text src ++ (codes ", " ++ (operand_text dst ++ codes "\n")))
line_text (addl o) = codes "    addl " ++ (operand_text o ++ codes ", %eax\n")
line_text (subl o) = codes "    subl " ++ (operand_text o ++ codes ", %eax\n")
line_text (imull o) = codes "    imull " ++ (operand_text o ++ codes ", %eax\n")
line_text (cmpl o) = codes "    cmpl " ++ (operand_text o ++ codes ", %eax\n")
line_text (negl o) = codes "    negl " ++ (operand_text o ++ codes "\n")
line_text (notl o) = codes "    notl " ++ (operand_text o ++ codes "\n")
line_text (idivl o) = codes "    idivl " ++ (operand_text o ++ codes "\n")
line_text testl_eax = codes "    testl %eax, %eax\n"
line_text cltd = codes "    cltd\n"
line_text andb = codes "    andb %dl, %al\n"
line_text orb = codes "    orb %dl, %al\n"
line_text movzbl = codes "    movzbl %al, %eax\n"
line_text (set_al c) = codes "    " ++ (condition_text c ++ codes " %al\n")
line_text (set_dl c) = codes "    " ++ (condition_text c ++ codes " %dl\n")
line_text (jump_label o) = operand_text o ++ codes ":\n"
line_text (jmp o) = codes "    jmp " ++ (operand_text o ++ codes "\n")
line_text (jz o) = codes "    jz " ++ (operand_text o ++ codes "\n")
line_text (jnz o) = codes "    jnz " ++ (operand_text o ++ codes "\n")
line_text (globl name) = codes ".globl _" ++ (name ++ codes "\n")
line_text (entry name) = codes "_" ++ (name ++ codes ":\n")
line_text pushq = codes "    pushq %rbp\n"
line_text movq = codes "    movq %rsp, %rbp\n"
line_text leave = codes "    leave\n"
line_text popq = codes "    popq %rbp\n"
line_text retq = codes "    retq\n"
line_text (subq n) = codes "    subq $" ++ (decimal n ++ codes ", %rsp\n")

unfoldable pub buffer_text : List AsmLine → Text
unfolding line_text
buffer_text [] = []
buffer_text (line ∷ lines) = line_text line ++ buffer_text lines
