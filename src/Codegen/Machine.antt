-- ===== src/Codegen/Machine.antt =====
-- What the lines that src/codegen/codegen.c appends do on the target: the AT&T instructions of a
-- 64-bit x86 processor, on the registers and flags that the generated code names. A jump goes on
-- behind the first label line with its name; `retq` ends the run. A register holds 32 bits as a
-- signed integer, a cell of memory the 8 bytes at its address. A line means nothing where the target
-- has no encoding for its kinds of operands: a `movl` from memory to memory or to a constant, a
-- `negl`, `notl` or `idivl` of a constant. The range of a constant is not looked at.
use cleric.Common.{
  ℕ, zero, suc, ◌+◌, ◌-◌, ◌*◌, ◌/◌, ◌%◌, ◌^◌, ◌≡◌, Bool, true, false, not, Option, none, some, List,
  [], ◌∷◌, ◌==◌, if◌then◌else◌, bit_and, bit_or,
}
use cleric.Common.Int.{
  ℤ, pos, negsuc, ◌+ℤ◌, ◌-ℤ◌, ◌*ℤ◌, ltb_ℤ, ◌==ℤ◌, complement_ℤ, wrap, quotient, remainder,
  divides_well,
}
use cleric.Common.Text.{Text, text_eq}
use cleric.Codegen.Asm.{
  Reg, eax, ecx, edx, r10d, AsmOperand, imm, slot, symbol, reg, Condition, AsmLine, movl, addl,
  subl, imull, cmpl, negl, notl, idivl, testl_eax, cltd, andb, orb, movzbl, set_al, set_dl,
  jump_label, jmp, jz, jnz, globl, entry, pushq, movq, leave, popq, retq, subq,
}

abbrev pub Memory : Type 0
Memory = ℕ → ℤ

-- `left` and `right` are the operands of the last comparison, which the flags stand for.
pub record Cpu : Type 0 where
  pub rest : List AsmLine
  pub a : ℤ
  pub c : ℤ
  pub d : ℤ
  pub r10 : ℤ
  pub left : ℤ
  pub right : ℤ
  pub rsp : ℕ
  pub rbp : ℕ
  pub memory : Memory

-- How a run ends: at `retq` (to the address that it takes from the stack), at a division that
-- raises an exception, or at a line that means nothing.
pub data End : Type 0 where
  exited : (to : ℤ) → Cpu → End
  crashed lost : End

pub data Progress : Type 0 where
  running : Cpu → Progress
  ended : End → Progress

abbrev pub write : Memory → ℕ → ℤ → Memory
write memory address v x = if address == x then v else memory x

abbrev pub register : Cpu → Reg → ℤ
register m eax = m.a
register m ecx = m.c
register m edx = m.d
register m r10d = m.r10

-- `slot` is the text `-%d(%rbp)`.
abbrev pub address : ℕ → ℤ → ℕ
address rbp (pos n) = rbp - n
address rbp (negsuc n) = rbp + suc n

abbrev pub load : Cpu → AsmOperand → Option ℤ
load m (imm v) = some v
load m (slot n) = some (m.memory (address m.rbp n))
load m (symbol x) = none
load m (reg r) = some (register m r)

abbrev pub store : AsmOperand → ℤ → Cpu → Progress
store (slot n) v m = running (record m { memory = write m.memory (address m.rbp n) v })
store (reg eax) v m = running (record m { a = v })
store (reg ecx) v m = running (record m { c = v })
store (reg edx) v m = running (record m { d = v })
store (reg r10d) v m = running (record m { r10 = v })
store _ v m = ended lost

abbrev pub is_imm : AsmOperand → Bool
is_imm (imm v) = true
is_imm _ = false

abbrev pub is_slot : AsmOperand → Bool
is_slot (slot n) = true
is_slot _ = false

-- At most one of the operands is in memory.
abbrev pub is_movable : (dst src : AsmOperand) → Bool
is_movable (slot n) src = not (is_slot src)
is_movable _ src = true

abbrev pub with_load : Option ℤ → (ℤ → Progress) → Progress
with_load none f = ended lost
with_load (some v) f = f v

abbrev pub low_byte : ℤ → ℕ
low_byte (pos n) = n % 256
low_byte (negsuc n) = 255 - n % 256

abbrev pub set_low_byte : ℤ → ℕ → ℤ
set_low_byte (pos n) b = pos (n / 256 * 256 + b)
set_low_byte (negsuc n) b = negsuc (n / 256 * 256 + (255 - b))

-- The flags of a comparison of `left` with `right`.
abbrev pub holds : Condition → ℤ → ℤ → Bool
holds Condition.e x y = x ==ℤ y
holds Condition.ne x y = not (x ==ℤ y)
holds Condition.l x y = ltb_ℤ x y
holds Condition.le x y = not (ltb_ℤ y x)
holds Condition.g x y = ltb_ℤ y x
holds Condition.ge x y = not (ltb_ℤ x y)

abbrev pub bit : Bool → ℕ
bit b = if b then 1 else 0

abbrev pub sign : ℤ → ℤ
sign (pos n) = pos 0
sign (negsuc n) = negsuc 0

-- The dividend %edx:%eax: the high half with its sign, the low half without.
unfoldable pub dividend : ℤ → ℤ → ℤ
dividend high (pos n) = (high *ℤ pos (2 ^ 32)) +ℤ pos n
dividend high (negsuc n) = (high *ℤ pos (2 ^ 32)) +ℤ pos (2 ^ 32 - suc n)

unfoldable pub divide : ℤ → ℤ → Cpu → Progress
divide n v m =
    if divides_well n v
    then running (record m { a = quotient n v; d = remainder n v })
    else ended crashed

unfoldable pub find_line : Text → List AsmLine → Option (List AsmLine)
find_line x [] = none
find_line x (jump_label (symbol y) ∷ k) = if text_eq y x then some k else find_line x k
find_line x (_ ∷ k) = find_line x k

abbrev pub go_on : Option (List AsmLine) → Cpu → Progress
go_on none m = ended lost
go_on (some k) m = running (record m { rest = k })

abbrev pub jump_to : List AsmLine → AsmOperand → Cpu → Progress
jump_to code (symbol x) m = go_on (find_line x code) m
jump_to code _ m = ended lost

-- The frame pointer that a cell of the stack holds.
abbrev pub restore : ℤ → Cpu → Progress
restore (pos n) m = running (record m { rbp = n })
restore (negsuc n) m = ended lost

-- One line of the code; `m` is the machine behind it.
unfoldable pub perform : List AsmLine → AsmLine → Cpu → Progress
perform code (movl src dst) m =
    if is_movable dst src then with_load (load m src) (λ v. store dst v m) else ended lost
perform code (addl o) m = with_load (load m o) λ v. running (record m { a = wrap (m.a +ℤ v) })
perform code (subl o) m = with_load (load m o) λ v. running (record m { a = wrap (m.a -ℤ v) })
perform code (imull o) m = with_load (load m o) λ v. running (record m { a = wrap (m.a *ℤ v) })
perform code (cmpl o) m = with_load (load m o) λ v. running (record m { left = m.a; right = v })
perform code (negl o) m = with_load (load m o) λ v. store o (wrap (pos 0 -ℤ v)) m
perform code (notl o) m = with_load (load m o) λ v. store o (complement_ℤ v) m
perform code (idivl o) m =
    if is_imm o then ended lost else with_load (load m o) (λ v. divide (dividend m.d m.a) v m)
perform code testl_eax m = running (record m { left = m.a; right = pos 0 })
perform code cltd m = running (record m { d = sign m.a })
perform code andb m =
    running (record m { a = set_low_byte m.a (bit_and (low_byte m.a) (low_byte m.d)) })
perform code orb m =
    running (record m { a = set_low_byte m.a (bit_or (low_byte m.a) (low_byte m.d)) })
perform code movzbl m = running (record m { a = pos (low_byte m.a) })
perform code (set_al c) m =
    running (record m { a = set_low_byte m.a (bit (holds c m.left m.right)) })
perform code (set_dl c) m =
    running (record m { d = set_low_byte m.d (bit (holds c m.left m.right)) })
perform code (jump_label o) m = running m
perform code (jmp o) m = jump_to code o m
perform code (jz o) m = if m.left ==ℤ m.right then jump_to code o m else running m
perform code (jnz o) m = if m.left ==ℤ m.right then running m else jump_to code o m
perform code (globl name) m = running m
perform code (entry name) m = running m
perform code pushq m =
    running (record m { rsp = m.rsp - 8; memory = write m.memory (m.rsp - 8) (pos m.rbp) })
perform code movq m = running (record m { rbp = m.rsp })
perform code (subq n) m = running (record m { rsp = m.rsp - n })
perform code leave m = restore (m.memory m.rbp) (record m { rsp = m.rbp + 8 })
perform code popq m = restore (m.memory m.rsp) (record m { rsp = m.rsp + 8 })
perform code retq m = ended (exited (m.memory m.rsp) (record m { rsp = m.rsp + 8 }))

unfoldable pub step : List AsmLine → Cpu → Progress
unfolding perform
step code m = elim m.rest [ [] ↦ ended lost | i ∷ k ↦ perform code i (record m { rest = k }) ]

-- A run of the code that ends as `P` says.
pub data Runs (code : List AsmLine) (P : End → Type 0) : Cpu → Type 0 where
  stops : {m : Cpu} (e : End) → step code m ≡ ended e → P e → Runs code P m
  goes : {m n : Cpu} → step code m ≡ running n → Runs code P n → Runs code P m

-- The same with fuel; `none` means that the fuel ran out.
unfoldable pub run : ℕ → List AsmLine → Cpu → Option End
run zero code m = none
run (suc f) code m = elim (step code m) [ ended e ↦ some e | running n ↦ run f code n ]
