-- ===== src/Codegen/Encoding.antt =====
-- The lines of src/codegen/codegen.c for instructions whose operands fit the generator's local
-- buffers of 64 bytes: an `int`, a place in a frame of less than 2^31 bytes, a short label.
use cleric.Common.{
  ℕ, zero, suc, ◌+◌, ◌-◌, ◌*◌, ◌/◌, ◌%◌, ◌^◌, ◌<◌, ◌≤◌, ◌≡◌, some, [], ◌∷◌, arith, length,
  length-append,
}
use cleric.Common.Int.{ℤ, pos, negsuc, IsInt32, wrap_of_IsInt32, int_text}
use cleric.Common.Text.{Text, decimal, decimal_loop, codes}
use cleric.Tac.{
  TacOperand, const, temp, label, invalid, TacInstruction, copy, unary_op, ret, binary_op,
  relational_op, label_def, go_to, conditional_goto,
}
use cleric.Codegen.{fits, operand_to_assembly_string}
use cleric.Codegen.Asm.{AsmOperand, imm, slot, symbol, operand_text}

-- A number below 10 ^ k has at most k digits, and one at the least.
limit : ℕ → ℕ
limit zero = 1
limit (suc k) = 10 * limit k

length-decimal_loop :
    (f k n : ℕ) (acc : Text)
    → n < limit (suc k)
    → length (decimal_loop f n acc) ≤ suc k + length acc
unfolding decimal_loop limit
length-decimal_loop zero k n acc h = omega arith
length-decimal_loop (suc f) zero n acc h = ground arith
length-decimal_loop (suc f) (suc k) n acc h =
    ground (arith, length-decimal_loop f k (n / 10) ((48 + n % 10) ∷ acc))

pub length-decimal : (n : ℕ) → n ≤ 2 ^ 31 → length (decimal n) ≤ 10
unfolding decimal limit
length-decimal n h = length-decimal_loop (n + 1) 9 n [] (omega arith)

length-int_text : (v : ℤ) → IsInt32 v → length (int_text v) ≤ 11
unfolding int_text
length-int_text (pos n) h = omega (arith, length-decimal n)
length-int_text (negsuc n) h = omega (arith, length-decimal (suc n))

-- What the generator makes of an operand that fits.
abbrev pub encode : TacOperand → AsmOperand
encode (const v) = imm v
encode (temp n) = slot (pos ((n + 1) * 8))
encode (label x) = symbol x
encode invalid = symbol []

-- An operand with a value, in a frame of `d` places.
abbrev pub IsValue : ℕ → TacOperand → Type 0
IsValue d (const v) = IsInt32 v
IsValue d (temp n) = n < d
IsValue d _ = ⊥

abbrev pub IsPlace : ℕ → TacOperand → Type 0
IsPlace d (temp n) = n < d
IsPlace d _ = ⊥

abbrev pub IsTarget : TacOperand → Type 0
IsTarget (label x) = length x < 64
IsTarget _ = ⊥

abbrev pub IsLegal : ℕ → TacInstruction → Type 0
IsLegal d (copy dst src) = IsPlace d dst × IsValue d src
IsLegal d (unary_op op dst src) = IsPlace d dst × IsValue d src
IsLegal d (ret src) = IsValue d src
IsLegal d (binary_op op dst src₁ src₂) = IsPlace d dst × IsValue d src₁ × IsValue d src₂
IsLegal d (relational_op op dst src₁ src₂) = IsPlace d dst × IsValue d src₁ × IsValue d src₂
IsLegal d (label_def l) = IsTarget l
IsLegal d (go_to l) = IsTarget l
IsLegal d (conditional_goto op condition l) = IsValue d condition × IsTarget l

-- The largest number of places whose offsets are values of `int`.
abbrev pub max_places : ℕ
max_places = 2 ^ 28 - 1

abbrev pub Encodes : TacOperand → Type 0
Encodes o = operand_to_assembly_string o 64 ≡ some (encode o)

fits-short : (o : AsmOperand) → length (operand_text o) < 64 → fits 64 o ≡ some o
unfolding fits
fits-short o h = ground arith

pub value-Encodes : (d : ℕ) (o : TacOperand) → d ≤ max_places → IsValue d o → Encodes o
unfolding operand_to_assembly_string operand_text
value-Encodes d (const v) b h = fits-short (imm v) (omega (arith, length-int_text v))
value-Encodes d (temp n) b h =
    let k : ℤ = pos ((n + 1) * 8) in
    let small : IsInt32 k = omega arith in
    rw (wrap_of_IsInt32 k small) (
      fits-short (slot k)
        (omega (arith, length-int_text k small, length-append (int_text k) (codes "(%rbp)"))))
value-Encodes d (label x) b h = absurd h
value-Encodes d invalid b h = absurd h

pub place-Encodes : (d : ℕ) (o : TacOperand) → d ≤ max_places → IsPlace d o → Encodes o
place-Encodes d (temp n) b h = value-Encodes d (temp n) b h
place-Encodes d (const v) b h = absurd h
place-Encodes d (label x) b h = absurd h
place-Encodes d invalid b h = absurd h

pub target-Encodes : (o : TacOperand) → IsTarget o → Encodes o
unfolding operand_to_assembly_string operand_text
target-Encodes (label x) h = fits-short (symbol x) h
target-Encodes (const v) h = absurd h
target-Encodes (temp n) h = absurd h
target-Encodes invalid h = absurd h
