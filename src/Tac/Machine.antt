-- ===== src/Tac/Machine.antt =====
-- What three-address code does, by the comments of src/ir/tac.h: `dst = src1 + src2`, `if_false
-- condition_src goto label_name` and so on. A machine holds the code that is left to run and the
-- temporaries; a jump goes on behind the first definition of its label in the whole function.
use cleric.Common.{
  ℕ, zero, suc, ◌≡◌, Bool, not, ◌||◌, ◌&&◌, Option, none, some, List, [], ◌∷◌, ◌==◌, if◌then◌else◌,
}
use cleric.Common.Int.{
  ℤ, pos, ◌+ℤ◌, ◌-ℤ◌, ◌*ℤ◌, ltb_ℤ, ◌==ℤ◌, complement_ℤ, wrap, truth, is_zero, quotient, remainder,
  divides_well,
}
use cleric.Common.Text.{Text, text_eq}
use cleric.Tac.{
  TacOperand, const, temp, label, invalid, UnaryType, BinaryType, RelationalType, ConditionalType,
  if_false_goto, if_true_goto, TacInstruction, copy, unary_op, ret, binary_op, relational_op,
  label_def, go_to, conditional_goto,
}

abbrev pub Temps : Type 0
Temps = ℕ → Option ℤ

pub record State : Type 0 where
  pub rest : List TacInstruction
  pub temps : Temps

abbrev pub at : List TacInstruction → Temps → State
at k σ = record { rest = k; temps = σ }

-- How a run ends: at a return, past the last instruction, at a division that has no value, or
-- at an instruction that means nothing (an unset temporary, a missing label).
pub data Outcome : Type 0 where
  returned : ℤ → Outcome
  fell_off fault stuck : Outcome

pub data Status : Type 0 where
  running : State → Status
  halted : Outcome → Status

unfoldable pub unary_value : UnaryType → ℤ → ℤ
unary_value UnaryType.negate a = wrap (pos 0 -ℤ a)
unary_value UnaryType.complement a = complement_ℤ a
unary_value UnaryType.logical_not a = truth (is_zero a)

unfoldable pub binary_value : BinaryType → ℤ → ℤ → Option ℤ
binary_value BinaryType.add a b = some (wrap (a +ℤ b))
binary_value BinaryType.sub a b = some (wrap (a -ℤ b))
binary_value BinaryType.mul a b = some (wrap (a *ℤ b))
binary_value BinaryType.div a b = if divides_well a b then some (quotient a b) else none
binary_value BinaryType.mod_ a b = if divides_well a b then some (remainder a b) else none
binary_value BinaryType.logical_and a b = some (truth (not (is_zero a) && not (is_zero b)))
binary_value BinaryType.logical_or a b = some (truth (not (is_zero a) || not (is_zero b)))

unfoldable pub relational_value : RelationalType → ℤ → ℤ → ℤ
relational_value RelationalType.less a b = truth (ltb_ℤ a b)
relational_value RelationalType.greater a b = truth (ltb_ℤ b a)
relational_value RelationalType.less_equal a b = truth (not (ltb_ℤ b a))
relational_value RelationalType.greater_equal a b = truth (not (ltb_ℤ a b))
relational_value RelationalType.equal a b = truth (a ==ℤ b)
relational_value RelationalType.not_equal a b = truth (not (a ==ℤ b))

abbrev pub read : Temps → TacOperand → Option ℤ
read σ (const v) = some v
read σ (temp n) = σ n
read σ (label x) = none
read σ invalid = none

abbrev pub update : Temps → ℕ → ℤ → Temps
update σ n v m = if n == m then some v else σ m

unfoldable pub find_label : Text → List TacInstruction → Option (List TacInstruction)
find_label x [] = none
find_label x (label_def (label y) ∷ k) = if text_eq y x then some k else find_label x k
find_label x (_ ∷ k) = find_label x k

-- `none` for an operand with no value.
abbrev pub with_value : Option ℤ → (ℤ → Status) → Status
with_value none f = halted stuck
with_value (some v) f = f v

abbrev pub assign : TacOperand → ℤ → State → Status
assign (temp n) v s = running (record s { temps = update s.temps n v })
assign _ v s = halted stuck

abbrev pub resume : Option (List TacInstruction) → Temps → Status
resume none σ = halted stuck
resume (some k) σ = running (at k σ)

abbrev pub jump : List TacInstruction → TacOperand → Temps → Status
jump code (label x) σ = resume (find_label x code) σ
jump code _ σ = halted stuck

abbrev pub taken : ConditionalType → ℤ → Bool
taken if_false_goto v = is_zero v
taken if_true_goto v = not (is_zero v)

-- An assignment of a value that may be missing.
abbrev pub assign_or_fault : TacOperand → Option ℤ → State → Status
assign_or_fault dst none s = halted fault
assign_or_fault dst (some v) s = assign dst v s

-- One instruction of the function with the instructions `code`; `s` is the machine behind it.
unfoldable pub execute : List TacInstruction → TacInstruction → State → Status
execute code (copy dst src) s = with_value (read s.temps src) λ v. assign dst v s
execute code (unary_op op dst src) s =
    with_value (read s.temps src) λ v. assign dst (unary_value op v) s
execute code (ret src) s = with_value (read s.temps src) λ v. halted (returned v)
execute code (binary_op op dst src₁ src₂) s =
    with_value (read s.temps src₁)
      λ a. with_value (read s.temps src₂) λ b. assign_or_fault dst (binary_value op a b) s
execute code (relational_op op dst src₁ src₂) s =
    with_value (read s.temps src₁)
      λ a. with_value (read s.temps src₂) λ b. assign dst (relational_value op a b) s
execute code (label_def l) s = running s
execute code (go_to l) s = jump code l s.temps
execute code (conditional_goto op condition l) s =
    with_value (read s.temps condition) λ v. if taken op v then jump code l s.temps else running s

unfoldable pub step : List TacInstruction → State → Status
step code s = elim s.rest [ [] ↦ halted fell_off | i ∷ k ↦ execute code i (at k s.temps) ]

-- A run from a state to its outcome.
pub data Runs (code : List TacInstruction) (r : Outcome) : State → Type 0 where
  halts : {s : State} → step code s ≡ halted r → Runs code r s
  goes : {s t : State} → step code s ≡ running t → Runs code r t → Runs code r s

abbrev pub no_temps : Temps
no_temps n = none

-- The same run with fuel; `none` means that the fuel ran out.
unfoldable pub run : ℕ → List TacInstruction → State → Option Outcome
run zero code s = none
run (suc f) code s = elim (step code s) [ halted r ↦ some r | running t ↦ run f code t ]
