-- ===== src/Codegen/Frame.antt =====
-- The stack frame of src/codegen/codegen.c: its size, and which temporaries have their place in it.
use cleric.Common.{
  ℕ, ◌+◌, ◌*◌, ◌%◌, ◌<◌, ◌≤◌, ◌≡◌, true, false, none, some, List, [], ◌∷◌, arith, All, Option-cases,
  inl, inr,
}
use cleric.Tac.{TacOperand, const, temp, label, invalid, TacInstruction, TacFunction}
use cleric.Codegen.{
  calculate_max_temp_id, bytes_for_temps, stack_allocation_size, operand_to_assembly_string,
}
use cleric.Codegen.Asm.{slot}
use cleric.Codegen.Encoding.{max_places, value-Encodes}
use cleric.Common.Int.{pos, IsInt32, wrap_of_IsInt32}
use cleric.Codegen.Ids.{
  operands, is_counted, IsBelow, IsSmall, HasSmallId, loop-IsBelow, loop-none, loop-IsSmall,
}

-- The generator's place of the temporary, 8 bytes at so many below %rbp, lies within the first `size`
-- bytes below %rbp.
abbrev pub InFrame : ℕ → TacOperand → Type 0
InFrame size (temp n) =
    (k : ℕ) × (operand_to_assembly_string (temp n) 64 ≡ some (slot (pos k))) × (8 ≤ k) × (k ≤ size)
InFrame size _ = Unit

bytes_of_small : (m : ℕ) → m < max_places → bytes_for_temps (some m) ≡ (m + 1) * 8
unfolding bytes_for_temps
bytes_of_small m h =
    let small : IsInt32 (pos (m + 1)) = omega arith in
    rw (wrap_of_IsInt32 (pos (m + 1)) small) (omega arith)

module _ (func : TacFunction) (small : IsSmall (calculate_max_temp_id func)) where
  bytes-InFrame :
      (o : TacOperand)
      → HasSmallId o
      → IsBelow (calculate_max_temp_id func) o
      → InFrame (stack_allocation_size func) o
  unfolding stack_allocation_size
  bytes-InFrame (temp n) p h = elim (Option-cases (calculate_max_temp_id func)) [
    | inl e ↦ absurd (rw e at h)
    | inr (m, e) ↦
        let le : n ≤ m = rw e at h in
        let few : m < max_places = rw e at small in
        (
          (n + 1) * 8,
          value-Encodes max_places (temp n) (omega arith) p,
          omega arith,
          rw (e, bytes_of_small m few) (ground arith),
        )
  ]
  bytes-InFrame (const v) p h = tt
  bytes-InFrame (label x) p h = tt
  bytes-InFrame invalid p h = tt

-- The same for all operands of all instructions.
operands-InFrame :
    (func : TacFunction)
    → IsSmall (calculate_max_temp_id func)
    → (os : List TacOperand) → All HasSmallId os
    → All (IsBelow (calculate_max_temp_id func)) os
    → All (InFrame (stack_allocation_size func)) os
operands-InFrame func small [] h k = tt
operands-InFrame func small (o ∷ os) (h, hs) (k, ks) =
    (bytes-InFrame func small o h k, operands-InFrame func small os hs ks)

all-InFrame :
    (func : TacFunction)
    → IsSmall (calculate_max_temp_id func)
    → (is : List TacInstruction) → All (λ i. All HasSmallId (operands i)) is
    → All (λ i. All (IsBelow (calculate_max_temp_id func)) (operands i)) is
    → All (λ i. All (InFrame (stack_allocation_size func)) (operands i)) is
all-InFrame func small [] h k = tt
all-InFrame func small (i ∷ is) (h, hs) (k, ks) =
    (operands-InFrame func small (operands i) h k, all-InFrame func small is hs ks)

-- The frame that generate_tac_function allocates is a multiple of 16 bytes, and at least 32.
pub frame-IsAligned :
    (func : TacFunction) → (stack_allocation_size func % 16 ≡ 0) × (32 ≤ stack_allocation_size func)
unfolding stack_allocation_size
frame-IsAligned func = ground arith

-- In a function of copies, returns, and unary and arithmetic operations whose temporaries have ids
-- below 2^28 - 1, the 8 bytes that operand_to_assembly_string names for a temporary of an instruction
-- lie within the frame that generate_tac_function allocates.
pub frame-InFrame :
    (func : TacFunction)
    → All (λ i. is_counted i ≡ true) func.instructions
    → All (λ i. All HasSmallId (operands i)) func.instructions
    → All (λ i. All (InFrame (stack_allocation_size func)) (operands i)) func.instructions
unfolding calculate_max_temp_id
frame-InFrame func c h =
    let small = loop-IsSmall func.instructions none c h tt in
    all-InFrame func small func.instructions h (loop-IsBelow func.instructions none c)

-- The frame of a function of relational, logical and jump instructions and labels has 32 bytes,
-- whatever temporaries they name.
pub frame-ignored :
    (func : TacFunction)
    → All (λ i. is_counted i ≡ false) func.instructions
    → stack_allocation_size func ≡ 32
unfolding stack_allocation_size calculate_max_temp_id bytes_for_temps
frame-ignored func h = rw (loop-none func.instructions none h)
