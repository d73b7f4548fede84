-- ===== src/Codegen/Ids.antt =====
-- The largest temporary id that calculate_max_temp_id of src/codegen/codegen.c finds.
use cleric.Common.{
  ℕ, ◌<◌, ◌≤◌, ◌≡◌, refl, Bool, true, false, Option, none, some, List, [], ◌∷◌, arith, All,
  All-mono, Bool-cases, inl, inr,
}
use cleric.Tac.{
  TacOperand, const, temp, label, invalid, BinaryType, TacInstruction, copy, unary_op, ret,
  binary_op, relational_op, label_def, go_to, conditional_goto,
}
use cleric.Codegen.{larger_id, max_temp_id_of, max_temp_id_loop}
use cleric.Codegen.Encoding.{max_places}

abbrev pub operands : TacInstruction → List TacOperand
operands (copy dst src) = dst ∷ src ∷ []
operands (unary_op op dst src) = dst ∷ src ∷ []
operands (ret src) = src ∷ []
operands (binary_op op dst src₁ src₂) = dst ∷ src₁ ∷ src₂ ∷ []
operands (relational_op op dst src₁ src₂) = dst ∷ src₁ ∷ src₂ ∷ []
operands (label_def l) = l ∷ []
operands (go_to l) = l ∷ []
operands (conditional_goto op condition l) = condition ∷ l ∷ []

-- Copies, returns, and unary and arithmetic operations.
abbrev pub is_counted : TacInstruction → Bool
is_counted (copy dst src) = true
is_counted (unary_op op dst src) = true
is_counted (ret src) = true
is_counted (binary_op BinaryType.logical_and dst src₁ src₂) = false
is_counted (binary_op BinaryType.logical_or dst src₁ src₂) = false
is_counted (binary_op op dst src₁ src₂) = true
is_counted _ = false

-- `none` is the least.
abbrev IsLe : Option ℕ → Option ℕ → Type 0
IsLe none m = Unit
IsLe (some a) (some b) = a ≤ b
IsLe (some a) none = ⊥

-- A temporary's id is at most the bound.
abbrev pub IsBelow : Option ℕ → TacOperand → Type 0
IsBelow m (temp n) = IsLe (some n) m
IsBelow m _ = Unit

IsLe-trans : (a b c : Option ℕ) → IsLe a b → IsLe b c → IsLe a c
IsLe-trans none b c p q = tt
IsLe-trans (some a) (some b) (some c) p q = omega arith
IsLe-trans (some a) (some b) none p q = absurd q
IsLe-trans (some a) none c p q = absurd p

IsLe-refl : (a : Option ℕ) → IsLe a a
IsLe-refl none = tt
IsLe-refl (some a) = omega arith

IsBelow-mono : (a b : Option ℕ) (o : TacOperand) → IsLe a b → IsBelow a o → IsBelow b o
IsBelow-mono a b (temp n) p h = IsLe-trans (some n) a b h p
IsBelow-mono a b (const v) p h = tt
IsBelow-mono a b (label x) p h = tt
IsBelow-mono a b invalid p h = tt

larger_id-grows : (o : TacOperand) (m : Option ℕ) → IsLe m (larger_id o m)
unfolding larger_id
larger_id-grows (temp n) none = tt
larger_id-grows (temp n) (some m) = ground arith
larger_id-grows (const v) m = IsLe-refl m
larger_id-grows (label x) m = IsLe-refl m
larger_id-grows invalid m = IsLe-refl m

larger_id-IsBelow : (o : TacOperand) (m : Option ℕ) → IsBelow (larger_id o m) o
unfolding larger_id
larger_id-IsBelow (temp n) none = omega arith
larger_id-IsBelow (temp n) (some m) = ground arith
larger_id-IsBelow (const v) m = tt
larger_id-IsBelow (label x) m = tt
larger_id-IsBelow invalid m = tt

-- The maximum over a list of operands, one after the other.
larger : List TacOperand → Option ℕ → Option ℕ
larger [] m = m
larger (o ∷ os) m = larger os (larger_id o m)

larger-grows : (os : List TacOperand) (m : Option ℕ) → IsLe m (larger os m)
unfolding larger
larger-grows [] m = IsLe-refl m
larger-grows (o ∷ os) m =
    IsLe-trans m (larger_id o m) _ (larger_id-grows o m) (larger-grows os (larger_id o m))

larger-IsBelow : (os : List TacOperand) (m : Option ℕ) → All (IsBelow (larger os m)) os
unfolding larger
larger-IsBelow [] m = tt
larger-IsBelow (o ∷ os) m = (
  IsBelow-mono (larger_id o m) _ o (larger-grows os (larger_id o m)) (larger_id-IsBelow o m),
  larger-IsBelow os (larger_id o m),
)

counted :
    (i : TacInstruction) (m : Option ℕ)
    → is_counted i ≡ true
    → max_temp_id_of i m ≡ larger (operands i) m
unfolding max_temp_id_of larger
counted (copy dst src) m h = refl
counted (unary_op op dst src) m h = refl
counted (ret src) m h = refl
counted (binary_op BinaryType.logical_and dst src₁ src₂) m h = cc
counted (binary_op BinaryType.logical_or dst src₁ src₂) m h = cc
counted (binary_op _ dst src₁ src₂) m h = refl
counted _ m h = cc

not_counted : (i : TacInstruction) (m : Option ℕ) → is_counted i ≡ false → max_temp_id_of i m ≡ m
unfolding max_temp_id_of
not_counted (copy dst src) m h = cc
not_counted (unary_op op dst src) m h = cc
not_counted (ret src) m h = cc
not_counted (binary_op BinaryType.logical_and dst src₁ src₂) m h = refl
not_counted (binary_op BinaryType.logical_or dst src₁ src₂) m h = refl
not_counted (binary_op _ dst src₁ src₂) m h = cc
not_counted _ m h = refl

of-grows : (i : TacInstruction) (m : Option ℕ) → IsLe m (max_temp_id_of i m)
of-grows i m = elim (Bool-cases (is_counted i)) [
  | inl e ↦ rw (counted i m e) (larger-grows (operands i) m)
  | inr e ↦ rw (not_counted i m e) (IsLe-refl m)
]

loop-grows : (is : List TacInstruction) (m : Option ℕ) → IsLe m (max_temp_id_loop is m)
unfolding max_temp_id_loop
loop-grows [] m = IsLe-refl m
loop-grows (i ∷ is) m =
    IsLe-trans m (max_temp_id_of i m) _ (of-grows i m) (loop-grows is (max_temp_id_of i m))

pub loop-IsBelow :
    (is : List TacInstruction) (m : Option ℕ)
    → All (λ i. is_counted i ≡ true) is
    → All (λ i. All (IsBelow (max_temp_id_loop is m)) (operands i)) is
unfolding max_temp_id_loop
loop-IsBelow [] m h = tt
loop-IsBelow (i ∷ is) m (h, hs) =
    let m₁ = max_temp_id_of i m in
    let here : All (IsBelow m₁) (operands i) = rw (counted i m h) (larger-IsBelow (operands i) m) in
    (
      All-mono _ _ (λ o. IsBelow-mono m₁ _ o (loop-grows is m₁)) (operands i) here,
      loop-IsBelow is m₁ hs,
    )

pub loop-none :
    (is : List TacInstruction) (m : Option ℕ)
    → All (λ i. is_counted i ≡ false) is
    → max_temp_id_loop is m ≡ m
unfolding max_temp_id_loop
loop-none [] m h = refl
loop-none (i ∷ is) m (h, hs) = rw (not_counted i m h) (loop-none is m hs)

-- The id of a temporary whose offset is a value of `int`.
abbrev pub HasSmallId : TacOperand → Type 0
HasSmallId (temp n) = n < max_places
HasSmallId _ = Unit

abbrev pub IsSmall : Option ℕ → Type 0
IsSmall none = Unit
IsSmall (some m) = m < max_places

larger_id-IsSmall :
    (o : TacOperand) (m : Option ℕ) → HasSmallId o → IsSmall m → IsSmall (larger_id o m)
unfolding larger_id
larger_id-IsSmall (temp n) none h k = h
larger_id-IsSmall (temp n) (some m) h k = ground arith
larger_id-IsSmall (const v) m h k = k
larger_id-IsSmall (label x) m h k = k
larger_id-IsSmall invalid m h k = k

larger-IsSmall :
    (os : List TacOperand) (m : Option ℕ) → All HasSmallId os → IsSmall m → IsSmall (larger os m)
unfolding larger
larger-IsSmall [] m h k = k
larger-IsSmall (o ∷ os) m (h, hs) k =
    larger-IsSmall os (larger_id o m) hs (larger_id-IsSmall o m h k)

pub loop-IsSmall :
    (is : List TacInstruction) (m : Option ℕ)
    → All (λ i. is_counted i ≡ true) is
    → All (λ i. All HasSmallId (operands i)) is
    → IsSmall m
    → IsSmall (max_temp_id_loop is m)
unfolding max_temp_id_loop
loop-IsSmall [] m c h k = k
loop-IsSmall (i ∷ is) m (c, cs) (h, hs) k =
    loop-IsSmall is (max_temp_id_of i m) cs hs
      (rw (counted i m c) (larger-IsSmall (operands i) m h k))
