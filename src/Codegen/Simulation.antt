-- ===== src/Codegen/Simulation.antt =====
-- The lines of each instruction of src/codegen/codegen.c do what the instruction does: a run goes
-- on behind them with the temporaries of the frame changed as the instruction says.
use cleric.Common.{
  ℕ, ◌+◌, ◌*◌, ◌<◌, ◌≤◌, ◌≡◌, refl, Bool, true, false, some, List, ◌∷◌, ◌++◌, Bool-cases, inl, inr,
  arith,
}
use cleric.Common.Int.{ℤ, pos, IsInt32, is_zero, truth, wrap, wrap-IsInt32, ◌-ℤ◌, complement_ℤ}
use cleric.Tac.{
  TacOperand, const, temp, label, invalid, UnaryType, BinaryType, RelationalType, relational_op,
}
use cleric.Tac.Machine.{Temps, read, update, unary_value, binary_value, relational_value}
use cleric.Codegen.{unary_line, arith_line, set_instruction, same_temp}
use cleric.Codegen.Asm.{imm, reg, eax, r10d, AsmLine, movl, cmpl, set_al, movzbl, Condition}
use cleric.Codegen.Encoding.{encode, IsValue}
use cleric.Codegen.Lines.{lines_of, copy_lines, unary_lines}
use cleric.Codegen.Machine.{Memory, Cpu, holds, End, load, write, address, step, perform, goes}
use cleric.Codegen.Steps.{
  Related, load-encode, value-IsInt32, update-Related, Go, load_eax, load_r10, some-injective,
  compare, is_arith, arith_eax, set_eax,
}
use cleric.Codegen.Values.{
  holds-relational_value, relational-IsInt32, unary-IsInt32, binary-IsInt32,
}

-- The operations of negl and notl.
abbrev is_inverted : UnaryType → Bool
is_inverted UnaryType.logical_not = false
is_inverted _ = true

module _ (code : List AsmLine) (P : End → Type 0) (base d : ℕ) (room : d * 8 ≤ base)
    (above : Memory) where
  same_Has :
      (σ : Temps) (src : TacOperand) (n : ℕ) (x : ℤ)
      → same_temp src (temp n) ≡ true
      → IsValue d src × (read σ src ≡ some x)
      → IsValue d (temp n) × (read σ (temp n) ≡ some x)
  unfolding same_temp
  same_Has σ (temp j) n x e h = let same : j ≡ n = ground (arith) in rw same at h
  same_Has σ (const v) n x e h = cc
  same_Has σ (label y) n x e h = cc
  same_Has σ invalid n x e h = cc

  -- From every machine that has the temporaries in its frame the run ends well.
  abbrev pub Next : List AsmLine → Temps → Type 0
  Next k σ = (m : Cpu) → Related base d above σ m.rbp m.memory → Go code P k m

  module _ (σ : Temps) where
    -- An operand with its value.
    abbrev pub Has : TacOperand → ℤ → Type 0
    Has o v = IsValue d o × (read σ o ≡ some v)

    abbrev pub InFrame : Cpu → Type 0
    InFrame m = Related base d above σ m.rbp m.memory

    pub Has-IsInt32 : (o : TacOperand) (v : ℤ) (m : Cpu) → Has o v → InFrame m → IsInt32 v
    Has-IsInt32 o v m (i, e) r = value-IsInt32 base d room above σ o v m i e r

    pub load-Has :
        (o : TacOperand) (v : ℤ) (m : Cpu) → Has o v → InFrame m → load m (encode o) ≡ some v
    load-Has o v m (i, e) r = load-encode base d room above σ o v m i e r

    pub into_eax :
        (o : TacOperand) (v : ℤ) (m : Cpu) (k : List AsmLine)
        → Has o v
        → InFrame m
        → Go code P k (record m { a = v })
        → Go code P (movl (encode o) (reg eax) ∷ k) m
    into_eax o v m k p r h =
        load_eax code P m (encode o) v k (load-Has o v (record m { rest = k }) p r) h

    into_r10 :
        (o : TacOperand) (v : ℤ) (m : Cpu) (k : List AsmLine)
        → Has o v
        → InFrame m
        → Go code P k (record m { r10 = v })
        → Go code P (movl (encode o) (reg r10d) ∷ k) m
    into_r10 o v m k p r h =
        load_r10 code P m (encode o) v k (load-Has o v (record m { rest = k }) p r) h

    compare_eax :
        (o : TacOperand) (v : ℤ) (m : Cpu) (k : List AsmLine)
        → Has o v
        → InFrame m
        → Go code P k (record m { left = m.a; right = v })
        → Go code P (cmpl (encode o) ∷ k) m
    compare_eax o v m k p r h =
        compare code P m (encode o) v k (load-Has o v (record m { rest = k }) p r) h

    module _ (n : ℕ) (inside : n < d) where
      pub store_to :
          (v : ℤ) (m : Cpu) (k : List AsmLine)
          → IsInt32 v
          → InFrame m
          → Next k (update σ n v)
          → Go code P k (record m { memory = write m.memory (address m.rbp (pos ((n + 1) * 8))) v })
      store_to v m k i r next =
          next (record m { memory = write m.memory (address m.rbp (pos ((n + 1) * 8))) v })
            (update-Related base d room above σ n v m inside i r)

      pub store_eax :
          (m : Cpu) (k : List AsmLine)
          → IsInt32 m.a
          → InFrame m
          → Next k (update σ n m.a)
          → Go code P (movl (reg eax) (encode (temp n)) ∷ k) m
      unfolding step perform
      store_eax m k i r next = goes refl (store_to m.a m k i r next)

      pub copy_runs :
          (src : TacOperand) (v : ℤ) (k : List AsmLine)
          → Has src v
          → Next k (update σ n v)
          → Next (copy_lines (temp n) src ++ k) σ
      unfolding step perform
      copy_runs (const w) v k (i, e) next m r =
          goes refl
            (rw (some-injective e) (store_to v m k (Has-IsInt32 (const w) v m (i, e) r) r next))
      copy_runs (temp j) v k h next m r =
          into_r10 (temp j) v m _ h r
            (goes refl (store_to v (record m { r10 = v }) k (Has-IsInt32 (temp j) v m h r) r next))
      copy_runs (label x) v k h next m r = absurd h.0
      copy_runs invalid v k h next m r = absurd h.0

      -- The value of a condition.
      condition_runs :
          (c : Condition) (v : ℤ) (m : Cpu) (k : List AsmLine)
          → truth (holds c m.left m.right) ≡ v
          → IsInt32 v
          → InFrame m
          → Next k (update σ n v)
          → Go code P (set_al c ∷ movzbl ∷ movl (reg eax) (encode (temp n)) ∷ k) m
      condition_runs c v m k e i r next =
          set_eax code P c m _ (rw e (store_eax (record m { a = v }) k i r next))

      pub relational_runs :
          (op : RelationalType) (src₁ src₂ : TacOperand) (x y : ℤ) (k : List AsmLine)
          → Has src₁ x
          → Has src₂ y
          → Next k (update σ n (relational_value op x y))
          → Next (lines_of (relational_op op (temp n) src₁ src₂) ++ k) σ
      relational_runs op src₁ src₂ x y k p q next m r = into_eax src₁ x m _ p r (
          compare_eax src₂ y (record m { a = x }) _ q r
            (condition_runs (set_instruction op) (relational_value op x y)
              (record m { a = x; left = x; right = y }) k (holds-relational_value op x y)
              (relational-IsInt32 op x y) r next))

      not_runs :
          (src : TacOperand) (x : ℤ) (k : List AsmLine)
          → Has src x
          → Next k (update σ n (unary_value UnaryType.logical_not x))
          → Next (unary_lines UnaryType.logical_not (temp n) src ++ k) σ
      unfolding unary_value
      not_runs src x k p next m r = into_eax src x m _ p r (
          compare code P (record m { a = x }) (imm (pos 0)) (pos 0) _ refl
            (condition_runs Condition.e (truth (is_zero x))
              (record m { a = x; left = x; right = pos 0 }) k refl
              (unary-IsInt32 UnaryType.logical_not x (Has-IsInt32 src x m p r)) r next))

      unary_from :
          (op : UnaryType) (src : TacOperand) (x : ℤ) (k : List AsmLine)
          → is_inverted op ≡ true
          → Has src x
          → Next k (update σ n (unary_value op x))
          → Next
              (movl (encode src) (reg eax)
                ∷ unary_line op (reg eax)
                ∷ movl (reg eax) (encode (temp n))
                ∷ k)
              σ
      unfolding step perform unary_line unary_value
      unary_from UnaryType.negate src x k t p next m r =
          into_eax src x m _ p r
            (goes refl (store_eax (record m { a = wrap (pos 0 -ℤ x) }) k (wrap-IsInt32 _) r next))
      unary_from UnaryType.complement src x k t p next m r = into_eax src x m _ p r (
          goes refl (
            store_eax (record m { a = complement_ℤ x }) k
              (unary-IsInt32 UnaryType.complement x (Has-IsInt32 src x m p r)) r next))
      unary_from UnaryType.logical_not src x k t p next m r = cc

      unary_in_place :
          (op : UnaryType) (x : ℤ) (k : List AsmLine)
          → is_inverted op ≡ true
          → Has (temp n) x
          → Next k (update σ n (unary_value op x))
          → Next (unary_line op (encode (temp n)) ∷ k) σ
      unfolding step perform unary_line unary_value
      unary_in_place UnaryType.negate x k t p next m r = goes refl (
          rw (some-injective (load-Has (temp n) x (record m { rest = k }) p r))
            (store_to _ m k (wrap-IsInt32 _) r next))
      unary_in_place UnaryType.complement x k t p next m r = goes refl (
          rw (some-injective (load-Has (temp n) x (record m { rest = k }) p r)) (
            store_to (complement_ℤ x) m k
              (unary-IsInt32 UnaryType.complement x (Has-IsInt32 (temp n) x m p r)) r next))
      unary_in_place UnaryType.logical_not x k t p next m r = cc

      pub unary_runs :
          (op : UnaryType) (src : TacOperand) (x : ℤ) (k : List AsmLine)
          → Has src x
          → Next k (update σ n (unary_value op x))
          → Next (unary_lines op (temp n) src ++ k) σ
      unary_runs UnaryType.logical_not src x k p next = not_runs src x k p next
      unary_runs _ src x k p next = elim (Bool-cases (same_temp src (temp n))) [
        | inl e ↦ rw e (unary_in_place _ x k refl (same_Has σ src n x e p) next)
        | inr e ↦ rw e (unary_from _ src x k refl p next)
      ]

      pub arith_runs :
          (op : BinaryType) (src₁ src₂ : TacOperand) (x y w : ℤ) (k : List AsmLine)
          → is_arith op ≡ true
          → Has src₁ x
          → Has src₂ y
          → binary_value op x y ≡ some w
          → Next k (update σ n w)
          → Next
              (movl (encode src₁) (reg eax)
                ∷ arith_line op (encode src₂)
                ∷ movl (reg eax) (encode (temp n))
                ∷ k)
              σ
      arith_runs op src₁ src₂ x y w k t p q e next m r = into_eax src₁ x m _ p r (
          arith_eax code P op (record m { a = x }) (encode src₂) y w _ t
            (load-Has src₂ y (record m { rest = movl (reg eax) (encode (temp n)) ∷ k; a = x }) q r)
            e
            (store_eax (record m { a = w }) k (binary-IsInt32 op x y w (Has-IsInt32 src₁ x m p r) e)
              r next))
