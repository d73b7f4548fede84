-- ===== src/Codegen/Operations.antt =====
-- The lines of divisions and of `&&` and `||` on values, in src/codegen/codegen.c.
use cleric.Common.{
  ℕ, ◌*◌, ◌<◌, ◌≤◌, ◌≡◌, refl, Bool, true, false, not, ◌&&◌, ◌||◌, some, List, [], ◌∷◌, ◌++◌,
  append_assoc,
}
use cleric.Common.Int.{ℤ, pos, IsInt32, truth, is_zero, quotient, remainder, divides_well}
use cleric.Tac.{TacOperand, const, temp, label, invalid, BinaryType}
use cleric.Tac.Machine.{Temps, update, binary_value}
use cleric.Codegen.{divisor_lines, result_register, logical_lines}
use cleric.Codegen.Asm.{
  imm, reg, eax, ecx, AsmLine, movl, idivl, testl_eax, set_al, set_dl, Condition, andb, orb,
}
use cleric.Codegen.Encoding.{encode}
use cleric.Codegen.Lines.{division_lines}
use cleric.Codegen.Machine.{Memory, Cpu, End, crashed, sign, step, perform, goes, bit, set_low_byte}
use cleric.Codegen.Simulation.{
  Next, Has, InFrame, Has-IsInt32, into_eax, load-Has, store_to, store_eax,
}
use cleric.Codegen.Steps.{Go, load_ecx, divide_eax, divide_crashes}
use cleric.Codegen.Values.{andb-bits, orb-bits, truth-IsInt32, binary-IsInt32, if_some}

abbrev pub is_division : BinaryType → Bool
is_division BinaryType.div = true
is_division BinaryType.mod_ = true
is_division _ = false

module _ (code : List AsmLine) (P : End → Type 0) (base d : ℕ) (room : d * 8 ≤ base)
    (above : Memory) (σ : Temps) where
  -- The lines from cltd's effect to the division's, for a divisor in %ecx and for one in the frame.
  divisor_runs :
      (src : TacOperand) (y : ℤ) (m : Cpu) (k : List AsmLine)
      → Has code P base d room above σ src y
      → InFrame code P base d room above σ m
      → IsInt32 m.a
      → divides_well m.a y ≡ true
      → ((c : ℤ) → Go code P k (record m { a = quotient m.a y; c = c; d = remainder m.a y }))
      → Go code P (divisor_lines src (encode src) ++ k) (record m { d = sign m.a })
  unfolding divisor_lines
  divisor_runs (const v) y m k (i, e) r h w next =
      load_ecx code P (record m { d = sign m.a }) (imm v) y (idivl (reg ecx) ∷ k) e
        (divide_eax code P (record m { c = y }) (reg ecx) y k refl h refl w (next y))
  divisor_runs (temp j) y m k p r h w next =
      divide_eax code P m (encode (temp j)) y k refl h
        (load-Has code P base d room above σ (temp j) y (record m { rest = k; d = sign m.a }) p r) w
        (next m.c)
  divisor_runs (label x) y m k p r h w next = absurd p.0
  divisor_runs invalid y m k p r h w next = absurd p.0

  divisor_crashes :
      (src : TacOperand) (y : ℤ) (m : Cpu) (k : List AsmLine)
      → Has code P base d room above σ src y
      → InFrame code P base d room above σ m
      → IsInt32 m.a
      → divides_well m.a y ≡ false
      → P crashed
      → Go code P (divisor_lines src (encode src) ++ k) (record m { d = sign m.a })
  unfolding divisor_lines
  divisor_crashes (const v) y m k (i, e) r h w next =
      load_ecx code P (record m { d = sign m.a }) (imm v) y (idivl (reg ecx) ∷ k) e
        (divide_crashes code P (record m { c = y }) (reg ecx) y k refl h refl w next)
  divisor_crashes (temp j) y m k p r h w next =
      divide_crashes code P m (encode (temp j)) y k refl h
        (load-Has code P base d room above σ (temp j) y (record m { rest = k; d = sign m.a }) p r) w
        next
  divisor_crashes (label x) y m k p r h w next = absurd p.0
  divisor_crashes invalid y m k p r h w next = absurd p.0

  module _ (n : ℕ) (inside : n < d) where
    result_runs :
        (op : BinaryType) (x y w : ℤ) (m : Cpu) (k : List AsmLine)
        → is_division op ≡ true
        → IsInt32 x
        → binary_value op x y ≡ some w
        → InFrame code P base d room above σ m
        → Next code P base d room above k (update σ n w)
        → Go code P
            (movl (reg (result_register op)) (encode (temp n)) ∷ k)
            (record m { a = quotient x y; d = remainder x y })
    unfolding step perform result_register binary_value
    result_runs BinaryType.div x y w m k t i e r next =
        let (g, q) = if_some (divides_well x y) _ _ e in
        goes refl (
          rw q (
            store_to code P base d room above σ n inside w (record m { a = w; d = remainder x y }) k
              (binary-IsInt32 BinaryType.div x y w i e) r next))
    result_runs BinaryType.mod_ x y w m k t i e r next =
        let (g, q) = if_some (divides_well x y) _ _ e in
        goes refl (
          rw q (
            store_to code P base d room above σ n inside w (record m { a = quotient x y; d = w }) k
              (binary-IsInt32 BinaryType.mod_ x y w i e) r next))
    result_runs _ x y w m k t i e r next = cc

    module _ (op : BinaryType) (src₁ src₂ : TacOperand) (x y : ℤ) (k : List AsmLine)
        (t : is_division op ≡ true) (p : Has code P base d room above σ src₁ x)
        (q : Has code P base d room above σ src₂ y) where
      pub division_runs :
          (w : ℤ)
          → divides_well x y ≡ true
          → binary_value op x y ≡ some w
          → Next code P base d room above k (update σ n w)
          → Next code P base d room above (division_lines op (temp n) src₁ src₂ ++ k) σ
      unfolding step perform
      division_runs w g e next m r =
          rw
            (append_assoc (divisor_lines src₂ (encode src₂))
              (movl (reg (result_register op)) (encode (temp n)) ∷ []) k)
            (into_eax code P base d room above σ src₁ x m _ p r (
              goes refl (
                divisor_runs src₂ y (record m { a = x }) _ q r
                  (Has-IsInt32 code P base d room above σ src₁ x m p r) g
                  (λ c.
                    result_runs op x y w (record m { c = c }) k t
                      (Has-IsInt32 code P base d room above σ src₁ x m p r) e r next))))

      pub division_crashes :
          divides_well x y ≡ false
          → P crashed
          → Next code P base d room above (division_lines op (temp n) src₁ src₂ ++ k) σ
      unfolding step perform
      division_crashes g stop m r =
          rw
            (append_assoc (divisor_lines src₂ (encode src₂))
              (movl (reg (result_register op)) (encode (temp n)) ∷ []) k)
            (into_eax code P base d room above σ src₁ x m _ p r (
              goes refl (
                divisor_crashes src₂ y (record m { a = x }) _ q r
                  (Has-IsInt32 code P base d room above σ src₁ x m p r) g stop)))

    -- The lines of && and || up to the one that they differ in.
    tests_run :
        (src₁ src₂ : TacOperand) (x y : ℤ) (m : Cpu) (k : List AsmLine)
        → Has code P base d room above σ src₁ x
        → Has code P base d room above σ src₂ y
        → InFrame code P base d room above σ m
        → Go code P k (record m {
          a = set_low_byte y (bit (not (is_zero y)));
          d = set_low_byte m.d (bit (not (is_zero x)));
          left = y;
          right = pos 0;
        })
        → Go code P
            (movl (encode src₁) (reg eax)
              ∷ testl_eax
              ∷ set_dl Condition.ne
              ∷ movl (encode src₂) (reg eax)
              ∷ testl_eax
              ∷ set_al Condition.ne
              ∷ k)
            m
    unfolding step perform
    tests_run src₁ src₂ x y m k p q r h = into_eax code P base d room above σ src₁ x m _ p r (
        goes refl (
          goes refl (
            into_eax code P base d room above σ src₂ y
              (record m {
                a = x;
                d = set_low_byte m.d (bit (not (is_zero x)));
                left = x;
                right = pos 0;
              })
              _ q r (goes refl (goes refl h)))))

    module _ (src₁ src₂ : TacOperand) (x y : ℤ) (k : List AsmLine)
        (p : Has code P base d room above σ src₁ x)
        (q : Has code P base d room above σ src₂ y) where
      pub and_runs :
          Next code P base d room above k (update σ n (truth (not (is_zero x) && not (is_zero y))))
          → Next code P base d room above
              (logical_lines andb (encode src₁) (encode src₂) (encode (temp n)) ++ k)
              σ
      unfolding step perform logical_lines
      and_runs next m r =
          let v = truth (not (is_zero x) && not (is_zero y)) in
          tests_run src₁ src₂ x y m _ p q r (
            goes refl (
              goes refl (
                rw (andb-bits _ y m.d (not (is_zero x)) (not (is_zero y))) (
                  store_eax code P base d room above σ n inside
                    (record m {
                      a = v;
                      d = set_low_byte m.d (bit (not (is_zero x)));
                      left = y;
                      right = pos 0;
                    })
                    k (truth-IsInt32 _) r next))))

      pub or_runs :
          Next code P base d room above k (update σ n (truth (not (is_zero x) || not (is_zero y))))
          → Next code P base d room above
              (logical_lines orb (encode src₁) (encode src₂) (encode (temp n)) ++ k)
              σ
      unfolding step perform logical_lines
      or_runs next m r =
          let v = truth (not (is_zero x) || not (is_zero y)) in
          tests_run src₁ src₂ x y m _ p q r (
            goes refl (
              goes refl (
                rw (orb-bits _ y m.d (not (is_zero x)) (not (is_zero y))) (
                  store_eax code P base d room above σ n inside
                    (record m {
                      a = v;
                      d = set_low_byte m.d (bit (not (is_zero x)));
                      left = y;
                      right = pos 0;
                    })
                    k (truth-IsInt32 _) r next))))
