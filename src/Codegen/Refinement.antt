-- ===== src/Codegen/Refinement.antt =====
-- The code that src/codegen/codegen.c generates for a function refines the function's three-address
-- code: its run on the target follows the run of the instructions.
use cleric.Common.{
  ℕ, ◌*◌, ◌≤◌, ◌≡◌, refl, true, Option, none, some, List, [], ◌∷◌, ◌++◌, append_assoc, Option-cases,
  Bool-cases, inl, inr, if◌then◌else◌,
}
use cleric.Common.Int.{ℤ, pos, is_zero, divides_well, quotient, remainder}
use cleric.Common.Text.{Text}
use cleric.Tac.{
  TacOperand, temp, label, UnaryType, BinaryType, RelationalType, ConditionalType, if_false_goto,
  if_true_goto, TacInstruction, copy, unary_op, ret, binary_op, relational_op, label_def, go_to,
  conditional_goto,
}
use cleric.Tac.Machine.{
  Temps, at, Outcome, Status, running, halted, fault, fell_off, stuck, read, find_label, with_value,
  execute, step, taken, jump, binary_value,
}
use cleric.Codegen.{jump_line}
use cleric.Codegen.Asm.{AsmLine, symbol}
use cleric.Codegen.Encoding.{IsLegal}
use cleric.Codegen.Lines.{lines_of, all_lines}
use cleric.Codegen.Machine as Cpu
use cleric.Codegen.Machine.{Memory, Cpu, End, crashed, find_line, perform}
use cleric.Codegen.Operations.{is_division, division_runs, division_crashes, and_runs, or_runs}
use cleric.Codegen.Simulation.{Next, into_eax, copy_runs, unary_runs, arith_runs, relational_runs}
use cleric.Codegen.Steps.{Related, Go}
use cleric.Codegen.Targets.{EndsInReturn}

module _ (c : List TacInstruction) (code post : List AsmLine) (P : End → Type 0) (base d : ℕ)
    (room : d * 8 ≤ base) (above : Memory) where
  -- The run goes on behind the function's instructions with the value in %eax.
  abbrev pub Exits : ℤ → Type 0
  Exits v =
      (m : Cpu)
      → m.rbp ≡ base
      → ((x : ℕ) → base ≤ x → m.memory x ≡ above x)
      → m.a ≡ v
      → Go code P post m

  -- What is left to show where the function's machine is in the status.
  abbrev pub After : Status → Type 0
  After (running t) = Next code P base d room above (all_lines t.rest ++ post) t.temps
  After (halted (Outcome.returned v)) = Exits v
  After (halted fault) = P crashed
  After (halted fell_off) = ⊥
  After (halted stuck) = ⊥

  reads :
      (o : Option ℤ) (f : ℤ → Status)
      → After (with_value o f)
      → (v : ℤ) × (o ≡ some v) × After (f v)
  reads none f h = absurd h
  reads (some v) f h = (v, refl, h)

  abbrev Plays : TacInstruction → Type 0
  Plays i =
      (k : List TacInstruction) (σ : Temps)
      → After (execute c i (at k σ))
      → Next code P base d room above (lines_of i ++ (all_lines k ++ post)) σ

  copy-Plays : (dst src : TacOperand) → IsLegal d (copy dst src) → Plays (copy dst src)
  unfolding execute
  copy-Plays (temp n) src (i, j) k σ h =
      let (v, e, next) = reads (read σ src) _ h in
      copy_runs code P base d room above σ n i src v (all_lines k ++ post) (j, e) next
  copy-Plays _ src (i, j) k σ h = absurd i

  unary-Plays :
      (op : UnaryType) (dst src : TacOperand)
      → IsLegal d (unary_op op dst src)
      → Plays (unary_op op dst src)
  unfolding execute
  unary-Plays op (temp n) src (i, j) k σ h =
      let (v, e, next) = reads (read σ src) _ h in
      unary_runs code P base d room above σ n i op src v (all_lines k ++ post) (j, e) next
  unary-Plays op _ src (i, j) k σ h = absurd i

  relational-Plays :
      (op : RelationalType) (dst src₁ src₂ : TacOperand)
      → IsLegal d (relational_op op dst src₁ src₂)
      → Plays (relational_op op dst src₁ src₂)
  unfolding execute
  relational-Plays op (temp n) src₁ src₂ (i, j, q) k σ h =
      let (x, e, h₁) = reads (read σ src₁) _ h in
      let (y, f, next) = reads (read σ src₂) _ h₁ in
      relational_runs code P base d room above σ n i op src₁ src₂ x y (all_lines k ++ post) (j, e)
        (q, f) next
  relational-Plays op _ src₁ src₂ (i, j, q) k σ h = absurd i

  division-Plays :
      (op : BinaryType) (n : ℕ) (src₁ src₂ : TacOperand)
      → is_division op ≡ true
      → IsLegal d (binary_op op (temp n) src₁ src₂)
      → Plays (binary_op op (temp n) src₁ src₂)
  unfolding execute binary_value
  division-Plays BinaryType.div n src₁ src₂ t (i, j, q) k σ h =
      let (x, e, h₁) = reads (read σ src₁) _ h in
      let (y, f, h₂) = reads (read σ src₂) _ h₁ in
      elim (Bool-cases (divides_well x y)) [
        | inl g ↦
            division_runs code P base d room above σ n i BinaryType.div src₁ src₂ x y
              (all_lines k ++ post) t (j, e) (q, f) (quotient x y) g (rw g refl) (rw g at h₂)
        | inr g ↦
            division_crashes code P base d room above σ n i BinaryType.div src₁ src₂ x y
              (all_lines k ++ post) t (j, e) (q, f) g (rw g at h₂)
      ]
  division-Plays BinaryType.mod_ n src₁ src₂ t (i, j, q) k σ h =
      let (x, e, h₁) = reads (read σ src₁) _ h in
      let (y, f, h₂) = reads (read σ src₂) _ h₁ in
      elim (Bool-cases (divides_well x y)) [
        | inl g ↦
            division_runs code P base d room above σ n i BinaryType.mod_ src₁ src₂ x y
              (all_lines k ++ post) t (j, e) (q, f) (remainder x y) g (rw g refl) (rw g at h₂)
        | inr g ↦
            division_crashes code P base d room above σ n i BinaryType.mod_ src₁ src₂ x y
              (all_lines k ++ post) t (j, e) (q, f) g (rw g at h₂)
      ]
  division-Plays _ n src₁ src₂ t p k σ h = cc

  binary-Plays :
      (op : BinaryType) (dst src₁ src₂ : TacOperand)
      → IsLegal d (binary_op op dst src₁ src₂)
      → Plays (binary_op op dst src₁ src₂)
  unfolding execute binary_value
  binary-Plays BinaryType.div (temp n) src₁ src₂ (i, j, q) k σ h =
      division-Plays BinaryType.div n src₁ src₂ refl (i, j, q) k σ h
  binary-Plays BinaryType.mod_ (temp n) src₁ src₂ (i, j, q) k σ h =
      division-Plays BinaryType.mod_ n src₁ src₂ refl (i, j, q) k σ h
  binary-Plays BinaryType.logical_and (temp n) src₁ src₂ (i, j, q) k σ h =
      let (x, e, h₁) = reads (read σ src₁) _ h in
      let (y, f, next) = reads (read σ src₂) _ h₁ in
      and_runs code P base d room above σ n i src₁ src₂ x y (all_lines k ++ post) (j, e) (q, f) next
  binary-Plays BinaryType.logical_or (temp n) src₁ src₂ (i, j, q) k σ h =
      let (x, e, h₁) = reads (read σ src₁) _ h in
      let (y, f, next) = reads (read σ src₂) _ h₁ in
      or_runs code P base d room above σ n i src₁ src₂ x y (all_lines k ++ post) (j, e) (q, f) next
  binary-Plays op (temp n) src₁ src₂ (i, j, q) k σ h =
      let (x, e, h₁) = reads (read σ src₁) _ h in
      let (y, f, next) = reads (read σ src₂) _ h₁ in
      arith_runs code P base d room above σ n i op src₁ src₂ x y _ (all_lines k ++ post) refl (j, e)
        (q, f) refl next
  binary-Plays op _ src₁ src₂ (i, j, q) k σ h = absurd i

  label-Plays : (l : TacOperand) → IsLegal d (label_def l) → Plays (label_def l)
  unfolding execute Cpu.step perform
  label-Plays (label x) i k σ h m r = Cpu.goes refl (h m r)
  label-Plays _ i k σ h m r = absurd i

  module _ (whole : EndsInReturn d c)
      (found : (x : Text) (k : List TacInstruction)
        → find_label x c ≡ some k
        → find_line x code ≡ some (all_lines k ++ post)) where
    landing :
        (x : Text) (σ : Temps) (m : Cpu)
        → After (jump c (label x) σ)
        → Related base d above σ m.rbp m.memory
        → (k : List AsmLine) × (find_line x code ≡ some k) × Go code P k m
    landing x σ m h r = elim (Option-cases (find_label x c)) [
      | inl e ↦ absurd (rw e at h)
      | inr (k, e) ↦ (all_lines k ++ post, found x k e, (rw e at h) m r)
    ]

    goto-Plays : (l : TacOperand) → IsLegal d (go_to l) → Plays (go_to l)
    unfolding execute Cpu.step perform
    goto-Plays (label x) i k σ h m r =
        let (ls, e, go) = landing x σ m h r in Cpu.goes (rw e refl) go
    goto-Plays _ i k σ h m r = absurd i

    -- The jump on the flags of a value compared with 0.
    branch :
        (op : ConditionalType) (x : Text) (v : ℤ) (k : List TacInstruction) (σ : Temps) (m : Cpu)
        → Related base d above σ m.rbp m.memory
        → After (if taken op v then jump c (label x) σ else running (at k σ))
        → Go code P
            (jump_line op (symbol x) ∷ (all_lines k ++ post))
            (record m { left = v; right = pos 0 })
    unfolding Cpu.step perform jump_line
    branch if_false_goto x v k σ m r h = elim (Bool-cases (is_zero v)) [
      | inl z ↦
          let (ls, e, go) = landing x σ (record m { left = v; right = pos 0 }) (rw z at h) r in
          Cpu.goes (rw (z, e) refl) go
      | inr z ↦ Cpu.goes (rw z refl) ((rw z at h) (record m { left = v; right = pos 0 }) r)
    ]
    branch if_true_goto x v k σ m r h = elim (Bool-cases (is_zero v)) [
      | inl z ↦ Cpu.goes (rw z refl) ((rw z at h) (record m { left = v; right = pos 0 }) r)
      | inr z ↦
          let (ls, e, go) = landing x σ (record m { left = v; right = pos 0 }) (rw z at h) r in
          Cpu.goes (rw (z, e) refl) go
    ]

    conditional-Plays :
        (op : ConditionalType) (condition l : TacOperand)
        → IsLegal d (conditional_goto op condition l)
        → Plays (conditional_goto op condition l)
    unfolding execute Cpu.step perform
    conditional-Plays op condition (label x) (i, j) k σ h m r =
        let (v, e, h₁) = reads (read σ condition) _ h in
        into_eax code P base d room above σ condition v m _ (i, e) r
          (Cpu.goes refl (branch op x v k σ (record m { a = v }) r h₁))
    conditional-Plays op condition _ (i, j) k σ h m r = absurd j

    -- From the instructions that are left to run, by what the next one does.
    pub advance :
        (is : List TacInstruction) (σ : Temps)
        → EndsInReturn d is
        → After (step c (at is σ))
        → Next code P base d room above (all_lines is ++ post) σ
    unfolding step execute
    advance [] σ i h m r = absurd i
    advance (ret src ∷ k) σ (i, q) h m r =
        let (v, e, exits) = reads (read σ src) _ h in
        into_eax code P base d room above σ src v m _ (i, e) r
          (rw q (exits (record m { a = v }) r.frame r.kept refl))
    advance (copy dst src ∷ k) σ (i, ps) h m r =
        rw (append_assoc (lines_of (copy dst src)) (all_lines k) post)
          (copy-Plays dst src i k σ h m r)
    advance (unary_op op dst src ∷ k) σ (i, ps) h m r =
        rw (append_assoc (lines_of (unary_op op dst src)) (all_lines k) post)
          (unary-Plays op dst src i k σ h m r)
    advance (binary_op op dst src₁ src₂ ∷ k) σ (i, ps) h m r =
        rw (append_assoc (lines_of (binary_op op dst src₁ src₂)) (all_lines k) post)
          (binary-Plays op dst src₁ src₂ i k σ h m r)
    advance (relational_op op dst src₁ src₂ ∷ k) σ (i, ps) h m r =
        relational-Plays op dst src₁ src₂ i k σ h m r
    advance (label_def l ∷ k) σ (i, ps) h m r = label-Plays l i k σ h m r
    advance (go_to l ∷ k) σ (i, ps) h m r = goto-Plays l i k σ h m r
    advance (conditional_goto op condition l ∷ k) σ (i, ps) h m r =
        conditional-Plays op condition l i k σ h m r
