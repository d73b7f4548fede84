-- ===== src/Codegen/Staying.antt =====
-- Three-address code that src/codegen/codegen.c translates ends in its return wherever a run of it is.
use cleric.Common.{
  ℕ, Bool, true, false, Option, none, some, List, [], ◌∷◌, Option-cases, inl, inr, if◌then◌else◌,
}
use cleric.Common.Int.{ℤ}
use cleric.Tac.{
  TacOperand, label, temp, TacInstruction, copy, unary_op, ret, binary_op, relational_op, label_def,
  go_to, conditional_goto,
}
use cleric.Tac.Machine as Tac
use cleric.Tac.Machine.{
  Temps, State, at, Outcome, Status, running, halted, fault, fell_off, stuck, with_value, resume,
  jump, assign, assign_or_fault, execute, find_label, no_temps, read, binary_value, taken,
}
use cleric.Codegen.Targets.{EndsInReturn, find_line-all_lines}

module _ (d : ℕ) (c : List TacInstruction) (whole : EndsInReturn d c) where
  -- Running on, the machine is at instructions that end in the only return.
  abbrev pub Stays : Status → Type 0
  Stays (running t) = EndsInReturn d t.rest
  Stays (halted r) = Unit

  with_value-Stays :
      (o : Option ℤ) (f : ℤ → Status) → ((v : ℤ) → Stays (f v)) → Stays (with_value o f)
  with_value-Stays none f h = tt
  with_value-Stays (some v) f h = h v

  assign-Stays :
      (dst : TacOperand) (v : ℤ) (s : State) → EndsInReturn d s.rest → Stays (assign dst v s)
  assign-Stays (temp n) v s h = h
  assign-Stays _ v s h = tt

  assign_or_fault-Stays :
      (dst : TacOperand) (o : Option ℤ) (s : State)
      → EndsInReturn d s.rest
      → Stays (assign_or_fault dst o s)
  assign_or_fault-Stays dst none s h = tt
  assign_or_fault-Stays dst (some v) s h = assign-Stays dst v s h

  jump-Stays : (l : TacOperand) (σ : Temps) → Stays (jump c l σ)
  jump-Stays (label x) σ = elim (Option-cases (find_label x c)) [
    | inl e ↦ rw e tt
    | inr (k, e) ↦ rw e (find_line-all_lines d x [] c k whole e).1
  ]
  jump-Stays _ σ = tt

  if-Stays : (b : Bool) (s t : Status) → Stays s → Stays t → Stays (if b then s else t)
  if-Stays true s t p q = p
  if-Stays false s t p q = q

  pub step-Stays :
      (is : List TacInstruction) (σ : Temps) → EndsInReturn d is → Stays (Tac.step c (at is σ))
  unfolding Tac.step execute
  step-Stays [] σ p = absurd p
  step-Stays (ret src ∷ k) σ p = with_value-Stays (read σ src) _ (λ v. tt)
  step-Stays (copy dst src ∷ k) σ (p, ps) =
      with_value-Stays (read σ src) _ (λ v. assign-Stays dst v (at k σ) ps)
  step-Stays (unary_op op dst src ∷ k) σ (p, ps) =
      with_value-Stays (read σ src) _ (λ v. assign-Stays dst _ (at k σ) ps)
  step-Stays (binary_op op dst src₁ src₂ ∷ k) σ (p, ps) = with_value-Stays (read σ src₁) _ (λ x.
      with_value-Stays (read σ src₂) _
        (λ y. assign_or_fault-Stays dst (binary_value op x y) (at k σ) ps))
  step-Stays (relational_op op dst src₁ src₂ ∷ k) σ (p, ps) =
      with_value-Stays (read σ src₁) _
        (λ x. with_value-Stays (read σ src₂) _ (λ y. assign-Stays dst _ (at k σ) ps))
  step-Stays (label_def l ∷ k) σ (p, ps) = ps
  step-Stays (go_to l ∷ k) σ (p, ps) = jump-Stays l σ
  step-Stays (conditional_goto op condition l ∷ k) σ (p, ps) =
      with_value-Stays (read σ condition) _
        (λ v. if-Stays (taken op v) (jump c l σ) _ (jump-Stays l σ) ps)
