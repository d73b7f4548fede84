-- ===== src/AstToTac/Join.antt =====
-- The code around the right operand of && and ||: a conditional jump over it to the value that
-- is known then, or the operand's truth value.
use cleric.Common.{
  if◌then◌else◌, Bool-cases, inl, inr, ℕ, ◌<◌, ◌≤◌, ◌≡◌, ◌≢◌, refl, true, false, not, Option, some,
  List, ◌∷◌, ◌++◌, All, arith,
}
use cleric.Common.Int.{ℤ, pos, truth, is_zero}
use cleric.Tac.{
  TacOperand, const, temp, label, TacInstruction, copy, relational_op, label_def, go_to,
  conditional_goto, ConditionalType, RelationalType,
}
use cleric.Tac.Machine.{Temps, at, read, update, find_label, execute, taken, relational_value}
use cleric.Source.{◌>>=◌}
use cleric.Common.Text.{text_eq-false}
use cleric.AstToTac.{label_name}
use cleric.AstToTac.Gen.{Gen, join_code}
use cleric.AstToTac.Labels.{Avoids, find_label-skip, find_label-here, label_name-injective}
use cleric.AstToTac.Arrival.{
  Agree, update_self, update-Agree, Arrives-bind, Arrives-since, Arrives-step, Arrives, step_to,
}

module _ (code : List TacInstruction) where
  -- Where the two labels behind a right operand lead.
  module _ (d x z : ℕ) (rhs : TacOperand) (v : ℤ) (pre k : List TacInstruction)
      (here : code ≡ pre ++ (join_code d rhs x z v ++ k)) (ax : All (Avoids x) pre)
      (az : All (Avoids z) pre) (ne : x ≢ z) where
    find-exit :
        find_label (label_name x) code
        ≡ some (copy (temp d) (const v) ∷ label_def (label (label_name z)) ∷ k)
    unfolding find_label
    find-exit =
        rw (here, find_label-skip x pre (join_code d rhs x z v ++ k) ax)
          (find_label-here x (copy (temp d) (const v) ∷ label_def (label (label_name z)) ∷ k))

    find-end : find_label (label_name z) code ≡ some k
    unfolding find_label
    find-end =
        rw
          (
            here,
            find_label-skip z pre (join_code d rhs x z v ++ k) az,
            text_eq-false (label_name x) (label_name z) (λ p. ne (label_name-injective x z p)),
          )
          (find_label-here z k)

    -- From the exit label: the short-circuit value.
    join-exit :
        (t : ℕ) (σ σ₁ : Temps)
        → t ≤ d
        → Agree t σ₁ σ
        → Arrives code t
            (temp d)
            k
            σ
            (at (copy (temp d) (const v) ∷ label_def (label (label_name z)) ∷ k) σ₁)
            (some v)
    unfolding execute
    join-exit t σ σ₁ p ag = (
      update σ₁ d v,
      update_self σ₁ d v,
      update-Agree t d σ₁ σ v p ag,
      λ r run.
          step_to code _ _ σ₁ _ r refl
            (step_to code _ k (update σ₁ d v) (at k (update σ₁ d v)) r refl run),
    )

    -- From the right operand: its truth value.
    join-value :
        (t : ℕ) (σ σ₁ : Temps) (b : ℤ)
        → t ≤ d
        → Agree t σ₁ σ
        → read σ₁ rhs ≡ some b
        → Arrives code t
            (temp d)
            k
            σ
            (at (join_code d rhs x z v ++ k) σ₁)
            (some (truth (not (is_zero b))))
    unfolding execute relational_value
    join-value t σ σ₁ b p ag rb =
        let w = truth (not (is_zero b)) in
        let after =
          label_def (label (label_name x))
          ∷ copy (temp d) (const v)
          ∷ label_def (label (label_name z))
          ∷ k in
        let tail = go_to (label (label_name z)) ∷ after in
        (
          update σ₁ d w,
          update_self σ₁ d w,
          update-Agree t d σ₁ σ w p ag,
          λ r run.
              step_to code (relational_op RelationalType.not_equal (temp d) rhs (const (pos 0)))
                tail σ₁ (at tail (update σ₁ d w)) r (rw rb)
                (step_to code (go_to (label (label_name z))) after (update σ₁ d w)
                  (at k (update σ₁ d w)) r (rw find-end) run),
        )

  -- A conditional jump over the right operand, to the short-circuit value.
  module _ (op : ConditionalType) (x z d : ℕ) (a : TacOperand) (rhs : Gen) (v : ℤ)
      (pre k : List TacInstruction) (t t₂ : ℕ) (σ σ₁ : Temps) (y : ℤ) (n : Option ℤ)
      (ry : read σ₁ a ≡ some y) (ag : Agree t σ₁ σ) (le : t ≤ d) (lt : d < t₂)
      (here : code
        ≡ (pre ++ conditional_goto op a (label (label_name x)) ∷ rhs.code)
          ++ (join_code d rhs.operand x z v ++ k))
      (ax : All (Avoids x) (pre ++ conditional_goto op a (label (label_name x)) ∷ rhs.code))
      (az : All (Avoids z) (pre ++ conditional_goto op a (label (label_name x)) ∷ rhs.code))
      (ne : x ≢ z)
      (right : Arrives code t₂ rhs.operand
        (join_code d rhs.operand x z v ++ k)
        σ₁
        (at (rhs.code ++ (join_code d rhs.operand x z v ++ k)) σ₁)
        n) where
    abbrev pub whole : List TacInstruction
    whole =
        conditional_goto op a (label (label_name x))
        ∷ (rhs.code ++ (join_code d rhs.operand x z v ++ k))

    skips-right : taken op y ≡ true → Arrives code t (temp d) k σ (at whole σ₁) (some v)
    unfolding execute
    skips-right e =
        let target = copy (temp d) (const v) ∷ label_def (label (label_name z)) ∷ k in
        Arrives-step code t (temp d) k σ (at whole σ₁) (at target σ₁) (some v)
          (λ r run.
            step_to code (conditional_goto op a (label (label_name x)))
              (rhs.code ++ (join_code d rhs.operand x z v ++ k)) σ₁ (at target σ₁) r
              (rw (ry, e, find-exit d x z rhs.operand v _ k here ax az ne)) run)
          (join-exit d x z rhs.operand v _ k here ax az ne t σ σ₁ le ag)

    runs-right :
        taken op y ≡ false
        → Arrives code t (temp d) k σ (at whole σ₁) (n >>= λ b. some (truth (not (is_zero b))))
    unfolding execute
    runs-right e =
        let go = rhs.code ++ (join_code d rhs.operand x z v ++ k) in
        Arrives-step code t (temp d) k σ (at whole σ₁) (at go σ₁)
          (n >>= λ b. some (truth (not (is_zero b))))
          (λ r run.
            step_to code (conditional_goto op a (label (label_name x))) go σ₁ (at go σ₁) r
              (rw (ry, e)) run)
          (Arrives-since code t t (temp d) k σ σ₁ (at go σ₁)
            (n >>= λ b. some (truth (not (is_zero b)))) (omega arith) ag
            (Arrives-bind code t t₂ (temp d) rhs.operand k (join_code d rhs.operand x z v ++ k) σ₁
              (at go σ₁) n _ right
              λ b σ₂ rb ag₂.
                join-value d x z rhs.operand v _ k here ax az ne t σ₁ σ₂ b le
                  (λ i q. ag₂ i (omega arith)) rb))

    -- Both ways together.
    pub short_circuit :
        Arrives code t
          (temp d)
          k
          σ
          (at whole σ₁)
          (if taken op y then some v else (n >>= λ b. some (truth (not (is_zero b)))))
    short_circuit = elim (Bool-cases (taken op y)) [
      | inl e ↦ rw e (skips-right e)
      | inr e ↦ rw e (runs-right e)
    ]
