-- ===== src/AstToTac/Labels.antt =====
-- The labels and temporaries of emitted code lie between the counters before and after the visit,
-- so that a search for a label passes over all code emitted at other times.
use cleric.Common.{
  ℕ, ◌+◌, ◌<◌, ◌≤◌, ◌≡◌, ◌≢◌, refl, ◌∙◌, sym, some, List, [], ◌∷◌, ◌++◌, All, All-append, All-mono,
  arith, inl, inr, ◌⊎◌,
}
use cleric.Common.Int.{ℤ, pos}
use cleric.Common.Text.{decimal-injective, text_eq_refl, text_eq-false}
use cleric.Ast.{UnaryOperatorType, BinaryOperatorType, AstNode, int_literal}
use cleric.Tac.{
  TacOperand, const, temp, label, invalid, TacInstruction, copy, relational_op, label_def, go_to,
  conditional_goto, unary_op, binary_op, ret,
}
use cleric.Tac.Machine.{find_label}
use cleric.AstToTac.{label_name, unary_instruction, binary_instruction}
use cleric.AstToTac.Gen.{
  Gen, Gens, const_gen, unary_gen, and_gen, or_gen, standard_gen, standard_instruction, binary_gen,
  gen, join_code,
}

pub label_name-injective : (m n : ℕ) → label_name m ≡ label_name n → m ≡ n
unfolding label_name
label_name-injective m n p = decimal-injective m n (cc)

-- A label that the instruction defines is one of those numbered from `lo` up to `hi`.
abbrev pub LabelIn : ℕ → ℕ → TacInstruction → Type 0
LabelIn lo hi (label_def (label x)) = (n : ℕ) × (lo ≤ n) × (n < hi) × (x ≡ label_name n)
LabelIn lo hi _ = Unit

-- The instruction does not define label number `n`.
abbrev pub Avoids : ℕ → TacInstruction → Type 0
Avoids n (label_def (label x)) = x ≢ label_name n
Avoids n _ = Unit

pub LabelIn-mono :
    (lo hi lo' hi' : ℕ)
    → lo' ≤ lo
    → hi ≤ hi'
    → (i : TacInstruction) → LabelIn lo hi i
    → LabelIn lo' hi' i
LabelIn-mono lo hi lo' hi' p q (label_def (label x)) (n, a, b, e) = (n, omega arith, omega arith, e)
LabelIn-mono lo hi lo' hi' p q (label_def (const v)) h = tt
LabelIn-mono lo hi lo' hi' p q (label_def (temp v)) h = tt
LabelIn-mono lo hi lo' hi' p q (label_def invalid) h = tt
LabelIn-mono lo hi lo' hi' p q _ h = tt

LabelIn-Avoids :
    (lo hi n : ℕ) → (n < lo) ⊎ (hi ≤ n) → (i : TacInstruction) → LabelIn lo hi i → Avoids n i
LabelIn-Avoids lo hi n out (label_def (label x)) (m, a, b, e) =
    λ p. let same : m ≡ n = label_name-injective m n (sym e ∙ p) in absurd (omega arith)
LabelIn-Avoids lo hi n out (label_def (const v)) h = tt
LabelIn-Avoids lo hi n out (label_def (temp v)) h = tt
LabelIn-Avoids lo hi n out (label_def invalid) h = tt
LabelIn-Avoids lo hi n out _ h = tt

-- Code whose labels are numbered otherwise.
pub avoid_below :
    (lo hi n : ℕ) (c : List TacInstruction) → All (LabelIn lo hi) c → hi ≤ n → All (Avoids n) c
avoid_below lo hi n c h le = All-mono _ _ (LabelIn-Avoids lo hi n (inr le)) c h

pub avoid_above :
    (lo hi n : ℕ) (c : List TacInstruction) → All (LabelIn lo hi) c → n < lo → All (Avoids n) c
avoid_above lo hi n c h lt = All-mono _ _ (LabelIn-Avoids lo hi n (inl lt)) c h

pub find_label-skip :
    (n : ℕ) (pre k : List TacInstruction)
    → All (Avoids n) pre
    → find_label (label_name n) (pre ++ k) ≡ find_label (label_name n) k
unfolding find_label
find_label-skip n [] k h = refl
find_label-skip n (label_def (label x) ∷ pre) k (h, hs) =
    rw (text_eq-false x (label_name n) h) (find_label-skip n pre k hs)
find_label-skip n (label_def (const v) ∷ pre) k (h, hs) = find_label-skip n pre k hs
find_label-skip n (label_def (temp v) ∷ pre) k (h, hs) = find_label-skip n pre k hs
find_label-skip n (label_def invalid ∷ pre) k (h, hs) = find_label-skip n pre k hs
find_label-skip n (copy _ _ ∷ pre) k (h, hs) = find_label-skip n pre k hs
find_label-skip n (unary_op _ _ _ ∷ pre) k (h, hs) = find_label-skip n pre k hs
find_label-skip n (ret _ ∷ pre) k (h, hs) = find_label-skip n pre k hs
find_label-skip n (binary_op _ _ _ _ ∷ pre) k (h, hs) = find_label-skip n pre k hs
find_label-skip n (relational_op _ _ _ _ ∷ pre) k (h, hs) = find_label-skip n pre k hs
find_label-skip n (go_to _ ∷ pre) k (h, hs) = find_label-skip n pre k hs
find_label-skip n (conditional_goto _ _ _ ∷ pre) k (h, hs) = find_label-skip n pre k hs

pub find_label-here :
    (n : ℕ) (k : List TacInstruction)
    → find_label (label_name n) (label_def (label (label_name n)) ∷ k) ≡ some k
unfolding find_label
find_label-here n k = rw (text_eq_refl (label_name n))

abbrev pub IsBelow : ℕ → TacOperand → Type 0
IsBelow t (const v) = Unit
IsBelow t (temp n) = n < t
IsBelow t (label x) = ⊥
IsBelow t invalid = ⊥

pub record Within (t l : ℕ) (g : Gen) : Type 0 where
  pub temps : t ≤ g.next_temp
  pub labels : l ≤ g.next_label
  pub operand : IsBelow g.next_temp g.operand
  pub defs : All (LabelIn l g.next_label) g.code

abbrev pub IsWithin : Gens → Type 0
IsWithin g = (t l : ℕ) → Within t l (g t l)

-- Labels of one part of the code, among those of the whole.
pub widen :
    (lo hi lo' hi' : ℕ) (c : List TacInstruction)
    → All (LabelIn lo hi) c
    → lo' ≤ lo
    → hi ≤ hi'
    → All (LabelIn lo' hi') c
widen lo hi lo' hi' c h p q = All-mono _ _ (LabelIn-mono lo hi lo' hi' p q) c h

unary-defs :
    (op : UnaryOperatorType) (d a : TacOperand) (l h : ℕ) → LabelIn l h (unary_instruction op d a)
unfolding unary_instruction
unary-defs UnaryOperatorType.negate d a l h = tt
unary-defs _ d a l h = tt

unary-IsWithin : (op : UnaryOperatorType) (g : Gens) → IsWithin g → IsWithin (unary_gen op g)
unary-IsWithin op g w t l =
    let p = w t l in
    record {
      temps = omega arith;
      labels = p.labels;
      operand = omega arith;
      defs = All-append _ _ _ p.defs (unary-defs op _ _ _ _, tt);
    }

join-defs :
    (d x e : ℕ) (rhs : TacOperand) (v : ℤ) (lo hi : ℕ)
    → lo ≤ x
    → x < hi
    → lo ≤ e
    → e < hi
    → All (LabelIn lo hi) (join_code d rhs x e v)
join-defs d x e rhs v lo hi p q r s = (tt, (tt, ((x, p, q, refl), (tt, ((e, r, s, refl), tt)))))

module _ (g h : Gens) (wg : IsWithin g) (wh : IsWithin h) where
  standard-IsWithin :
      (i : TacOperand → TacOperand → TacOperand → TacInstruction)
      → ((d a b : TacOperand) (lo hi : ℕ) → LabelIn lo hi (i d a b))
      → IsWithin (standard_gen i g h)
  standard-IsWithin i e t l =
      let p = wg t l in
      let q = wh (g t l).next_temp (g t l).next_label in
      record {
        temps = omega arith;
        labels = omega arith;
        operand = omega arith;
        defs = All-append _ _ _ (widen _ _ _ _ _ p.defs (omega arith) (omega arith)) (
            All-append _ _ _ (widen _ _ _ _ _ q.defs (omega arith) (omega arith))
              (e _ _ _ _ _, tt));
      }

  and-IsWithin : IsWithin (and_gen g h)
  and-IsWithin t l =
      let a = g t l in
      let p = wg t l in
      let q = wh (a.next_temp + 1) (a.next_label + 1 + 1) in
      record {
        temps = omega arith;
        labels = omega arith;
        operand = omega arith;
        defs = All-append _ _ _ (widen _ _ _ _ _ p.defs (omega arith) (omega arith)) (
          tt,
          All-append _ _ _ (widen _ _ _ _ _ q.defs (omega arith) (omega arith)) (
              join-defs a.next_temp _ _ (h (a.next_temp + 1) (a.next_label + 1 + 1)).operand (pos 0)
                _ _ (omega arith) (omega arith) (omega arith) (omega arith)),
        );
      }

  or-IsWithin : IsWithin (or_gen g h)
  or-IsWithin t l =
      let a = g (t + 1) (l + 1 + 1 + 1) in
      let p = wg (t + 1) (l + 1 + 1 + 1) in
      let q = wh a.next_temp a.next_label in
      record {
        temps = omega arith;
        labels = omega arith;
        operand = omega arith;
        defs = All-append _ _ _ (widen _ _ _ _ _ p.defs (omega arith) (omega arith)) (
          tt,
          All-append _ _ _ (widen _ _ _ _ _ q.defs (omega arith) (omega arith)) (
              join-defs t _ _ (h a.next_temp a.next_label).operand (pos 1) _ _ (omega arith)
                (omega arith) (omega arith) (omega arith)),
        );
      }

standard-defs :
    (op : BinaryOperatorType) (d a b : TacOperand) (lo hi : ℕ)
    → LabelIn lo hi (standard_instruction op d a b)
unfolding binary_instruction
standard-defs BinaryOperatorType.add d a b lo hi = tt
standard-defs _ d a b lo hi = tt

binary-IsWithin :
    (op : BinaryOperatorType) (g h : Gens) → IsWithin g → IsWithin h → IsWithin (binary_gen op g h)
binary-IsWithin BinaryOperatorType.logical_and g h wg wh = and-IsWithin g h wg wh
binary-IsWithin BinaryOperatorType.logical_or g h wg wh = or-IsWithin g h wg wh
binary-IsWithin op g h wg wh =
    standard-IsWithin g h wg wh (standard_instruction op) (standard-defs op)

const-IsWithin : (v : ℤ) → IsWithin (const_gen v)
const-IsWithin v t l = record { temps = omega arith; labels = omega arith; operand = tt; defs = tt }

pub gen-IsWithin : (e : AstNode) → IsWithin (gen e)
unfolding gen
gen-IsWithin (int_literal v) = const-IsWithin v
gen-IsWithin (AstNode.unary_op op e) = unary-IsWithin op (gen e) (gen-IsWithin e)
gen-IsWithin (AstNode.binary_op op l r) =
    binary-IsWithin op (gen l) (gen r) (gen-IsWithin l) (gen-IsWithin r)
gen-IsWithin _ = const-IsWithin (pos 0)
