-- ===== src/Tac/Feeds.antt =====
-- The line that tac_print_instruction of src/ir/tac.c prints.
use cleric.Common.{
  ℕ, zero, suc, ◌+◌, ◌/◌, ◌%◌, ◌≡◌, refl, ◌∙◌, ap, false, List, [], ◌∷◌, ◌++◌, append_assoc,
  append-nil, ◌==◌, ltb, arith, Bool-cases, inl, inr,
}
use cleric.Common.Int.{pos, negsuc, int_text}
use cleric.Common.Text.{Text, codes, decimal, decimal_loop}
use cleric.Tac.{
  TacOperand, const, temp, label, invalid, UnaryType, BinaryType, RelationalType, ConditionalType,
  if_false_goto, if_true_goto, TacInstruction, copy, unary_op, ret, binary_op, relational_op,
  label_def, go_to, conditional_goto,
}
use cleric.Tac.Listing.{
  cons_first, lines, unwords, words, operand_word, unary_word, binary_word, relational_word,
  HasNoFeed, IsOneRow, IsRow,
}
use cleric.Tac.Print.{
  tac_print_operand, unary_sign, binary_sign, relational_sign, condition_word,
  tac_print_instruction,
}

-- The lines with a text before the first of them.
abbrev pub onto : Text → List Text → List Text
onto [] ls = ls
onto (x ∷ xs) ls = cons_first x (onto xs ls)

onto-cons : (t w : Text) (ws : List Text) → onto t (w ∷ ws) ≡ (t ++ w) ∷ ws
onto-cons [] w ws = refl
onto-cons (x ∷ t) w ws = ap (cons_first x) (onto-cons t w ws)

onto-append : (s t : Text) (ls : List Text) → onto (s ++ t) ls ≡ onto s (onto t ls)
onto-append [] t ls = refl
onto-append (x ∷ s) t ls = ap (cons_first x) (onto-append s t ls)

-- A text without a line feed, and one that is the line `w`.
abbrev pub Feedless : Text → Type 0
Feedless t = (r : Text) → lines (t ++ r) ≡ onto t (lines r)

abbrev pub IsLine : Text → Text → Type 0
IsLine t w = (r : Text) → lines (t ++ r) ≡ w ∷ lines r

pub before-IsLine : (s t w : Text) → Feedless s → IsLine t w → IsLine (s ++ t) (s ++ w)
before-IsLine s t w p q r =
    rw (append_assoc s t r) (p (t ++ r) ∙ ap (onto s) (q r) ∙ onto-cons s w (lines r))

pub plain-Feedless : (t : Text) → HasNoFeed t → Feedless t
unfolding lines
plain-Feedless [] h r = refl
plain-Feedless (x ∷ t) (p, h) r = rw p (ap (cons_first x) (plain-Feedless t h r))

digit-Feedless : (n : ℕ) (t : Text) → Feedless t → Feedless ((48 + n % 10) ∷ t)
unfolding lines
digit-Feedless n t h r =
    let digit : ((48 + n % 10) == 10) ≡ false = ground arith in
    rw digit (ap (cons_first (48 + n % 10)) (h r))

decimal_loop-Feedless : (f n : ℕ) (acc : Text) → Feedless acc → Feedless (decimal_loop f n acc)
unfolding decimal_loop
decimal_loop-Feedless zero n acc h = h
decimal_loop-Feedless (suc f) n acc h =
    let digit = digit-Feedless n acc h in
    elim (Bool-cases (ltb n 10)) [
      | inl e ↦ rw e digit
      | inr e ↦ rw e (decimal_loop-Feedless f (n / 10) ((48 + n % 10) ∷ acc) digit)
    ]

decimal-Feedless : (n : ℕ) → Feedless (decimal n)
unfolding decimal
decimal-Feedless n = decimal_loop-Feedless (n + 1) n [] (λ r. refl)

operand-Feedless : (o : TacOperand) → IsOneRow o → Feedless (operand_word o)
unfolding int_text lines
operand-Feedless (const (pos n)) h r = decimal-Feedless n r
operand-Feedless (const (negsuc n)) h r = ap (cons_first b'-') (decimal-Feedless (suc n) r)
operand-Feedless (temp n) h r = ap (cons_first b't') (decimal-Feedless n r)
operand-Feedless (label name) h r = plain-Feedless name h r
operand-Feedless invalid h r = refl

word_of : (o : TacOperand) → tac_print_operand o ≡ operand_word o
unfolding tac_print_operand
word_of (const v) = refl
word_of (temp n) = refl
word_of (label name) = refl
word_of invalid = refl

-- An operand in a line, and one at its end.
operand-IsLine :
    (o : TacOperand) (t w : Text)
    → IsOneRow o
    → IsLine t w
    → IsLine (tac_print_operand o ++ t) (operand_word o ++ w)
operand-IsLine o t w h q =
    rw (word_of o) (before-IsLine (operand_word o) t w (operand-Feedless o h) q)

last-IsLine :
    (o : TacOperand) → IsOneRow o → IsLine (tac_print_operand o ++ codes "\n") (operand_word o)
unfolding lines
last-IsLine o h =
    rw (append-nil (operand_word o)) at (operand-IsLine o (codes "\n") [] h (λ r. refl))

-- What stands before an operand: a text that begins a line.
word-IsLine :
    (s : Text) (o : TacOperand) (t w : Text)
    → Feedless s
    → IsOneRow o
    → IsLine t w
    → IsLine (s ++ (tac_print_operand o ++ t)) (s ++ (operand_word o ++ w))
word-IsLine s o t w p h q =
    before-IsLine s (tac_print_operand o ++ t) (operand_word o ++ w) p (operand-IsLine o t w h q)

end-IsLine :
    (s : Text) (o : TacOperand)
    → Feedless s
    → IsOneRow o
    → IsLine (s ++ (tac_print_operand o ++ codes "\n")) (s ++ operand_word o)
end-IsLine s o p h =
    before-IsLine s (tac_print_operand o ++ codes "\n") (operand_word o) p (last-IsLine o h)

unary_sign-IsLine :
    (op : UnaryType) (src : TacOperand)
    → IsOneRow src
    → IsLine
        (unary_sign op ++ (tac_print_operand src ++ codes "\n"))
        (32 ∷ unwords (codes "=" ∷ unary_word op ∷ operand_word src ∷ []))
unfolding unary_sign lines
unary_sign-IsLine UnaryType.negate src h = end-IsLine (codes " = - ") src (λ r. refl) h
unary_sign-IsLine UnaryType.complement src h = end-IsLine (codes " = ~ ") src (λ r. refl) h
unary_sign-IsLine UnaryType.logical_not src h = end-IsLine (codes " = ! ") src (λ r. refl) h

-- A sign and the operand behind it, with the word that the sign stands for.
binary_sign-IsLine :
    (op : BinaryType) (src : TacOperand)
    → IsOneRow src
    → IsLine
        (binary_sign op ++ (tac_print_operand src ++ codes "\n"))
        (32 ∷ unwords (binary_word op ∷ operand_word src ∷ []))
unfolding binary_sign lines
binary_sign-IsLine BinaryType.add src h = end-IsLine (codes " + ") src (λ r. refl) h
binary_sign-IsLine BinaryType.sub src h = end-IsLine (codes " - ") src (λ r. refl) h
binary_sign-IsLine BinaryType.mul src h = end-IsLine (codes " * ") src (λ r. refl) h
binary_sign-IsLine BinaryType.div src h = end-IsLine (codes " / ") src (λ r. refl) h
binary_sign-IsLine BinaryType.mod_ src h = end-IsLine (codes " % ") src (λ r. refl) h
binary_sign-IsLine BinaryType.logical_and src h = end-IsLine (codes " && ") src (λ r. refl) h
binary_sign-IsLine BinaryType.logical_or src h = end-IsLine (codes " || ") src (λ r. refl) h

relational_sign-IsLine :
    (op : RelationalType) (src : TacOperand)
    → IsOneRow src
    → IsLine
        (relational_sign op ++ (tac_print_operand src ++ codes "\n"))
        (32 ∷ unwords (relational_word op ∷ operand_word src ∷ []))
unfolding relational_sign lines
relational_sign-IsLine RelationalType.less src h = end-IsLine (codes " < ") src (λ r. refl) h
relational_sign-IsLine RelationalType.greater src h = end-IsLine (codes " > ") src (λ r. refl) h
relational_sign-IsLine RelationalType.less_equal src h = end-IsLine (codes " <= ") src (λ r. refl) h
relational_sign-IsLine RelationalType.greater_equal src h =
    end-IsLine (codes " >= ") src (λ r. refl) h
relational_sign-IsLine RelationalType.equal src h = end-IsLine (codes " == ") src (λ r. refl) h
relational_sign-IsLine RelationalType.not_equal src h = end-IsLine (codes " != ") src (λ r. refl) h

condition-IsLine :
    (op : ConditionalType) (condition l : TacOperand)
    → IsOneRow condition
    → IsOneRow l
    → IsLine
        (condition_word op
          ++ (tac_print_operand condition
              ++ (codes " goto " ++ (tac_print_operand l ++ codes "\n"))))
        (unwords (words (conditional_goto op condition l)))
unfolding condition_word lines
condition-IsLine if_false_goto condition l h k =
    word-IsLine (codes "if_false ") condition _ _ (λ r. refl) h
      (end-IsLine (codes " goto ") l (λ r. refl) k)
condition-IsLine if_true_goto condition l h k =
    word-IsLine (codes "if_not_zero ") condition _ _ (λ r. refl) h
      (end-IsLine (codes " goto ") l (λ r. refl) k)

pub instruction-IsLine :
    (i : TacInstruction) → IsRow i → IsLine (tac_print_instruction i) (unwords (words i))
unfolding tac_print_instruction lines
instruction-IsLine (copy dst src) (h, k) =
    operand-IsLine dst _ _ h (end-IsLine (codes " = ") src (λ r. refl) k)
instruction-IsLine (unary_op op dst src) (h, k) =
    operand-IsLine dst _ _ h (unary_sign-IsLine op src k)
instruction-IsLine (ret src) h = end-IsLine (codes "return ") src (λ r. refl) h
instruction-IsLine (binary_op op dst src₁ src₂) (h, h₁, h₂) =
    operand-IsLine dst _ _ h
      (word-IsLine (codes " = ") src₁ _ _ (λ r. refl) h₁ (binary_sign-IsLine op src₂ h₂))
instruction-IsLine (relational_op op dst src₁ src₂) (h, h₁, h₂) =
    operand-IsLine dst _ _ h
      (word-IsLine (codes " = ") src₁ _ _ (λ r. refl) h₁ (relational_sign-IsLine op src₂ h₂))
instruction-IsLine (label_def l) h = operand-IsLine l (codes ":\n") (codes ":") h (λ r. refl)
instruction-IsLine (go_to l) h = end-IsLine (codes "goto ") l (λ r. refl) h
instruction-IsLine (conditional_goto op condition l) (h, k) = condition-IsLine op condition l h k
