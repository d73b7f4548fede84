-- ===== src/Ast/Brackets.antt =====
-- The parentheses in what the parts of a node print in ast_pretty_print of src/parser/ast.c.
use cleric.Common.{
  ℕ, zero, suc, ◌+◌, ◌/◌, ◌%◌, ◌≡◌, refl, ◌∙◌, false, Option, none, some, [], ◌∷◌, ◌++◌,
  append_assoc, ◌==◌, if◌then◌else◌, All, ltb, arith, Bool-cases, inl, inr,
}
use cleric.Common.Int.{ℤ, pos, negsuc, int_text}
use cleric.Common.Text.{Text, codes, decimal, decimal_loop}
use cleric.Ast.{UnaryOperatorType, BinaryOperatorType, AstNode, null}
use cleric.Ast.Print.{print_indent, close, labelled, unary_name, binary_name, print_initializer}

-- The number of open parentheses behind a byte; `none` where it closes one that is not open.
abbrev closed : ℕ → Option ℕ
closed zero = none
closed (suc d) = some d

abbrev nest : ℕ → ℕ → Option ℕ
nest x d = if x == b'(' then some (suc d) else (if x == b')' then closed d else some d)

abbrev and_on : Option ℕ → (ℕ → Option ℕ) → Option ℕ
and_on none f = none
and_on (some d) f = f d

-- The number of open parentheses behind a text.
unfoldable pub nesting : Text → ℕ → Option ℕ
nesting [] d = some d
nesting (x ∷ xs) d = and_on (nest x d) (nesting xs)

abbrev pub IsPlainByte : ℕ → Type 0
IsPlainByte x = ((x == b'(') ≡ false) × ((x == b')') ≡ false)

-- A text that opens and closes nothing beyond itself.
abbrev pub Closed : Text → Type 0
Closed t = (r : Text) (d : ℕ) → nesting (t ++ r) d ≡ nesting r d

cons-Closed : (x : ℕ) (t : Text) → IsPlainByte x → Closed t → Closed (x ∷ t)
unfolding nesting
cons-Closed x t (p, q) h r d = rw (p, q) (h r d)

pub plain-Closed : (t : Text) → All IsPlainByte t → Closed t
unfolding nesting
plain-Closed [] h = λ r d. refl
plain-Closed (x ∷ t) (p, h) = cons-Closed x t p (plain-Closed t h)

pub append-Closed : (s t : Text) → Closed s → Closed t → Closed (s ++ t)
append-Closed s t p q r d = rw (append_assoc s t r) (p (t ++ r) d ∙ q r d)

pub indent-Closed : (level : ℕ) → Closed (print_indent level)
unfolding print_indent nesting
indent-Closed zero r d = refl
indent-Closed (suc level) r d = indent-Closed level r d

decimal_loop-Closed : (f n : ℕ) (acc : Text) → Closed acc → Closed (decimal_loop f n acc)
unfolding decimal_loop nesting
decimal_loop-Closed zero n acc h = h
decimal_loop-Closed (suc f) n acc h =
    let digit : Closed ((48 + n % 10) ∷ acc) =
      cons-Closed (48 + n % 10) acc (ground arith, ground arith) h in
    elim (Bool-cases (ltb n 10)) [
      | inl e ↦ rw e digit
      | inr e ↦ rw e (decimal_loop-Closed f (n / 10) ((48 + n % 10) ∷ acc) digit)
    ]

pub int-Closed : (v : ℤ) → Closed (int_text v)
unfolding int_text decimal nesting
int-Closed (pos n) r d = decimal_loop-Closed (n + 1) n [] (λ r d. refl) r d
int-Closed (negsuc n) r d = decimal_loop-Closed (suc n + 1) (suc n) [] (λ r d. refl) r d

-- A text that opens one parenthesis more than it closes, and one that closes it.
abbrev Opens : Text → Type 0
Opens t = (r : Text) (d : ℕ) → nesting (t ++ r) d ≡ nesting r (suc d)

abbrev Closes : Text → Type 0
Closes t = (r : Text) (d : ℕ) → nesting (t ++ r) (suc d) ≡ nesting r d

open-Closed : (s t : Text) → Opens s → Closes t → Closed (s ++ t)
open-Closed s t p q r d = rw (append_assoc s t r) (p (t ++ r) d ∙ q r d)

pub rest-Closes : (s t : Text) → Closed s → Closes t → Closes (s ++ t)
rest-Closes s t p q r d = rw (append_assoc s t r) (p (t ++ r) (suc d) ∙ q r d)

pub close-Closes : (level : ℕ) → Closes (close level)
unfolding nesting
close-Closes level =
    rest-Closes (print_indent level) (codes ")\n") (indent-Closed level) (λ r d. refl)

pub labelled-Closed :
    (level : ℕ) (name value : Text)
    → Closed name
    → Closed value
    → Closed (labelled level name value)
labelled-Closed level name value p q =
    append-Closed (print_indent level) (name ++ value) (indent-Closed level)
      (append-Closed name value p q)

-- A node: its indent, a head that opens, and what closes it.
pub node-Closed :
    (level : ℕ) (head body : Text)
    → Opens head
    → Closes body
    → Closed (print_indent level ++ (head ++ body))
node-Closed level head body p q =
    append-Closed (print_indent level) (head ++ body) (indent-Closed level)
      (open-Closed head body p q)

pub unary_name-Closed : (op : UnaryOperatorType) → Closed (unary_name op)
unfolding unary_name nesting
unary_name-Closed UnaryOperatorType.negate r d = refl
unary_name-Closed UnaryOperatorType.complement r d = refl
unary_name-Closed UnaryOperatorType.logical_not r d = refl

pub binary_name-Closed : (op : BinaryOperatorType) → Closed (binary_name op)
unfolding binary_name nesting
binary_name-Closed BinaryOperatorType.add r d = refl
binary_name-Closed _ r d = refl

pub initializer-Closes :
    (e : AstNode) (level : ℕ) (value : Text)
    → Closed value
    → Closes (print_initializer e level value)
unfolding print_initializer nesting
initializer-Closes null level value h = λ r d. refl
initializer-Closes _ level value h =
    let rest = labelled (suc level) (codes "initializer=\n") value ++ close level in
    rest-Closes (codes ",\n") rest (λ r d. refl)
      (rest-Closes (labelled (suc level) (codes "initializer=\n") value) (close level)
        (labelled-Closed (suc level) (codes "initializer=\n") value (λ r d. refl) h)
        (close-Closes level))
