-- ===== src/Tac/Listing.antt =====
-- How a program of src/ir/tac.h reads line by line, described apart from the printing functions of
-- src/ir/tac.c: an instruction is a list of words with a blank between two of them.
use cleric.Common.{ℕ, zero, suc, List, [], ◌∷◌, ◌++◌, ◌==◌, if◌then◌else◌, All, ◌≡◌, false}
use cleric.Common.Int.{int_text}
use cleric.Common.Text.{Text, codes, decimal}
use cleric.Tac.{
  TacOperand, const, temp, label, invalid, UnaryType, BinaryType, RelationalType, ConditionalType,
  if_false_goto, if_true_goto, TacInstruction, copy, unary_op, ret, binary_op, relational_op,
  label_def, go_to, conditional_goto, TacFunction,
}

abbrev pub cons_first : ℕ → List Text → List Text
cons_first x [] = (x ∷ []) ∷ []
cons_first x (w ∷ ws) = (x ∷ w) ∷ ws

-- The texts between the line feeds.
unfoldable pub lines : Text → List Text
lines [] = [] ∷ []
lines (x ∷ xs) = let rest = lines xs in if x == 10 then [] ∷ rest else cons_first x rest

-- The words with blanks between them.
abbrev pub unwords : List Text → Text
unwords [] = []
unwords (w ∷ []) = w
unwords (w ∷ v ∷ ws) = w ++ 32 ∷ unwords (v ∷ ws)

abbrev pub operand_word : TacOperand → Text
operand_word (const v) = int_text v
operand_word (temp n) = b't' ∷ decimal n
operand_word (label name) = name
operand_word invalid = codes "<unk_op_type:-1>"

abbrev pub unary_word : UnaryType → Text
unary_word UnaryType.negate = codes "-"
unary_word UnaryType.complement = codes "~"
unary_word UnaryType.logical_not = codes "!"

abbrev pub binary_word : BinaryType → Text
binary_word BinaryType.add = codes "+"
binary_word BinaryType.sub = codes "-"
binary_word BinaryType.mul = codes "*"
binary_word BinaryType.div = codes "/"
binary_word BinaryType.mod_ = codes "%"
binary_word BinaryType.logical_and = codes "&&"
binary_word BinaryType.logical_or = codes "||"

abbrev pub relational_word : RelationalType → Text
relational_word RelationalType.less = codes "<"
relational_word RelationalType.greater = codes ">"
relational_word RelationalType.less_equal = codes "<="
relational_word RelationalType.greater_equal = codes ">="
relational_word RelationalType.equal = codes "=="
relational_word RelationalType.not_equal = codes "!="

abbrev pub conditional_word : ConditionalType → Text
conditional_word if_false_goto = codes "if_false"
conditional_word if_true_goto = codes "if_not_zero"

abbrev pub words : TacInstruction → List Text
words (copy dst src) = operand_word dst ∷ codes "=" ∷ operand_word src ∷ []
words (unary_op op dst src) = operand_word dst ∷ codes "=" ∷ unary_word op ∷ operand_word src ∷ []
words (ret src) = codes "return" ∷ operand_word src ∷ []
words (binary_op op dst src₁ src₂) =
    operand_word dst ∷ codes "=" ∷ operand_word src₁ ∷ binary_word op ∷ operand_word src₂ ∷ []
words (relational_op op dst src₁ src₂) =
    operand_word dst ∷ codes "=" ∷ operand_word src₁ ∷ relational_word op ∷ operand_word src₂ ∷ []
words (label_def l) = (operand_word l ++ codes ":") ∷ []
words (go_to l) = codes "goto" ∷ operand_word l ∷ []
words (conditional_goto op condition l) =
    conditional_word op ∷ operand_word condition ∷ codes "goto" ∷ operand_word l ∷ []

-- Two blanks for each level.
abbrev pub indented : ℕ → Text → Text
indented zero t = t
indented (suc level) t = 32 ∷ 32 ∷ indented level t

abbrev pub rows : List TacInstruction → List Text
rows [] = []
rows (i ∷ is) = indented 2 (unwords (words i)) ∷ rows is

-- The line that names a function, and one for each instruction.
abbrev pub function_rows : TacFunction → List Text
function_rows f = indented 1 (codes "function " ++ (f.name ++ codes ":")) ∷ rows f.instructions

-- An empty line between two functions.
abbrev pub listing : List TacFunction → List Text
listing [] = []
listing (f ∷ []) = function_rows f
listing (f ∷ g ∷ fs) = function_rows f ++ [] ∷ listing (g ∷ fs)

abbrev pub HasNoFeed : Text → Type 0
HasNoFeed t = All (λ x. (x == 10) ≡ false) t

-- The name of a label has no line feed.
abbrev pub IsOneRow : TacOperand → Type 0
IsOneRow (label name) = HasNoFeed name
IsOneRow _ = Unit

abbrev pub IsRow : TacInstruction → Type 0
IsRow (copy dst src) = IsOneRow dst × IsOneRow src
IsRow (unary_op op dst src) = IsOneRow dst × IsOneRow src
IsRow (ret src) = IsOneRow src
IsRow (binary_op op dst src₁ src₂) = IsOneRow dst × IsOneRow src₁ × IsOneRow src₂
IsRow (relational_op op dst src₁ src₂) = IsOneRow dst × IsOneRow src₁ × IsOneRow src₂
IsRow (label_def l) = IsOneRow l
IsRow (go_to l) = IsOneRow l
IsRow (conditional_goto op condition l) = IsOneRow condition × IsOneRow l

abbrev pub HasRows : TacFunction → Type 0
HasRows f = HasNoFeed f.name × All IsRow f.instructions

-- The names of the functions and labels have no line feed.
abbrev pub HaveRows : List TacFunction → Type 0
HaveRows fs = All HasRows fs
