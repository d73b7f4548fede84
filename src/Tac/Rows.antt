-- ===== src/Tac/Rows.antt =====
-- The lines that tac_print_function and tac_print_program of src/ir/tac.c print.
use cleric.Common.{ℕ, zero, suc, ◌≡◌, refl, sym, ◌∙◌, ap, List, [], ◌∷◌, ◌++◌, append_assoc, All}
use cleric.Common.Text.{Text, codes}
use cleric.Tac.{TacInstruction, TacFunction, TacProgram}
use cleric.Tac.Feeds.{IsLine, before-IsLine, plain-Feedless, instruction-IsLine}
use cleric.Tac.Listing.{
  lines, cons_first, unwords, words, indented, rows, function_rows, listing, HasNoFeed, IsRow,
  HasRows, HaveRows,
}
use cleric.Tac.Print.{
  print_tac_indent, tac_print_instruction, print_instructions, tac_print_function, print_functions,
  tac_print_program,
}

-- A text that is so many whole lines.
abbrev IsLines : Text → List Text → Type 0
IsLines t ls = (r : Text) → lines (t ++ r) ≡ ls ++ lines r

line-IsLines :
    (s t w : Text) (ls : List Text) → IsLine s w → IsLines t ls → IsLines (s ++ t) (w ∷ ls)
line-IsLines s t w ls p q r = rw (append_assoc s t r) (p (t ++ r) ∙ ap (λ ls. w ∷ ls) (q r))

-- The blanks before a line.
indent-IsLine :
    (level : ℕ) (t w : Text) → IsLine t w → IsLine (print_tac_indent level ++ t) (indented level w)
unfolding print_tac_indent lines
indent-IsLine zero t w p r = p r
indent-IsLine (suc level) t w p r =
    ap (λ ls. cons_first 32 (cons_first 32 ls)) (indent-IsLine level t w p r)

instructions-IsLines :
    (is : List TacInstruction) → All IsRow is → IsLines (print_instructions is 2) (rows is)
unfolding print_instructions
instructions-IsLines [] h = λ r. refl
instructions-IsLines (i ∷ is) (h, hs) =
    let rest = print_instructions is 2 in
    let text = tac_print_instruction i in
    let whole =
      line-IsLines (print_tac_indent 2 ++ text) rest (indented 2 (unwords (words i))) (rows is)
        (indent-IsLine 2 text (unwords (words i)) (instruction-IsLine i h))
        (instructions-IsLines is hs) in
    λ r. ap (λ t. lines (t ++ r)) (sym (append_assoc (print_tac_indent 2) text rest)) ∙ whole r

-- The text that names a function.
abbrev head_text : TacFunction → Text
head_text f = codes "function " ++ (f.name ++ codes ":\n")

head-IsLine :
    (f : TacFunction)
    → HasNoFeed f.name
    → IsLine (head_text f) (codes "function " ++ (f.name ++ codes ":"))
unfolding lines
head-IsLine f h =
    before-IsLine (codes "function ") (f.name ++ codes ":\n") (f.name ++ codes ":") (λ r. refl)
      (before-IsLine f.name (codes ":\n") (codes ":") (plain-Feedless f.name h) (λ r. refl))

tac_print_function-head :
    (f : TacFunction)
    → tac_print_function f 1
      ≡ (print_tac_indent 1 ++ head_text f) ++ print_instructions f.instructions 2
unfolding tac_print_function
tac_print_function-head f =
    let rest = print_instructions f.instructions 2 in
    sym (
      append_assoc (print_tac_indent 1) (head_text f) rest
      ∙ ap (λ t. print_tac_indent 1 ++ (codes "function " ++ t))
          (append_assoc f.name (codes ":\n") rest))

function-IsLines :
    (f : TacFunction) → HasRows f → IsLines (tac_print_function f 1) (function_rows f)
function-IsLines f (h, hs) =
    let name = codes "function " ++ (f.name ++ codes ":") in
    let whole =
      line-IsLines (print_tac_indent 1 ++ head_text f) (print_instructions f.instructions 2)
        (indented 1 name) (rows f.instructions)
        (indent-IsLine 1 (head_text f) name (head-IsLine f h))
        (instructions-IsLines f.instructions hs) in
    λ r. ap (λ t. lines (t ++ r)) (tac_print_function-head f) ∙ whole r

functions-IsLines :
    (fs : List TacFunction) → HaveRows fs → IsLines (print_functions fs) (listing fs)
unfolding print_functions lines
functions-IsLines [] h r = refl
functions-IsLines (f ∷ []) (h, hs) r = function-IsLines f h r
functions-IsLines (f ∷ g ∷ fs) (h, hs) r =
    let rest = print_functions (g ∷ fs) in
    let first = function-IsLines f h (10 ∷ (rest ++ r)) in
    let others = functions-IsLines (g ∷ fs) hs r in
    let apart : lines (print_functions (f ∷ g ∷ fs) ++ r)
        ≡ lines (tac_print_function f 1 ++ (10 ∷ (rest ++ r))) =
      ap lines (append_assoc (tac_print_function f 1) (10 ∷ rest) r) in
    apart
    ∙ first
    ∙ ap (λ ls. function_rows f ++ [] ∷ ls) others
    ∙ sym (append_assoc (function_rows f) ([] ∷ listing (g ∷ fs)) (lines r))

-- Where no function and no label has a name with a line feed, the lines of the printed program are
-- `program:`, those of its functions with an empty one between two of them, and `end program`, and
-- nothing stands behind the last line feed. Those of a function are its name, indented once, and its
-- instructions, indented twice, each the list of its words with a blank between two of them.
pub tac_print_program-rows :
    (program : TacProgram)
    → HaveRows program.functions
    → lines (tac_print_program program)
      ≡ codes "program:" ∷ (listing program.functions ++ codes "end program" ∷ [] ∷ [])
unfolding tac_print_program lines
tac_print_program-rows program h =
    ap (λ ls. codes "program:" ∷ ls) (functions-IsLines program.functions h (codes "end program\n"))
