-- ===== src/Compiler/Translation.antt =====
-- What src/ir/ast_to_tac.c makes of a function body is what src/codegen/codegen.c can translate.
use cleric.Common.{ℕ, ◌≤◌, ◌≡◌, refl, true, some, [], ◌∷◌, ◌++◌, All, All-append, All-mono, arith}
use cleric.Common.Text.{Text}
use cleric.Ast.{AstNode, Nodes, program, func_def, return_stmt, block, nil, cons}
use cleric.Tac.{
  TacInstruction, TacFunction, TacProgram, ret, create_tac_program, add_function_to_program,
}
use cleric.AstToTac.{ast_to_tac}
use cleric.AstToTac.Body.{Body, body_of, items_of, is_supported_statement}
use cleric.AstToTac.Correct.{function_of, translated, instructions-function_of}
use cleric.AstToTac.Gen.{gen}
use cleric.AstToTac.Labels.{gen-IsWithin}
use cleric.Codegen.{
  Buffer, prologue, generate_tac_function, generate_functions, codegen_generate_program,
}
use cleric.Codegen.Encoding.{IsLegal, max_places}
use cleric.Codegen.Lines.{generate_instructions-all_lines}
use cleric.Compiler.Legal.{HasInts, IsInner, max_labels, gen-Legal}

-- The literals of the returned expressions are values of `int`.
abbrev mutual
  pub ReturnsInts : AstNode → Type 0
  ReturnsInts (return_stmt e) = HasInts e
  ReturnsInts (block items) = AllReturnInts items
  ReturnsInts _ = Unit

  pub AllReturnInts : Nodes → Type 0
  AllReturnInts nil = Unit
  AllReturnInts (cons item items) = ReturnsInts item × AllReturnInts items

IsInner-IsLegal : (d : ℕ) (i : TacInstruction) → IsInner d i → IsLegal d i
IsInner-IsLegal d (ret src) h = absurd h
IsInner-IsLegal d _ h = h

-- The counters grow.
abbrev Grows : ℕ → ℕ → Body → Type 0
Grows t l b = (t ≤ b.next_temp) × (l ≤ b.next_label)

mutual
  unfolding body_of

  body-Grows : (n : AstNode) (t l : ℕ) → Grows t l (body_of n t l)
  body-Grows (return_stmt e) t l = let w = gen-IsWithin e t l in (w.temps, w.labels)
  body-Grows (block items) t l = items-Grows items t l
  body-Grows _ t l = (omega arith, omega arith)

  items-Grows : (ns : Nodes) (t l : ℕ) → Grows t l (items_of ns t l)
  items-Grows nil t l = (omega arith, omega arith)
  items-Grows (cons n ns) t l =
      let a = body_of n t l in
      let (p, q) = body-Grows n t l in
      let (r, s) = items-Grows ns a.next_temp a.next_label in (omega arith, omega arith)

-- The code is legal in a frame for all its temporaries.
abbrev Fits : ℕ → Body → Type 0
Fits d b = b.next_temp ≤ d → b.next_label ≤ max_labels → All (IsLegal d) b.code

mutual
  unfolding body_of

  body-Fits : (n : AstNode) (d t l : ℕ) → ReturnsInts n → Fits d (body_of n t l)
  body-Fits (return_stmt e) d t l ints ht hl =
      let p = gen-Legal e ints d t l ht hl in
      All-append _ _ _ (All-mono _ _ (IsInner-IsLegal d) (gen e t l).code p.code) (p.operand, tt)
  body-Fits (block items) d t l ints ht hl = items-Fits items d t l ints ht hl
  body-Fits _ d t l ints ht hl = tt

  items-Fits : (ns : Nodes) (d t l : ℕ) → AllReturnInts ns → Fits d (items_of ns t l)
  items-Fits nil d t l ints ht hl = tt
  items-Fits (cons n ns) d t l (i, is) ht hl =
      let a = body_of n t l in
      let (r, s) = items-Grows ns a.next_temp a.next_label in
      All-append _ _ _ (body-Fits n d t l i (omega arith) (omega arith))
        (items-Fits ns d a.next_temp a.next_label is ht hl)

-- For a function whose body consists of returns of expressions that the translation has a case for
-- and nested blocks of such statements, with literals of type `int`, and whose code needs at most
-- 2^28 - 1 temporaries and 2^31 labels: every instruction of the program that ast_to_tac gives has
-- operands of the kinds that its type asks for (temporaries of the function as destinations, short
-- labels as targets, constants of type `int` or temporaries of the function as values), and
-- codegen_generate_program succeeds on the program, whatever the buffer holds.
pub translation-IsLegal :
    (name : Text) (body : AstNode) (sb : Buffer)
    → is_supported_statement body ≡ true
    → ReturnsInts body
    → (body_of body 0 0).next_temp ≤ max_places
    → (body_of body 0 0).next_label ≤ max_labels
    → (f : TacFunction) × (prog : TacProgram) × (ast_to_tac (program (func_def name body))
        ≡ some prog)
      × (prog.functions ≡ f ∷ [])
      × All (IsLegal (body_of body 0 0).next_temp) f.instructions
      × ((codegen_generate_program prog sb).0 ≡ true)
unfolding ast_to_tac create_tac_program add_function_to_program codegen_generate_program
    generate_functions generate_tac_function
translation-IsLegal name body sb s ints places labels =
    let f = function_of name body in
    let d = (body_of body 0 0).next_temp in
    let legal : All (IsLegal d) f.instructions =
      rw (instructions-function_of name body) (body-Fits body d 0 0 ints (omega arith) labels) in
    (
      f,
      add_function_to_program create_tac_program f,
      rw (translated name body s) refl,
      refl,
      legal,
      rw (generate_instructions-all_lines d places f.instructions (sb ++ prologue f) legal) refl,
    )
