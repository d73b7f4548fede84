-- ===== src/Compiler/Modes.antt =====
-- compile of src/compiler/compiler.c as a whole: it ends, and its modes agree.
use mathlib.Core.Option
use cleric.Common.{
  ℕ, ◌+◌, ◌*◌, ◌≤◌, ◌≡◌, refl, ◌∙◌, sym, ap, Bool, true, false, ◌||◌, Option, none, some,
  if◌then◌else◌, length,
}
use cleric.Common.Text.{Text}
use cleric.Ast.{AstNode}
use cleric.Validator.{validate_program}
use cleric.Tac.{TacProgram}
use cleric.AstToTac.{ast_to_tac}
use cleric.Codegen.{Buffer}
use cleric.Compiler.Answers.{
  Answer, answer_of, of_tac, of_tree, of_parse, accepts, tree, compile-Answers,
}
use cleric.Compiler.Stages.{Flags, Compiled, compile}

-- compile ends on every source, with every combination of modes and with or without a buffer: three
-- units of fuel for each byte of the source and ten more are enough.
pub compile-ends :
    (fuel : ℕ) (src : Text) (flags : Flags) (sb : Option Buffer)
    → length src * 3 + 10 ≤ fuel
    → (r : Compiled) × (compile fuel src flags sb ≡ some r)
compile-ends fuel src flags sb enough =
    let (r, e, _, _) = compile-Answers fuel src flags sb enough in (r, e)

-- The modes that end before code generation.
abbrev pub stops_early : Flags → Bool
stops_early flags = flags.lex_only || (flags.parse_only || (flags.validate_only || flags.tac_only))

if_same : {A : Type 0} (b : Bool) (x y z : A) → x ≡ z → y ≡ z → (if b then x else y) ≡ z
if_same true x y z p q = p
if_same false x y z p q = q

-- The mode that stops the compilation in a stage leaves the buffer, if the stages behind do so
-- without that mode.
if_stops :
    (b c : Bool) (x y : Answer) (sb : Option Buffer)
    → x.1 ≡ sb
    → (c ≡ true → y.1 ≡ sb)
    → b || c ≡ true
    → (if b then x else y).1 ≡ sb
if_stops true c x y sb p q h = p
if_stops false c x y sb p q h = q h

if_buffer :
    (b : Bool) (x y : Answer) (sb : Option Buffer)
    → x.1 ≡ sb
    → y.1 ≡ sb
    → (if b then x else y).1 ≡ sb
if_buffer true x y sb p q = p
if_buffer false x y sb p q = q

tac-keeps :
    (flags : Flags) (sb : Option Buffer) (o : Option TacProgram)
    → flags.tac_only ≡ true
    → (of_tac flags sb o).1 ≡ sb
tac-keeps flags sb none h = refl
tac-keeps flags sb (some prog) h = if_stops flags.tac_only false _ _ sb refl (λ f. cc) (rw h refl)

tree-keeps :
    (flags : Flags) (sb : Option Buffer) (n : AstNode)
    → flags.validate_only || flags.tac_only ≡ true
    → (of_tree flags sb n).1 ≡ sb
tree-keeps flags sb n h =
    if_buffer (validate_program n) _ _ sb
      (if_stops flags.validate_only flags.tac_only _ _ sb refl (tac-keeps flags sb (ast_to_tac n))
        h)
      refl

parse-keeps :
    (flags : Flags) (sb : Option Buffer) (o : Option AstNode)
    → flags.parse_only || (flags.validate_only || flags.tac_only) ≡ true
    → (of_parse flags sb o).1 ≡ sb
parse-keeps flags sb none h = refl
parse-keeps flags sb (some n) h = if_stops flags.parse_only _ _ _ sb refl (tree-keeps flags sb n) h

-- In a mode that ends before code generation, compile leaves the buffer as it is, whether it
-- succeeds or fails.
pub compile-keeps :
    (fuel : ℕ) (src : Text) (flags : Flags) (sb : Option Buffer)
    → length src * 3 + 10 ≤ fuel
    → stops_early flags ≡ true
    → (r : Compiled) × (compile fuel src flags sb ≡ some r) × (r.buffer ≡ sb)
compile-keeps fuel src flags sb enough h =
    let (r, e, _, buffer) = compile-Answers fuel src flags sb enough in
    (
      r,
      e,
      buffer
          ∙ if_buffer (accepts fuel src) _ _ sb
              (if_stops flags.lex_only _ _ _ sb refl (parse-keeps flags sb (tree fuel src)) h) refl,
    )

abbrev pub no_flags : Flags
no_flags = record {
  lex_only = false;
  parse_only = false;
  validate_only = false;
  tac_only = false;
  codegen_only = false;
}

if_holds :
    (b : Bool) (x y : Answer)
    → y.0 ≡ false
    → (if b then x else y).0 ≡ true
    → (b ≡ true) × (x.0 ≡ true)
if_holds true x y p h = (refl, h)
if_holds false x y p h = absurd (cc)

if_answers : (b : Bool) (x y : Answer) → x.0 ≡ true → y.0 ≡ true → (if b then x else y).0 ≡ true
if_answers true x y p q = p
if_answers false x y p q = q

module _ (flags : Flags) (sb sb' : Buffer) where
  tac-modes :
      (o : Option TacProgram)
      → (of_tac no_flags (some sb) o).0 ≡ true
      → (of_tac flags (some sb') o).0 ≡ true
  tac-modes none h = cc
  tac-modes (some prog) h = if_answers flags.tac_only _ _ refl h

  tree-modes :
      (n : AstNode)
      → (of_tree no_flags (some sb) n).0 ≡ true
      → (of_tree flags (some sb') n).0 ≡ true
  tree-modes n h =
      let (v, t) = if_holds (validate_program n) _ _ refl h in
      rw v (if_answers flags.validate_only _ _ refl (tac-modes (ast_to_tac n) t))

  parse-modes :
      (o : Option AstNode)
      → (of_parse no_flags (some sb) o).0 ≡ true
      → (of_parse flags (some sb') o).0 ≡ true
  parse-modes none h = cc
  parse-modes (some n) h = if_answers flags.parse_only _ _ refl (tree-modes n h)

-- A source that compile accepts with no mode set is accepted in every combination of modes,
-- whatever the buffers hold before.
pub compile_modes :
    (fuel : ℕ) (src : Text) (flags : Flags) (sb sb' : Buffer) (r : Compiled)
    → length src * 3 + 10 ≤ fuel
    → compile fuel src no_flags (some sb) ≡ some r
    → r.success ≡ true
    → (q : Compiled) × (compile fuel src flags (some sb') ≡ some q) × (q.success ≡ true)
compile_modes fuel src flags sb sb' r enough e done =
    let (a, f, ok, _) = compile-Answers fuel src no_flags (some sb) enough in
    let same : a ≡ r = ap (λ o. Option.get_or o a) (sym f ∙ e) in
    let (l, t) = if_holds (accepts fuel src) _ _ refl (sym ok ∙ ap (λ c. c.success) same ∙ done) in
    let (q, g, ok', _) = compile-Answers fuel src flags (some sb') enough in
    let modes : (answer_of fuel src flags (some sb')).0 ≡ true =
      rw l (if_answers flags.lex_only _ _ refl (parse-modes flags sb sb' (tree fuel src) t)) in
    (q, g, ok' ∙ modes)
