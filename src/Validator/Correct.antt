-- ===== src/Validator/Correct.antt =====
-- The validator accepts exactly the programs that obey the scoping rules.
use mathlib.Core.Logic.{◌↔◌}
use mathlib.Core.Bool.{false≢true}
use cleric.Common.{◌≡◌, refl, ◌∙◌, sym, ap, Bool, true, false, List, [], ◌∷◌}
use cleric.Ast.{
  BinaryOperatorType, AstNode, Nodes, null, program, func_def, return_stmt, int_literal, unary_op,
  binary_op, var_decl, identifier, block, nil, cons,
}
use cleric.SymbolTable.{
  Scope, without_first, symbol_table_init, symbol_table_enter_scope, symbol_table_exit_scope,
}
use cleric.Validator.{
  Check, dummy_decl_token, validate_var_decl_node, has_lvalue, validate_binary_op_node,
  validate_block_node, validate_node, validate_items, validate_program,
}
use cleric.Validator.Scoping.{
  Env, names, names_of, env, Decides, accept-Decides, both-Decides, outer, IsLvalue, Scoped,
  ScopedItems,
}
use cleric.Validator.Names.{add-Decides, identifier-Decides}

env-exit : (ss : List Scope) → names_of (without_first ss) ≡ outer (names_of ss)
unfolding names_of
env-exit [] = refl
env-exit (s ∷ ss) = refl

block-Decides :
    (c : Check) (R : Env → Env → Type 0)
    → Decides c R
    → Decides (validate_block_node c) (λ Γ Δ. (Θ : Env) × R ([] ∷ Γ) Θ × (Δ ≡ outer Θ))
unfolding validate_block_node env names symbol_table_enter_scope symbol_table_exit_scope
block-Decides c R p = record {
  sound = λ st h.
      let st₁ = symbol_table_enter_scope st in
      let st₂ = (c st₁).1 in (env st₂, p.sound st₁ h, env-exit st₂.scopes);
  complete = λ st Δ (Θ, r, e).
      let st₁ = symbol_table_enter_scope st in
      let (done, here) = p.complete st₁ Θ r in
      (done, env-exit (c st₁).1.scopes ∙ ap outer here ∙ sym e);
}

has_lvalue_iff :
    (op : BinaryOperatorType) (left : AstNode) → (has_lvalue op left ≡ true) ↔ IsLvalue op left
unfolding has_lvalue
has_lvalue_iff BinaryOperatorType.assign (identifier x) = (λ h. (x, refl), λ h. refl)
has_lvalue_iff BinaryOperatorType.assign _ = (λ h. cc, λ (x, e). cc)
has_lvalue_iff _ left = (λ h. tt, λ h. refl)

binary-Decides :
    (op : BinaryOperatorType) (left : AstNode) (c : Check) (R : Env → Env → Type 0)
    → (b : Bool) → (b ≡ true) ↔ IsLvalue op left
    → (d : Check) (S : Env → Env → Type 0) → Decides c R
    → Decides d S
    → Decides
        (validate_binary_op_node b c d)
        (λ Γ Δ. IsLvalue op left × ((Θ : Env) × R Γ Θ × S Θ Δ))
unfolding validate_binary_op_node
binary-Decides op left c R true iff d S p q =
    let w = both-Decides c d R S p q in
    record {
      sound = λ st h. (iff.0 refl, w.sound st h);
      complete = λ st Δ (l, r). w.complete st Δ r;
    }
binary-Decides op left c R false iff d S p q = record {
  sound = λ st h. absurd (false≢true h);
  complete = λ st Δ (l, r). absurd (false≢true (iff.1 l));
}

mutual
  unfolding validate_node Scoped validate_var_decl_node

  node-Decides : (n : AstNode) → Decides (validate_node n) (Scoped n)
  node-Decides null = accept-Decides
  node-Decides (program f) = node-Decides f
  node-Decides (func_def name body) = node-Decides body
  node-Decides (return_stmt e) = node-Decides e
  node-Decides (int_literal v) = accept-Decides
  node-Decides (unary_op op e) = node-Decides e
  node-Decides (binary_op op l r) =
      binary-Decides op l (validate_node l) (Scoped l) (has_lvalue op l) (has_lvalue_iff op l)
        (validate_node r) (Scoped r) (node-Decides l) (node-Decides r)
  node-Decides (var_decl type x e) =
      both-Decides _ _ _ _ (add-Decides x (dummy_decl_token x)) (node-Decides e)
  node-Decides (identifier x) = identifier-Decides x
  node-Decides (block items) =
      block-Decides (validate_items items) (ScopedItems items) (items-Decides items)

  items-Decides : (ns : Nodes) → Decides (validate_items ns) (ScopedItems ns)
  items-Decides nil = accept-Decides
  items-Decides (cons n ns) = both-Decides _ _ _ _ (node-Decides n) (items-Decides ns)

-- validate_program accepts a tree exactly where its root is a program node and, from a global scope
-- that declares nothing, the program obeys the scoping rules: every variable that is used is
-- declared before in the same or an enclosing block, none is declared twice in one block, and the
-- left-hand side of an assignment is a variable.
pub validate_program_iff :
    (n : AstNode)
    → (validate_program n ≡ true)
      ↔ ((f : AstNode) × (n ≡ program f) × ((Δ : Env) × Scoped f ([] ∷ []) Δ))
unfolding validate_program Scoped symbol_table_init env names
validate_program_iff (program f) =
    let d = node-Decides (program f) in
    (
      λ h. (
        f,
        refl,
        (env (validate_node (program f) symbol_table_init).1, d.sound symbol_table_init h),
      ),
      λ (g, e, (Δ, r)).
          let same : g ≡ f = cc e in (d.complete symbol_table_init Δ (rw (← same) r)).0,
    )
validate_program_iff _ = (λ h. absurd (false≢true h), λ (f, e, r). cc)
