-- ===== src/Validator/Scoping.antt =====
-- The scoping rules of the language as relations between the names declared before a node and
-- behind it, and the theorem that the validator decides them (in `Correct`).
use mathlib.Core.Bool.{false≢true}
use cleric.Common.{◌≡◌, refl, sym, true, false, List, [], ◌∷◌, ◌++◌, Bool-cases, inl, inr, ◌⊎◌}
use cleric.Common.Text.{Text}
use cleric.Ast.{
  BinaryOperatorType, AstNode, Nodes, null, program, func_def, return_stmt, int_literal, unary_op,
  binary_op, var_decl, identifier, block, nil, cons,
}
use cleric.SymbolTable.{Symbol, Scope, SymbolTable}
use cleric.Validator.{Check, both}

-- The names of each scope, the innermost first.
abbrev pub Env : Type 0
Env = List (List Text)

abbrev pub Declares : Text → List Text → Type 0
Declares x [] = ⊥
Declares x (y ∷ ys) = (y ≡ x) ⊎ Declares x ys

abbrev pub InScope : Text → Env → Type 0
InScope x [] = ⊥
InScope x (ys ∷ Γ) = Declares x ys ⊎ InScope x Γ

-- There is a scope, and the innermost one does not declare the name.
abbrev pub IsFresh : Text → Env → Type 0
IsFresh x [] = ⊥
IsFresh x (ys ∷ Γ) = ¬ Declares x ys

abbrev pub declare : Text → Env → Env
declare x [] = []
declare x (ys ∷ Γ) = (ys ++ x ∷ []) ∷ Γ

abbrev pub outer : Env → Env
outer [] = []
outer (ys ∷ Γ) = Γ

abbrev pub IsLvalue : BinaryOperatorType → AstNode → Type 0
IsLvalue BinaryOperatorType.assign left = (x : Text) × (left ≡ identifier x)
IsLvalue _ left = Unit

-- `Scoped n Γ Δ`: the node obeys the rules where Γ is declared, and Δ is declared behind it.
unfoldable mutual
  pub Scoped : AstNode → Env → Env → Type 0
  Scoped null Γ Δ = Δ ≡ Γ
  Scoped (program function) Γ Δ = Scoped function Γ Δ
  Scoped (func_def name body) Γ Δ = Scoped body Γ Δ
  Scoped (return_stmt e) Γ Δ = Scoped e Γ Δ
  Scoped (int_literal v) Γ Δ = Δ ≡ Γ
  Scoped (unary_op op e) Γ Δ = Scoped e Γ Δ
  Scoped (binary_op op l r) Γ Δ = IsLvalue op l × ((Θ : Env) × Scoped l Γ Θ × Scoped r Θ Δ)
  Scoped (var_decl type x e) Γ Δ = (Θ : Env) × (IsFresh x Γ × (Θ ≡ declare x Γ)) × Scoped e Θ Δ
  Scoped (identifier x) Γ Δ = InScope x Γ × (Δ ≡ Γ)
  Scoped (block items) Γ Δ = (Θ : Env) × ScopedItems items ([] ∷ Γ) Θ × (Δ ≡ outer Θ)

  pub ScopedItems : Nodes → Env → Env → Type 0
  ScopedItems nil Γ Δ = Δ ≡ Γ
  ScopedItems (cons n ns) Γ Δ = (Θ : Env) × Scoped n Γ Θ × ScopedItems ns Θ Δ

unfoldable pub names : List Symbol → List Text
names [] = []
names (s ∷ ss) = s.name ∷ names ss

unfoldable pub names_of : List Scope → Env
unfolding names
names_of [] = []
names_of (s ∷ ss) = names s.symbols ∷ names_of ss

-- What the table declares.
unfoldable pub env : SymbolTable → Env
unfolding names_of
env st = names_of st.scopes

-- The check accepts what the relation allows, and leaves the declarations that it says.
pub record Decides (c : Check) (R : Env → Env → Type 0) : Type 0 where
  pub sound : (st : SymbolTable) → (c st).0 ≡ true → R (env st) (env (c st).1)
  pub complete :
      (st : SymbolTable) (Δ : Env) → R (env st) Δ → ((c st).0 ≡ true) × (env (c st).1 ≡ Δ)

pub accept-Decides : Decides (λ st. (true, st)) (λ Γ Δ. Δ ≡ Γ)
accept-Decides = record { sound = λ st h. refl; complete = λ st Δ h. (refl, sym h) }

pub both-Decides :
    (c d : Check) (R S : Env → Env → Type 0)
    → Decides c R
    → Decides d S
    → Decides (both c d) (λ Γ Δ. (Θ : Env) × R Γ Θ × S Θ Δ)
both-Decides c d R S p q = record {
  sound = λ st h. elim (Bool-cases (c st).0) [
    | inl e ↦ (env (c st).1, p.sound st e, rw e (q.sound (c st).1 (rw e at h)))
    | inr e ↦ let no_way : false ≡ true = rw e at h in absurd (false≢true no_way)
  ];
  complete = λ st Δ (Θ, r, s).
      let (done, here) = p.complete st Θ r in rw done (q.complete (c st).1 Δ (rw here s));
}
