-- ===== src/Validator/Names.antt =====
-- What lookups and declarations in the symbol table say about the names that it declares.
use cleric.Common.{
  ℕ, ◌≡◌, refl, ◌∙◌, sym, true, false, none, some, List, [], ◌∷◌, ◌++◌, Bool-cases, Option-cases,
  inl, inr,
}
use cleric.Common.Text.{Text, text_eq, text_eq_refl, eq_of_text_eq}
use cleric.Token.{Token}
use cleric.SymbolTable.{
  Symbol, Scope, SymbolTable, find_symbol, lookup_in_scopes, add_to_current,
  symbol_table_lookup_symbol_in_current_scope, symbol_table_lookup_symbol, symbol_table_add_symbol,
}
use cleric.Validator.{validate_identifier_node}
use cleric.Validator.Scoping.{Declares, InScope, IsFresh, declare, names, names_of, env, Decides}

not-Declares : (ss : List Symbol) (x : Text) → find_symbol ss x ≡ none → ¬ Declares x (names ss)
unfolding find_symbol names
not-Declares [] x e d = elim d [ ]
not-Declares (s ∷ ss) x e (inl p) = let found = rw (p, text_eq_refl x) at e in cc
not-Declares (s ∷ ss) x e (inr d) = elim (Bool-cases (text_eq s.name x)) [
  | inl t ↦ let found = rw t at e in cc
  | inr t ↦ not-Declares ss x (rw t at e) d
]

Declares-found :
    (ss : List Symbol) (x : Text) (s : Symbol) → find_symbol ss x ≡ some s → Declares x (names ss)
unfolding find_symbol names
Declares-found [] x s e = cc
Declares-found (t ∷ ss) x s e = elim (Bool-cases (text_eq t.name x)) [
  | inl q ↦ inl (eq_of_text_eq t.name x q)
  | inr q ↦ inr (Declares-found ss x s (rw q at e))
]

names-append : (ss : List Symbol) (s : Symbol) → names (ss ++ s ∷ []) ≡ names ss ++ s.name ∷ []
unfolding names
names-append [] s = refl
names-append (t ∷ ss) s = rw (names-append ss s)

add_found :
    (s : Scope) (ss : List Scope) (capacity : ℕ) (x : Text) (token : Token) (t : Symbol)
    → find_symbol s.symbols x ≡ some t
    → (symbol_table_add_symbol (record { scopes = s ∷ ss; scope_capacity = capacity }) x token).0
      ≡ false
unfolding symbol_table_add_symbol symbol_table_lookup_symbol_in_current_scope
add_found s ss capacity x token t e = rw (e, symbol_table_add_symbol)

add_fresh :
    (s : Scope) (ss : List Scope) (capacity : ℕ) (x : Text) (token : Token)
    → find_symbol s.symbols x ≡ none
    → let st : SymbolTable = record { scopes = s ∷ ss; scope_capacity = capacity } in
      ((symbol_table_add_symbol st x token).0 ≡ true)
      × (env (symbol_table_add_symbol st x token).1 ≡ declare x (names_of (s ∷ ss)))
unfolding symbol_table_add_symbol symbol_table_lookup_symbol_in_current_scope add_to_current env
add_fresh s ss capacity x token e = (
  rw (e, symbol_table_add_symbol),
  rw (e, symbol_table_add_symbol) (rw (names-append s.symbols _)),
)

add_sound :
    (ss : List Scope) (capacity : ℕ) (x : Text) (token : Token)
    → let st : SymbolTable = record { scopes = ss; scope_capacity = capacity } in
      (symbol_table_add_symbol st x token).0 ≡ true
      → IsFresh x (names_of ss)
        × (env (symbol_table_add_symbol st x token).1 ≡ declare x (names_of ss))
unfolding symbol_table_add_symbol env
add_sound [] capacity x token h = cc
add_sound (s ∷ ss) capacity x token h = elim (Option-cases (find_symbol s.symbols x)) [
  | inl e ↦ (not-Declares s.symbols x e, (add_fresh s ss capacity x token e).1)
  | inr (t, e) ↦ let no_way : true ≡ false = sym h ∙ add_found s ss capacity x token t e in cc
]

add_complete :
    (ss : List Scope) (capacity : ℕ) (x : Text) (token : Token)
    → IsFresh x (names_of ss)
    → let st : SymbolTable = record { scopes = ss; scope_capacity = capacity } in
      ((symbol_table_add_symbol st x token).0 ≡ true)
      × (env (symbol_table_add_symbol st x token).1 ≡ declare x (names_of ss))
unfolding env
add_complete [] capacity x token h = elim h [ ]
add_complete (s ∷ ss) capacity x token h = elim (Option-cases (find_symbol s.symbols x)) [
  | inl e ↦ add_fresh s ss capacity x token e
  | inr (t, e) ↦ absurd (h (Declares-found s.symbols x t e))
]

pub add-Decides :
    (x : Text) (token : Token)
    → Decides (λ st. symbol_table_add_symbol st x token) (λ Γ Θ. IsFresh x Γ × (Θ ≡ declare x Γ))
unfolding env
add-Decides x token = record {
  sound = λ st h. add_sound st.scopes st.scope_capacity x token h;
  complete = λ st Δ (fresh, e).
      let (done, here) = add_complete st.scopes st.scope_capacity x token fresh in
      (done, here ∙ sym e);
}

not-InScope :
    (ss : List Scope) (x : Text) → lookup_in_scopes ss x ≡ none → ¬ InScope x (names_of ss)
unfolding lookup_in_scopes names_of
not-InScope [] x e d = elim d [ ]
not-InScope (s ∷ ss) x e d = elim (Option-cases (find_symbol s.symbols x)) [
  | inr (t, f) ↦ let found = rw f at e in cc
  | inl n ↦ elim d [
    | inl here ↦ not-Declares s.symbols x n here
    | inr further ↦ not-InScope ss x (rw n at e) further
  ]
]

InScope-found :
    (ss : List Scope) (x : Text) (s : Symbol)
    → lookup_in_scopes ss x ≡ some s
    → InScope x (names_of ss)
unfolding lookup_in_scopes names_of
InScope-found [] x s e = cc
InScope-found (t ∷ ss) x s e = elim (Option-cases (find_symbol t.symbols x)) [
  | inr (u, f) ↦ inl (Declares-found t.symbols x u f)
  | inl n ↦ inr (InScope-found ss x s (rw n at e))
]

pub identifier-Decides :
    (x : Text) → Decides (validate_identifier_node x) (λ Γ Δ. InScope x Γ × (Δ ≡ Γ))
unfolding validate_identifier_node env symbol_table_lookup_symbol
identifier-Decides x = record {
  sound = λ st h. elim (Option-cases (lookup_in_scopes st.scopes x)) [
    | inr (s, e) ↦ (InScope-found st.scopes x s e, rw (e, validate_identifier_node))
    | inl e ↦ let no_way : false ≡ true = rw (e, validate_identifier_node) at h in cc
  ];
  complete = λ st Δ (inside, e). elim (Option-cases (lookup_in_scopes st.scopes x)) [
    | inr (s, f) ↦ rw (f, validate_identifier_node) (refl, sym e)
    | inl f ↦ absurd (not-InScope st.scopes x f inside)
  ];
}
