-- ===== src/SymbolTable/Lookup.antt =====
-- What a lookup finds after a declaration, and when a declaration is refused.
use mathlib.Core.Logic.{◌↔◌}
use cleric.Common.{
  ℕ, ◌<◌, ◌≡◌, refl, true, none, some, List, [], ◌∷◌, ◌++◌, arith, if◌then◌else◌, length,
  Bool-cases, Option-cases, inl, inr, ◌⊎◌,
}
use cleric.Common.Text.{Text, text_eq, eq_of_text_eq}
use cleric.Token.{Token}
use cleric.SymbolTable.{
  Symbol, Scope, SymbolTable, or_else, find_symbol, lookup_in_scopes, add_to_scope, add_to_current,
  symbol_table_lookup_symbol_in_current_scope, symbol_table_lookup_symbol, symbol_table_add_symbol,
}

-- A new symbol at the end of a scope is found behind the older ones.
find_symbol-append :
    (ss : List Symbol) (s : Symbol) (x : Text)
    → find_symbol (ss ++ s ∷ []) x
      ≡ or_else (find_symbol ss x) (if text_eq s.name x then some s else none)
unfolding find_symbol
find_symbol-append [] s x = refl
find_symbol-append (t ∷ ss) s x = elim (Bool-cases (text_eq t.name x)) [
  | inl e ↦ rw e
  | inr e ↦ rw e (find_symbol-append ss s x)
]

module _ (name : Text) (declaration_token : Token) where
  abbrev new_symbol : Symbol
  new_symbol = record { name = name; declaration_token = declaration_token }

  lookup-add_scopes :
      (s : Scope) (ss : List Scope) (x : Text)
      → find_symbol s.symbols name ≡ none
      → lookup_in_scopes (add_to_scope s new_symbol ∷ ss) x
        ≡ (if text_eq name x then some new_symbol else lookup_in_scopes (s ∷ ss) x)
  unfolding lookup_in_scopes add_to_scope
  lookup-add_scopes s ss x fresh = elim (Bool-cases (text_eq name x)) [
    | inl e ↦
        let old : find_symbol s.symbols x ≡ none = rw (← eq_of_text_eq name x e) fresh in
        rw (find_symbol-append s.symbols new_symbol x, e, old)
    | inr e ↦
        rw (find_symbol-append s.symbols new_symbol x, e)
          (elim (Option-cases (find_symbol s.symbols x)) [ inl n ↦ rw n | inr (t, f) ↦ rw f ])
  ]

lookup-added :
    (ss : List Scope) (capacity : ℕ) (name : Text) (token : Token) (x : Text)
    → let st : SymbolTable = record { scopes = ss; scope_capacity = capacity } in
      (symbol_table_add_symbol st name token).0 ≡ true
      → lookup_in_scopes (symbol_table_add_symbol st name token).1.scopes x
        ≡ (if text_eq name x then some (new_symbol name token) else lookup_in_scopes ss x)
unfolding symbol_table_add_symbol symbol_table_lookup_symbol_in_current_scope add_to_current
lookup-added [] capacity name token x h = cc
lookup-added (s ∷ ss) capacity name token x h = elim (Option-cases (find_symbol s.symbols name)) [
  | inl fresh ↦ rw (fresh, symbol_table_add_symbol) (lookup-add_scopes name token s ss x fresh)
  | inr (t, found) ↦ cc (rw (found, symbol_table_add_symbol) at h)
]

-- Where symbol_table_add_symbol succeeds, a lookup of the declared name finds the new symbol,
-- whatever the outer scopes hold, and every other name is looked up as before.
pub lookup-add_symbol :
    (st : SymbolTable) (name : Text) (token : Token) (x : Text)
    → (symbol_table_add_symbol st name token).0 ≡ true
    → symbol_table_lookup_symbol (symbol_table_add_symbol st name token).1 x ≡ (
        if text_eq name x
        then some (record { name = name; declaration_token = token })
        else symbol_table_lookup_symbol st x)
unfolding symbol_table_lookup_symbol
lookup-add_symbol st name token x h = lookup-added st.scopes st.scope_capacity name token x h

-- symbol_table_add_symbol succeeds exactly where there is a scope and the innermost one does not have
-- the name; unless it succeeds, the table is unchanged.
pub add_symbol_iff :
    (st : SymbolTable) (name : Text) (token : Token)
    → (((symbol_table_add_symbol st name token).0 ≡ true)
        ↔ ((0 < length st.scopes) × (symbol_table_lookup_symbol_in_current_scope st name ≡ none)))
      × (((symbol_table_add_symbol st name token).0 ≡ true)
          ⊎ ((symbol_table_add_symbol st name token).1 ≡ st))
unfolding symbol_table_add_symbol symbol_table_lookup_symbol_in_current_scope
add_symbol_iff st name token = ground arith
