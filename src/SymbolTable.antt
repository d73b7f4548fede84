-- ===== src/SymbolTable.antt =====
-- src/validator/symbol_table.c: a stack of scopes, each an array of symbols. The innermost scope,
-- which is the last of the source's array, stands first in the list; counts are lengths. Allocation
-- in the arena succeeds.
pub mod Lookup
mod Tests
use cleric.Common.{
  ℕ, ◌*◌, ◌≤◌, ◌<◌, ◌≡◌, refl, Bool, true, false, Option, none, some, List, [], ◌∷◌, ◌++◌, arith,
  leb, ◌==◌, if◌then◌else◌, length,
}
use cleric.Common.Text.{Text, text_eq}
use cleric.Token.{Token}

abbrev pub initial_scope_capacity : ℕ
initial_scope_capacity = 4

abbrev pub initial_symbol_capacity : ℕ
initial_symbol_capacity = 8

pub record Symbol : Type 0 where
  pub name : Text
  pub declaration_token : Token

pub record Scope : Type 0 where
  pub symbols : List Symbol
  pub symbol_capacity : ℕ

pub record SymbolTable : Type 0 where
  pub scopes : List Scope
  pub scope_capacity : ℕ

-- The capacity of an array that has room for one more element.
unfoldable pub grown : ℕ → ℕ → ℕ → ℕ
grown initial capacity count =
    if leb capacity count then (if capacity == 0 then initial else capacity * 2) else capacity

abbrev pub empty_scope : Scope
empty_scope = record { symbols = []; symbol_capacity = 0 }

unfoldable pub symbol_table_enter_scope : SymbolTable → SymbolTable
symbol_table_enter_scope st = record {
  scopes = empty_scope ∷ st.scopes;
  scope_capacity = grown initial_scope_capacity st.scope_capacity (length st.scopes);
}

unfoldable pub symbol_table_init : SymbolTable
unfolding symbol_table_enter_scope
symbol_table_init = symbol_table_enter_scope (record { scopes = []; scope_capacity = 0 })

abbrev pub without_first : List Scope → List Scope
without_first [] = []
without_first (s ∷ ss) = ss

unfoldable pub symbol_table_exit_scope : SymbolTable → SymbolTable
symbol_table_exit_scope st = record st { scopes = without_first st.scopes }

-- The loop over the symbols of one scope.
unfoldable pub find_symbol : List Symbol → Text → Option Symbol
find_symbol [] name = none
find_symbol (s ∷ ss) name = if text_eq s.name name then some s else find_symbol ss name

unfoldable pub lookup_in_current : List Scope → Text → Option Symbol
lookup_in_current [] name = none
lookup_in_current (s ∷ ss) name = find_symbol s.symbols name

unfoldable pub symbol_table_lookup_symbol_in_current_scope : SymbolTable → Text → Option Symbol
unfolding lookup_in_current
symbol_table_lookup_symbol_in_current_scope st = lookup_in_current st.scopes

abbrev pub or_else {ℓ} : {A : Type ℓ} → Option A → Option A → Option A
or_else (some a) o = some a
or_else none o = o

-- The loop over the scopes, from the innermost outwards.
unfoldable pub lookup_in_scopes : List Scope → Text → Option Symbol
lookup_in_scopes [] name = none
lookup_in_scopes (s ∷ ss) name = or_else (find_symbol s.symbols name) (lookup_in_scopes ss name)

unfoldable pub symbol_table_lookup_symbol : SymbolTable → Text → Option Symbol
unfolding lookup_in_scopes
symbol_table_lookup_symbol st = lookup_in_scopes st.scopes

unfoldable pub add_to_scope : Scope → Symbol → Scope
add_to_scope s symbol = record {
  symbols = s.symbols ++ symbol ∷ [];
  symbol_capacity = grown initial_symbol_capacity s.symbol_capacity (length s.symbols);
}

unfoldable pub add_to_current : List Scope → Symbol → List Scope
unfolding add_to_scope
add_to_current [] symbol = []
add_to_current (s ∷ ss) symbol = add_to_scope s symbol ∷ ss

-- The result is false with no scope, and for a name that the innermost scope has.
unfoldable pub symbol_table_add_symbol : SymbolTable → Text → Token → Bool × SymbolTable
symbol_table_add_symbol st name declaration_token =
    let symbol : Symbol = record { name = name; declaration_token = declaration_token } in
    let added : SymbolTable = record st { scopes = add_to_current st.scopes symbol } in
    elim st.scopes [
      | [] ↦ (false, st)
      | s ∷ ss ↦ elim (symbol_table_lookup_symbol_in_current_scope st name) [
        | some _ ↦ (false, st)
        | none ↦ (true, added)
      ]
    ]

abbrev pub symbol_table_free : SymbolTable → SymbolTable
symbol_table_free st = record { scopes = []; scope_capacity = 0 }
