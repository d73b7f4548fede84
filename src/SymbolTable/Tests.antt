-- ===== src/SymbolTable/Tests.antt =====
-- The theorems on src/validator/symbol_table.c at a concrete table.
use mathlib.Core.Logic.{◌↔◌}
use cleric.Common.{◌<◌, ◌≡◌, refl, true, none, some, if◌then◌else◌, ◌⊎◌, length}
use cleric.Common.Text.{codes, text_eq}
use cleric.Token.{TokenType, Token}
use cleric.SymbolTable.{
  SymbolTable, find_symbol, symbol_table_init, symbol_table_enter_scope,
  symbol_table_lookup_symbol_in_current_scope, symbol_table_lookup_symbol, symbol_table_add_symbol,
}
use cleric.SymbolTable.Lookup.{lookup-add_symbol, add_symbol_iff}

abbrev a_token : Token
a_token = record { type = TokenType.identifier; lexeme = some (codes "x"); position = 4 }

-- `x` declared in the global scope, and a block entered.
abbrev a_table : SymbolTable
a_table = symbol_table_enter_scope (symbol_table_add_symbol symbol_table_init (codes "x") a_token).1

declared : (symbol_table_add_symbol a_table (codes "x") a_token).0 ≡ true
unfolding symbol_table_add_symbol symbol_table_enter_scope symbol_table_init
    symbol_table_lookup_symbol_in_current_scope find_symbol
declared = refl

lookup-add_symbol_example :
    symbol_table_lookup_symbol (symbol_table_add_symbol a_table (codes "x") a_token).1 (codes "y")
    ≡ (if text_eq (codes "x") (codes "y")
        then some (record { name = codes "x"; declaration_token = a_token })
        else symbol_table_lookup_symbol a_table (codes "y"))
lookup-add_symbol_example = lookup-add_symbol a_table (codes "x") a_token (codes "y") declared

add_symbol_iff_example :
    (((symbol_table_add_symbol a_table (codes "x") a_token).0 ≡ true) ↔ (
      (0 < length a_table.scopes)
      × (symbol_table_lookup_symbol_in_current_scope a_table (codes "x") ≡ none)))
    × (((symbol_table_add_symbol a_table (codes "x") a_token).0 ≡ true)
        ⊎ ((symbol_table_add_symbol a_table (codes "x") a_token).1 ≡ a_table))
add_symbol_iff_example = add_symbol_iff a_table (codes "x") a_token
