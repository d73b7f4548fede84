-- ===== src/Validator/Depth.antt =====
-- Every path of the validator, failures included, leaves as many scopes as it found, and the
-- table's arrays within their capacities.
use cleric.Common.{
  ℕ, suc, ◌≤◌, ◌<◌, ◌≡◌, refl, ◌∙◌, ap, Bool, true, false, List, [], ◌∷◌, ◌++◌, arith, Bool-cases,
  Option-cases, inl, inr, length, All,
}
use cleric.Common.Text.{Text}
use cleric.Token.{Token}
use cleric.Ast.{
  AstNode, Nodes, null, program, func_def, return_stmt, int_literal, unary_op, binary_op, var_decl,
  identifier, block, nil, cons,
}
use cleric.SymbolTable.{
  Symbol, Scope, SymbolTable, grown, add_to_scope, add_to_current, without_first,
  symbol_table_enter_scope, symbol_table_exit_scope, symbol_table_add_symbol,
  symbol_table_lookup_symbol_in_current_scope,
}
use cleric.Validator.{
  Check, both, dummy_decl_token, validate_var_decl_node, validate_identifier_node, has_lvalue,
  validate_binary_op_node, validate_block_node, validate_node, validate_items,
}

-- Every array of the table has room for its elements.
pub record IsRoomy (st : SymbolTable) : Type 0 where
  pub stack : length st.scopes ≤ st.scope_capacity
  pub each : All (λ s. length s.symbols ≤ s.symbol_capacity) st.scopes

grown-room :
    (initial capacity count : ℕ)
    → 0 < initial
    → count ≤ capacity
    → suc count ≤ grown initial capacity count
unfolding grown
grown-room initial capacity count p h = ground arith

length-snoc : (ss : List Symbol) (s : Symbol) → length (ss ++ s ∷ []) ≡ suc (length ss)
length-snoc [] s = refl
length-snoc (x ∷ ss) s = ap suc (length-snoc ss s)

-- The check keeps the number of scopes, and the room in the arrays.
pub record Keeps (c : Check) : Type 0 where
  pub depth : (st : SymbolTable) → length (c st).1.scopes ≡ length st.scopes
  pub room : (st : SymbolTable) → IsRoomy st → IsRoomy (c st).1

accept-Keeps : Keeps (λ st. (true, st))
accept-Keeps = record { depth = λ st. refl; room = λ st h. h }

both-Keeps : (c d : Check) → Keeps c → Keeps d → Keeps (both c d)
both-Keeps c d p q = record {
  depth = λ st. elim (Bool-cases (c st).0) [
    | inl e ↦ rw e (q.depth (c st).1 ∙ p.depth st)
    | inr e ↦ rw e (p.depth st)
  ];
  room = λ st h. elim (Bool-cases (c st).0) [
    | inl e ↦ rw e (q.room (c st).1 (p.room st h))
    | inr e ↦ rw e (p.room st h)
  ];
}

-- A check whose table is the one that it was given.
same-Keeps : (c : Check) → ((st : SymbolTable) → (c st).1 ≡ st) → Keeps c
same-Keeps c e = record { depth = λ st. rw (e st); room = λ st h. rw (e st) h }

identifier-same : (x : Text) (st : SymbolTable) → (validate_identifier_node x st).1 ≡ st
unfolding validate_identifier_node
identifier-same x st = ground arith

add-depth :
    (ss : List Scope) (capacity : ℕ) (x : Text) (token : Token)
    → let st : SymbolTable = record { scopes = ss; scope_capacity = capacity } in
      length (symbol_table_add_symbol st x token).1.scopes ≡ length ss
unfolding symbol_table_add_symbol add_to_current
add-depth [] capacity x token = refl
add-depth (s ∷ ss) capacity x token = ground arith

add-room :
    (ss : List Scope) (capacity : ℕ) (x : Text) (token : Token)
    → let st : SymbolTable = record { scopes = ss; scope_capacity = capacity } in
      IsRoomy st → IsRoomy (symbol_table_add_symbol st x token).1
unfolding symbol_table_add_symbol add_to_current add_to_scope
add-room [] capacity x token h = h
add-room (s ∷ ss) capacity x token h =
    elim (Option-cases (
      symbol_table_lookup_symbol_in_current_scope
        (record { scopes = s ∷ ss; scope_capacity = capacity }) x)) [
          | inr (t, e) ↦ rw (e, symbol_table_add_symbol) h
          | inl e ↦
              rw (e, symbol_table_add_symbol)
                (record {
                  stack = h.stack;
                  each = (
                    rw (length-snoc s.symbols (record { name = x; declaration_token = token }))
                        (grown-room 8 s.symbol_capacity (length s.symbols) (omega arith) h.each.0),
                    h.each.1,
                  );
                })
        ]

add-Keeps : (x : Text) (token : Token) → Keeps (λ st. symbol_table_add_symbol st x token)
add-Keeps x token = record {
  depth = λ st. add-depth st.scopes st.scope_capacity x token;
  room = λ st h. add-room st.scopes st.scope_capacity x token h;
}

pub enter-IsRoomy : (st : SymbolTable) → IsRoomy st → IsRoomy (symbol_table_enter_scope st)
unfolding symbol_table_enter_scope
enter-IsRoomy st h = record {
  stack = grown-room 4 st.scope_capacity (length st.scopes) (omega arith) h.stack;
  each = (omega arith, h.each);
}

exit-IsRoomy :
    (ss : List Scope) (capacity : ℕ)
    → IsRoomy (record { scopes = ss; scope_capacity = capacity })
    → IsRoomy (record { scopes = without_first ss; scope_capacity = capacity })
exit-IsRoomy [] capacity h = h
exit-IsRoomy (s ∷ ss) capacity h = record {
  stack = let p = h.stack in omega arith;
  each = h.each.1;
}

length-without_first : (ss : List Scope) (n : ℕ) → length ss ≡ suc n → length (without_first ss) ≡ n
length-without_first [] n h = absurd (omega arith)
length-without_first (s ∷ ss) n h = omega arith

block-Keeps : (c : Check) → Keeps c → Keeps (validate_block_node c)
unfolding validate_block_node symbol_table_enter_scope symbol_table_exit_scope
block-Keeps c p = record {
  depth = λ st.
      length-without_first (c (symbol_table_enter_scope st)).1.scopes (length st.scopes)
        (p.depth (symbol_table_enter_scope st));
  room = λ st h.
      let st' = (c (symbol_table_enter_scope st)).1 in
      exit-IsRoomy st'.scopes st'.scope_capacity
        (p.room (symbol_table_enter_scope st) (enter-IsRoomy st h));
}

binary-Keeps : (b : Bool) (c d : Check) → Keeps c → Keeps d → Keeps (validate_binary_op_node b c d)
unfolding validate_binary_op_node
binary-Keeps true c d p q = both-Keeps c d p q
binary-Keeps false c d p q = record { depth = λ st. refl; room = λ st h. h }

mutual
  unfolding validate_node validate_var_decl_node

  node-Keeps : (n : AstNode) → Keeps (validate_node n)
  node-Keeps null = accept-Keeps
  node-Keeps (program f) = node-Keeps f
  node-Keeps (func_def name body) = node-Keeps body
  node-Keeps (return_stmt e) = node-Keeps e
  node-Keeps (int_literal v) = accept-Keeps
  node-Keeps (unary_op op e) = node-Keeps e
  node-Keeps (binary_op op l r) =
      binary-Keeps (has_lvalue op l) (validate_node l) (validate_node r) (node-Keeps l)
        (node-Keeps r)
  node-Keeps (var_decl type x e) =
      both-Keeps (λ st. symbol_table_add_symbol st x (dummy_decl_token x)) (validate_node e)
        (add-Keeps x (dummy_decl_token x)) (node-Keeps e)
  node-Keeps (identifier x) = same-Keeps (validate_identifier_node x) (identifier-same x)
  node-Keeps (block items) = block-Keeps (validate_items items) (items-Keeps items)

  items-Keeps : (ns : Nodes) → Keeps (validate_items ns)
  items-Keeps nil = accept-Keeps
  items-Keeps (cons n ns) =
      both-Keeps (validate_node n) (validate_items ns) (node-Keeps n) (items-Keeps ns)

-- Whether it accepts or refuses a node, the validator leaves as many scopes as it found.
pub validate_node-depth :
    (n : AstNode) (st : SymbolTable) → length (validate_node n st).1.scopes ≡ length st.scopes
validate_node-depth n = let k = node-Keeps n in k.depth

-- From a table where the number of scopes is within the capacity of the stack, and the number of
-- symbols of each scope within that scope's capacity, the validator leaves such a table, whether
-- it accepts or refuses the node.
pub validate_node-IsRoomy :
    (n : AstNode) (st : SymbolTable) → IsRoomy st → IsRoomy (validate_node n st).1
validate_node-IsRoomy n = let k = node-Keeps n in k.room
