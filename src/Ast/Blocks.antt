-- ===== src/Ast/Blocks.antt =====
-- The growing array of a block in src/parser/ast.c.
use cleric.Common.{
  ℕ, ◌*◌, ◌%◌, ◌^◌, ◌≤◌, ◌≡◌, refl, Bool, true, false, Option, none, some, [], ◌∷◌, ◌++◌, leb,
  if◌then◌else◌, length, length-append, arith, Bool-cases, inl, inr,
}
use cleric.Arena.{Arena, arena_alloc}
use cleric.Ast.{AstNode}
use cleric.Ast.Create.{
  BlockNode, grown_capacity, is_null, append_item, after_growth, block_node_add_item,
}

-- The items fit the array.
abbrev pub IsRoomy : BlockNode → Type 0
IsRoomy block = length block.items ≤ block.capacity

-- How the call ends: with the item behind the others, in an array that has not shrunk, or with the
-- block as it was.
abbrev pub Adds : BlockNode → AstNode → Bool → Bool × BlockNode → Type 0
Adds block item can (done, after) =
    IsRoomy after
    × (done ≡ can)
    × (after.items ≡ (if can then block.items ++ item ∷ [] else block.items))
    × (block.capacity ≤ after.capacity)

grows-IsRoomy :
    (block : BlockNode) (item : AstNode)
    → IsRoomy block
    → IsRoomy (append_item block item (grown_capacity block))
      × (block.capacity ≤ grown_capacity block)
grows-IsRoomy block item h = (ground (arith, length-append block.items (item ∷ [])), ground arith)

abbrev pub is_some : Option ℕ → Bool
is_some none = false
is_some (some address) = true

-- The item can be added: it is not NULL, and there is a place for it in the array or the arena gives
-- a larger one.
abbrev pub can_add : ℕ → BlockNode → AstNode → Arena → Bool
can_add pointer_size block item arena =
    if is_null item
    then false
    else (if leb block.capacity (length block.items)
        then is_some (arena_alloc arena (grown_capacity block * pointer_size % 2 ^ 64)).0
        else true)

growth-Adds :
    (o : Option ℕ) (block : BlockNode) (item : AstNode) (arena : Arena)
    → IsRoomy block
    → Adds block item (is_some o) (after_growth o block item (grown_capacity block) arena).0
growth-Adds none block item arena h = (h, refl, refl, omega arith)
growth-Adds (some address) block item arena h =
    let (roomy, grows) = grows-IsRoomy block item h in (roomy, refl, refl, grows)

-- Adding an item to a block whose items fit its array succeeds exactly where the item is not NULL
-- and there is a place for it, in the array or in a larger one that the arena gives. Then the item
-- stands behind the others, and else the items are as before; they fit the array again, which has
-- not shrunk.
pub block_node_add_item-Adds :
    (pointer_size : ℕ) (block : BlockNode) (item : AstNode) (arena : Arena)
    → IsRoomy block
    → Adds block item
        (can_add pointer_size block item arena)
        (block_node_add_item pointer_size block item arena).0
unfolding block_node_add_item
block_node_add_item-Adds pointer_size block item arena h = elim (Bool-cases (is_null item)) [
  | inl e ↦ rw e (h, refl, refl, omega arith)
  | inr e ↦ elim (Bool-cases (leb block.capacity (length block.items))) [
    | inl f ↦ rw (e, f) (growth-Adds _ block item _ h)
    | inr f ↦
        rw (e, f) (ground (arith, length-append block.items (item ∷ [])), refl, refl, omega arith)
  ]
]
