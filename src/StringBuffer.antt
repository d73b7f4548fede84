-- ===== src/StringBuffer.antt =====
-- src/strings/strings.c: a growing buffer in an arena. `content` holds the bytes in front of the
-- terminating NUL, and its length is the source's `length`; the buffer's own address is left out, as
-- nothing reads it but the copy to a larger block. A size_t has 64 bits. What vsnprintf makes of a
-- format and its arguments is the text that is passed.
pub mod Doubling
pub mod Growth
mod Tests
use cleric.Common.{
  ℕ, zero, suc, ◌+◌, ◌*◌, ◌%◌, ◌^◌, Bool, true, false, Option, none, some, List, [], ◌∷◌, ◌++◌, ltb,
  leb, ◌==◌, if◌then◌else◌, length,
}
use cleric.Common.Text.{Text}
use cleric.Arena.{Arena, arena_alloc}

pub record StringBuffer : Type 0 where
  pub content : Text
  pub capacity : ℕ
  pub arena : Arena

-- How the loop that doubles the capacity ends.
pub data Grown : Type 0 where
  out_of_fuel overflow : Grown
  to : ℕ → Grown

abbrev pub max_size : ℕ
max_size = 18446744073709551615

-- The loop of ensure_capacity, with fuel.
unfoldable pub grow : ℕ → ℕ → ℕ → ℕ → Grown
grow zero capacity required new_capacity = Grown.out_of_fuel
grow (suc fuel) capacity required new_capacity =
    let doubled = new_capacity * 2 % 2 ^ 64 in
    let rest = grow fuel capacity required doubled in
    if leb required new_capacity
    then Grown.to new_capacity
    else (if ltb doubled capacity
        then (if ltb max_size required then Grown.overflow else Grown.to max_size)
        else rest)

-- Whether there is room, and the buffer; `none` where the loop's fuel runs out.
unfoldable pub ensure_capacity : StringBuffer → ℕ → Option (Bool × StringBuffer)
unfolding grow
ensure_capacity sb additional_needed =
    let required_total = (length sb.content + additional_needed) % 2 ^ 64 in
    let required_capacity = (required_total + 1) % 2 ^ 64 in
    let grown =
      grow 65 sb.capacity required_capacity (if ltb 0 sb.capacity then sb.capacity else 1) in
    if ltb required_total (length sb.content)
    then some (false, sb)
    else (if leb required_capacity sb.capacity then some (true, sb) else (elim grown [
      | Grown.out_of_fuel ↦ none
      | Grown.overflow ↦ some (false, sb)
      | Grown.to new_capacity ↦
          let (new_buffer, arena) = arena_alloc sb.arena new_capacity in
          elim new_buffer [
            | none ↦ some (false, record sb { arena = arena })
            | some _ ↦ some (true, record sb { capacity = new_capacity; arena = arena })
          ]
    ]))

-- `none` where the source ends the process.
unfoldable pub string_buffer_init : Arena → ℕ → Option StringBuffer
string_buffer_init arena initial_capacity =
    let capacity = if initial_capacity == 0 then 16 else initial_capacity in
    let (buffer, arena') = arena_alloc arena capacity in
    elim buffer [
      | none ↦ none
      | some _ ↦ some (record { content = []; capacity = capacity; arena = arena' })
    ]

abbrev pub add_text : Text → Option (Bool × StringBuffer) → Option StringBuffer
add_text text none = none
add_text text (some (true, sb)) = some (record sb { content = sb.content ++ text })
add_text text (some (false, sb)) = some sb

unfoldable pub string_buffer_append : StringBuffer → Text → Option StringBuffer
unfolding ensure_capacity
string_buffer_append sb text = add_text text (ensure_capacity sb (length text))

unfoldable pub string_buffer_append_char : StringBuffer → ℕ → Option StringBuffer
unfolding ensure_capacity
string_buffer_append_char sb c = add_text (c ∷ []) (ensure_capacity sb 1)

unfoldable pub string_buffer_reset : StringBuffer → StringBuffer
string_buffer_reset sb = record sb { content = [] }

-- The text up to the NUL; the content has no NUL itself, and no buffer is NULL.
abbrev pub string_buffer_content_str : StringBuffer → Text
string_buffer_content_str sb = sb.content

-- The copy, where the text is not NULL and the arena has room for it, and the arena.
unfoldable pub arena_strdup : Arena → Option Text → Option Text × Arena
arena_strdup arena none = (none, arena)
arena_strdup arena (some s) =
    let (new_str, arena') = arena_alloc arena (length s + 1) in
    elim new_str [ none ↦ (none, arena') | some _ ↦ (some s, arena') ]
