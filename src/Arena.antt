-- ===== src/Arena.antt =====
-- src/memory/arena.c: an arena is a block from malloc and an offset into it. Addresses are numbers;
-- `start` is `none` for NULL. The bytes of the block, which arena_reset clears, are left out. A
-- size_t has 64 bits, and MAX_ALIGNMENT is 16, the alignment of long double on x86-64.
pub mod Blocks
mod Tests
use cleric.Common.{
  ℕ, ◌+◌, ◌-◌, ◌*◌, ◌/◌, ◌%◌, ◌^◌, Option, none, some, List, [], ◌∷◌, ltb, if◌then◌else◌,
}

abbrev pub max_alignment : ℕ
max_alignment = 16

pub record Arena : Type 0 where
  pub start : Option ℕ
  pub total_size : ℕ
  pub offset : ℕ

-- `& ~(alignment - 1)` clears the low bits of a power of two.
unfoldable pub align_up : ℕ → ℕ → ℕ
align_up size alignment = (size + alignment - 1) % 2 ^ 64 / alignment * alignment

-- `malloced` is what malloc answers.
unfoldable pub arena_create : Option ℕ → ℕ → Arena
arena_create none initial_size = record { start = none; total_size = 0; offset = 0 }
arena_create (some p) initial_size = record {
  start = some p;
  total_size = initial_size;
  offset = 0;
}

unfoldable pub arena_alloc : Arena → ℕ → Option ℕ × Arena
unfolding align_up
arena_alloc arena size =
    let current_aligned_offset = align_up arena.offset max_alignment in
    let end = (current_aligned_offset + size) % 2 ^ 64 in
    elim arena.start [
      | none ↦ (none, arena)
      | some start ↦
          if ltb arena.total_size end
          then (none, arena)
          else (some (start + current_aligned_offset), record arena { offset = end })
    ]

unfoldable pub arena_destroy : Arena → Arena
arena_destroy arena = elim arena.start [
  | none ↦ arena
  | some _ ↦ record { start = none; total_size = 0; offset = 0 }
]

unfoldable pub arena_reset : Arena → Arena
arena_reset arena = record arena { offset = 0 }
