-- ===== src/Arena/Tests.antt =====
-- The theorems on src/memory/arena.c at a concrete arena.
use cleric.Common.{ℕ, ◌+◌, ◌-◌, ◌^◌, ◌≤◌, ◌<◌, ◌≡◌, ◌⊎◌, ◌%◌, refl, none, some, [], ◌∷◌, All, arith}
use cleric.Arena.{Arena, align_up, max_alignment, arena_alloc}
use cleric.Arena.Blocks.{
  IsLive, IsPlaced, AreApart, alloc_all, arena_alloc-cases, alloc_all-AreApart, arena_alloc-wraps,
}

abbrev an_arena : Arena
an_arena = record { start = some 4096; total_size = 64; offset = 20 }

an_arena-IsLive : IsLive 4096 an_arena
an_arena-IsLive = record {
  present = refl;
  aligned = refl;
  small = omega arith;
  within = omega arith;
}

arena_alloc-cases_example :
    (((arena_alloc an_arena 7).0 ≡ none)
      × ((arena_alloc an_arena 7).1 ≡ an_arena)
      × (64 < align_up 20 max_alignment + 7))
    ⊎ ((p : ℕ) × ((arena_alloc an_arena 7).0 ≡ some p)
        × (4096 + 20 ≤ p)
        × (p % max_alignment ≡ 0)
        × (p + 7 ≡ 4096 + (arena_alloc an_arena 7).1.offset)
        × ((arena_alloc an_arena 7).1.total_size ≡ 64)
        × IsLive 4096 (arena_alloc an_arena 7).1)
arena_alloc-cases_example = arena_alloc-cases 4096 an_arena 7 an_arena-IsLive (omega arith)

alloc_all-AreApart_example :
    All (IsPlaced (4096 + 20) (4096 + 64)) (alloc_all (7 ∷ 90 ∷ 8 ∷ []) an_arena).0
    × AreApart (alloc_all (7 ∷ 90 ∷ 8 ∷ []) an_arena).0
alloc_all-AreApart_example =
    alloc_all-AreApart 4096 (7 ∷ 90 ∷ 8 ∷ []) an_arena an_arena-IsLive
      (omega arith, (omega arith, (omega arith, tt)))

arena_alloc-wraps_example :
    ((arena_alloc an_arena (2 ^ 64 - 18)).0 ≡ some (4096 + align_up 20 max_alignment))
    × ((arena_alloc an_arena (2 ^ 64 - 18)).1.offset ≡ align_up 20 max_alignment - 18)
arena_alloc-wraps_example =
    arena_alloc-wraps 4096 an_arena 18 an_arena-IsLive (omega arith) (omega arith)
