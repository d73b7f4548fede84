-- ===== src/StringBuffer/Growth.antt =====
-- The growth of a string buffer in src/strings/strings.c: an append keeps the bytes and the
-- terminating NUL within the capacity.
use cleric.Common.{ℕ, ◌+◌, ◌*◌, ◌≤◌, ◌<◌, ◌≡◌, none, some, ◌++◌, length, ◌⊎◌}
use cleric.Common.Text.{Text}
use cleric.Arena.{arena_alloc}
use cleric.Arena.Blocks.{IsLive}
use cleric.StringBuffer.{StringBuffer}
use cleric.StringBuffer.Doubling.{doubled}

-- A buffer in an arena in use: its capacity lies within the arena's block, and has room for the
-- content and the NUL behind it.
pub record IsUsable (start : ℕ) (sb : StringBuffer) : Type 0 where
  pub live : IsLive start sb.arena
  pub room : length sb.content < sb.capacity
  pub within : sb.capacity ≤ sb.arena.total_size

-- The bytes that the content and `k` more need, the NUL included.
abbrev pub needed : StringBuffer → ℕ → ℕ
needed sb k = length sb.content + k + 1

-- The buffer with a block of the capacity doubled so often.
abbrev pub enlarged : StringBuffer → ℕ → StringBuffer
enlarged sb times = record sb {
  capacity = doubled times sb.capacity;
  arena = (arena_alloc sb.arena (doubled times sb.capacity)).1;
}

-- How room for `k` more bytes is made. It is there; or the capacity doubled until it is enough is
-- asked of the arena, which gives it or does not.
abbrev pub Cases : StringBuffer → ℕ → (there : Type 0) → (gives : ℕ → Type 0) → Type 0 → Type 0
Cases sb k there gives fails =
    ((needed sb k ≤ sb.capacity) × there)
    ⊎ ((sb.capacity < needed sb k)
        × (times : ℕ) × (needed sb k ≤ doubled times sb.capacity)
        × (doubled times sb.capacity < needed sb k * 2)
        × (((address : ℕ) × ((arena_alloc sb.arena (doubled times sb.capacity)).0 ≡ some address)
              × gives times)
            ⊎ (((arena_alloc sb.arena (doubled times sb.capacity)).0 ≡ none) × fails)))

-- The buffer that an append leaves: with the text behind the content, in the same block or in an
-- enlarged one, or as it was.
abbrev pub Appends : StringBuffer → Text → StringBuffer → Type 0
Appends sb text sb' =
    Cases sb (length text) (sb' ≡ record sb { content = sb.content ++ text })
      (λ times. sb' ≡ record (enlarged sb times) { content = sb.content ++ text }) (sb' ≡ sb)
